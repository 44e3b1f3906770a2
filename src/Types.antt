-- ===== src/Types.antt =====
-- console/src/types: the payloads that the console exchanges with the core's API. A `number` that
-- is a measurement is of a type `F` of floating point numbers; ids and seconds are whole numbers.
use tarisya.Prelude.{ℕ, String, Option}

pub record User : Type 0 where
  pub id : ℕ
  pub name : String
  pub email : String
  pub role : String
  pub created_at : String

pub record LoginPayload : Type 0 where
  pub email : String
  pub password : String

pub record LoginResponse : Type 0 where
  pub access_token : String
  pub user : User

pub data ConnectivityStatus : Type 0 where
  pending online offline : ConnectivityStatus

pub data HealthStatus : Type 0 where
  healthy warning critical unknown : HealthStatus

pub data OverallStatus : Type 0 where
  pending healthy warning critical offline : OverallStatus

pub record Server : Type 0 where
  pub id : String
  pub name : String
  pub overall_status : OverallStatus
  pub connectivity_status : ConnectivityStatus
  pub health_status : HealthStatus
  pub last_seen_at : Option String
  pub created_at : String

-- `extends Server`
pub record ServerDetail : Type 0 where
  pub server : Server
  pub open server use *
  pub hostname : String
  pub agent_version : String
  pub uptime_seconds : ℕ

pub record CreateServerPayload : Type 0 where
  pub name : String

pub record AgentConfig : Type 0 where
  pub server_id : String
  pub api_key : String
  pub core_url : String

pub record CreateServerResponse : Type 0 where
  pub server : Server
  pub agent_config : AgentConfig

-- `agent_config` is undefined where the answer lacks it: an answer is not checked against its type.
pub record RotateApiKeyResponse : Type 0 where
  pub agent_config : Option AgentConfig

pub data MetricId : Type 0 where
  cpu memory disk : MetricId

pub data MetricsRange : Type 0 where
  15m 1h 6h 24h : MetricsRange

module _ (F : Type 0) where
  pub record ServerMetricValues : Type 0 where
    pub cpu_usage : F
    pub memory_usage : F
    pub disk_usage : F
    pub load_average : F
    pub uptime_seconds : F

  pub record ServerMetric : Type 0 where
    pub id : ℕ
    pub server_id : String
    pub collected_at : String
    pub metrics : ServerMetricValues

  pub record MetricSeriesPoint : Type 0 where
    pub time : String
    pub value : F

  pub record MetricRangePoint : Type 0 where
    pub server_id : String
    pub collected_at : String
    pub metrics : ServerMetricValues

  pub record MetricStat : Type 0 where
    pub average : F
    pub peak : F

  pub record MetricsRangeStatistics : Type 0 where
    pub cpu : MetricStat
    pub memory : MetricStat
    pub disk : MetricStat
    pub load_average : MetricStat

pub record MetricsRangeInfo : Type 0 where
  pub value : MetricsRange
  pub start : String
  pub «end» : String
  pub bucket : String
