-- ===== src/Core/Database.antt =====
-- The tables of migrations/000001_initial_schema.up.sql and their rows. A time is a number of
-- milliseconds from 1970 on. The columns that no statement of the store reads are left out:
-- `servers.status` and the times `updated_at`.
use tarisya.Prelude.{ℕ, String, Option, List}

pub record UserRow : Type 0 where
  pub id : ℕ
  pub name : String
  pub email : String
  pub password_hash : String
  pub role : String
  pub created_at : ℕ

pub record ServerRow : Type 0 where
  pub id : String
  pub user_id : ℕ
  pub name : String
  pub hostname : Option String
  pub agent_version : Option String
  pub last_seen_at : Option ℕ
  pub created_at : ℕ

pub record KeyRow : Type 0 where
  pub server_id : String
  pub api_key_hash : String
  pub created_at : ℕ
  pub revoked_at : Option ℕ

-- `metrics.Values`; `F` is the type of a float64.
pub record Values (F : Type 0) : Type 0 where
  pub cpu_usage : F
  pub memory_usage : F
  pub disk_usage : F
  pub load_average : F
  pub uptime_seconds : ℕ

pub record MetricRow (F : Type 0) : Type 0 where
  pub id : ℕ
  pub server_id : String
  pub values : Values F
  pub collected_at : ℕ

pub record Database (F : Type 0) : Type 0 where
  pub users : List UserRow
  pub servers : List ServerRow
  pub keys : List KeyRow
  pub metrics : List (MetricRow F)
