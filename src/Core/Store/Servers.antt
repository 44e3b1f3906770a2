-- ===== src/Core/Store/Servers.antt =====
-- internal/core/store.go: the servers of a user, listed or one in detail, and their statuses. The
-- numbers of type float64 are compared by two parameters, `<` and `>=`; a percentage that is NULL
-- is `none`, all three together. Times are milliseconds. Rows of the list with one time of creation
-- are in the order of the table, which SQL leaves open.
pub mod Agree
use mathlib.Core.Option
use tarisya.Prelude.{
  ℕ, ◌+◌, Bool, true, false, ◌&&◌, String, Option, none, some, List, [], ◌∷◌, map, ltb, leb, ◌==◌,
  str_eq, or_else, if◌then◌else◌,
}
use tarisya.Core.Sql.{select}
use tarisya.Core.Database.{ServerRow, Values, MetricRow, Database}
use tarisya.Core.Store.{ServerRecord, is_owned}
use tarisya.Core.Store.Pages.{by_newest, is_of}

pub record ServerDetail : Type 0 where
  pub id : String
  pub name : String
  pub hostname : String
  pub overall_status : String
  pub connectivity_status : String
  pub health_status : String
  pub last_seen_at : Option ℕ
  pub agent_version : String
  pub uptime_seconds : ℕ
  pub created_at : ℕ

-- `now` and the thresholds of the handler.
pub record Thresholds (F : Type 0) : Type 0 where
  pub lt : F → F → Bool
  pub ge : F → F → Bool
  pub now : ℕ
  pub offline : ℕ
  pub warn : F
  pub critical : F

abbrev pub first_row {ℓ} : {A : Type ℓ} → List A → Option A
first_row [] = none
first_row (row ∷ rows) = some row

-- `ORDER BY s.created_at DESC`
abbrev pub insert_server : ServerRow → List ServerRow → List ServerRow
insert_server s [] = s ∷ []
insert_server s (first ∷ rest) =
    let later = insert_server s rest in
    if leb first.created_at s.created_at then s ∷ first ∷ rest else first ∷ later

abbrev pub by_created : List ServerRow → List ServerRow
by_created [] = []
by_created (s ∷ rest) = insert_server s (by_created rest)

-- The two statuses
pub record Statuses : Type 0 where
  pub connectivity : String
  pub health : String

unfoldable pub overall_status : Statuses → String
overall_status s = if str_eq s.connectivity "online" then s.health else s.connectivity

module _ {F : Type 0} where
  -- The row that the subquery chooses, and that `LatestMetrics` answers.
  unfoldable pub latest_metrics : String → Database F → Option (MetricRow F)
  latest_metrics server_id db = first_row (by_newest (select (is_of server_id) db.metrics))

  module _ (t : Thresholds F) where
    unfoldable pub max : F → F → F → F
    max a b c = let larger = if t.lt a b then b else a in if t.lt larger c then c else larger

    abbrev pub health_of : Option (Values F) → String
    health_of none = "unknown"
    health_of (some v) =
        let peak = max v.cpu_usage v.memory_usage v.disk_usage in
        if t.ge peak t.critical
        then "critical"
        else if t.ge peak t.warn
        then "warning"
        else "healthy"

    -- `seen.Before(now - offline)`
    unfoldable pub status : Option ℕ → Option (Values F) → Statuses
    status none latest = record { connectivity = "pending"; health = "unknown" }
    status (some seen) latest =
        if ltb (seen + t.offline) t.now
        then record { connectivity = "offline"; health = "unknown" }
        else record { connectivity = "online"; health = health_of latest }

    -- A row of the result, with its latest metrics.
    abbrev pub scan_record : ServerRow → Option (MetricRow F) → ServerRecord
    scan_record s latest =
        let both = status s.last_seen_at (Option.map (λ m. m.values) latest) in
        record {
          id = s.id;
          name = s.name;
          overall_status = overall_status both;
          connectivity_status = both.connectivity;
          health_status = both.health;
          last_seen_at = s.last_seen_at;
          created_at = s.created_at;
        }

    abbrev pub scan_detail : ServerRow → Option (MetricRow F) → ServerDetail
    scan_detail s latest =
        let values = Option.map (λ m. m.values) latest in
        let both = status s.last_seen_at values in
        record {
          id = s.id;
          name = s.name;
          hostname = or_else s.hostname "";
          overall_status = overall_status both;
          connectivity_status = both.connectivity;
          health_status = both.health;
          last_seen_at = s.last_seen_at;
          agent_version = or_else s.agent_version "";
          uptime_seconds = or_else (Option.map (λ v. v.uptime_seconds) values) 0;
          created_at = s.created_at;
        }

    unfoldable pub servers_by_user : ℕ → Database F → List ServerRecord
    servers_by_user user_id db =
        map (λ s. scan_record s (latest_metrics s.id db))
          (by_created (select (λ s. s.user_id == user_id) db.servers))

    unfoldable pub server_by_user : ℕ → String → Database F → Option ServerDetail
    server_by_user user_id server_id db =
        Option.map (λ s. scan_detail s (latest_metrics s.id db))
          (first_row (select (is_owned user_id server_id) db.servers))
