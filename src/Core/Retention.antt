-- ===== src/Core/Retention.antt =====
-- internal/core/retention.go: old rows of metrics move to tables of five minutes and of an hour. The
-- averages, least and greatest values of a column are parameters, since the database computes them;
-- the order of the groups is that of their first rows, which SQL leaves open. Times are milliseconds.
pub mod Groups
pub mod Conserved
mod Examples
use tarisya.Prelude.{
  ℕ, ◌+◌, ◌-◌, ◌*◌, ◌/◌, Bool, true, false, not, ◌&&◌, ◌||◌, String, Option, none, some, List, [],
  ◌∷◌, ◌++◌, map, length, ltb, leb, ◌==◌, str_eq, if◌then◌else◌,
}
use tarisya.Core.Sql.{select, delete}
use tarisya.Core.Database.{Values, MetricRow}

-- The columns of one measurement
pub record Column (F : Type 0) : Type 0 where
  pub average : F
  pub least : F
  pub greatest : F

-- `metrics_5m` and `metrics_1h`
pub record Bucket (F : Type 0) : Type 0 where
  pub server_id : String
  pub bucket_start : ℕ
  pub cpu : Column F
  pub memory : Column F
  pub disk : Column F
  pub load : Column F
  pub uptime_max : ℕ
  pub sample_count : ℕ

-- What the database computes of the rows of a group: the columns of a measurement, from its values or
-- from the columns of buckets with their counts, and the longest uptime.
pub record Aggregates (F : Type 0) : Type 0 where
  pub of_values : List F → Column F
  pub of_columns : List (Column F × ℕ) → Column F
  pub longest : List ℕ → ℕ

pub record Archive (F : Type 0) : Type 0 where
  pub metrics : List (MetricRow F)
  pub metrics_5m : List (Bucket F)
  pub metrics_1h : List (Bucket F)

pub record MaintenanceConfig : Type 0 where
  pub raw_retention : ℕ
  pub five_minute_retention : ℕ
  pub aggregated_retention : ℕ

-- `rawMetricsBucket` and `aggregatedMetricsBucket`
abbrev pub raw_metrics_bucket : ℕ
raw_metrics_bucket = 300_000

abbrev pub aggregated_metrics_bucket : ℕ
aggregated_metrics_bucket = 3_600_000

-- The server and the start of the bucket
abbrev pub Key : Type 0
Key = String × ℕ

abbrev pub same_key : Key → Key → Bool
same_key (server_id, start) (other, at) = str_eq server_id other && (start == at)

-- `(at / size) * size`
abbrev pub start_of : ℕ → ℕ → ℕ
start_of size at = at / size * size

module _ {A : Type 0} (key : A → Key) where
  -- `GROUP BY`
  abbrev pub add_row : A → List (Key × List A) → List (Key × List A)
  add_row row [] = (key row, row ∷ []) ∷ []
  add_row row ((k, rows) ∷ groups) =
      let later = add_row row groups in
      if same_key k (key row) then (k, row ∷ rows) ∷ groups else (k, rows) ∷ later

  abbrev pub group_by : List A → List (Key × List A)
  group_by [] = []
  group_by (row ∷ rows) = add_row row (group_by rows)

module _ {F : Type 0} where
  abbrev pub bucket_key : Bucket F → Key
  bucket_key b = (b.server_id, b.bucket_start)

  abbrev pub total : List (Bucket F) → ℕ
  total [] = 0
  total (b ∷ buckets) = b.sample_count + total buckets

  -- `ON CONFLICT(server_id,bucket_start) DO UPDATE SET …=excluded.…`
  abbrev pub upsert : Bucket F → List (Bucket F) → List (Bucket F)
  upsert b [] = b ∷ []
  upsert b (c ∷ table) =
      let later = upsert b table in
      if same_key (bucket_key c) (bucket_key b) then b ∷ table else c ∷ later

  abbrev pub upsert_all : List (Bucket F) → List (Bucket F) → List (Bucket F)
  upsert_all [] table = table
  upsert_all (b ∷ buckets) table = upsert_all buckets (upsert b table)

  abbrev pub raw_key : MetricRow F → Key
  raw_key m = (m.server_id, start_of raw_metrics_bucket m.collected_at)

  abbrev pub hour_key : Bucket F → Key
  hour_key b = (b.server_id, start_of aggregated_metrics_bucket b.bucket_start)

  module _ (a : Aggregates F) where
    abbrev pub bucket_of_rows : Key × List (MetricRow F) → Bucket F
    bucket_of_rows ((server_id, start), rows) =
        let column : (Values F → F) → Column F =
          λ value. a.of_values (map (λ m. value m.values) rows) in
        record {
          server_id = server_id;
          bucket_start = start;
          cpu = column (λ v. v.cpu_usage);
          memory = column (λ v. v.memory_usage);
          disk = column (λ v. v.disk_usage);
          load = column (λ v. v.load_average);
          uptime_max = a.longest (map (λ m. m.values.uptime_seconds) rows);
          sample_count = length rows;
        }

    abbrev pub bucket_of_buckets : Key × List (Bucket F) → Bucket F
    bucket_of_buckets ((server_id, start), rows) =
        let column : (Bucket F → Column F) → Column F =
          λ of_bucket. a.of_columns (map (λ b. (of_bucket b, b.sample_count)) rows) in
        record {
          server_id = server_id;
          bucket_start = start;
          cpu = column (λ b. b.cpu);
          memory = column (λ b. b.memory);
          disk = column (λ b. b.disk);
          load = column (λ b. b.load);
          uptime_max = a.longest (map (λ b. b.uptime_max) rows);
          sample_count = total rows;
        }

    abbrev pub is_old : ℕ → MetricRow F → Bool
    is_old cutoff m = ltb m.collected_at cutoff

    abbrev pub is_old_bucket : ℕ → Bucket F → Bool
    is_old_bucket cutoff b = ltb b.bucket_start cutoff

    unfoldable pub downsample_raw : ℕ → Archive F → Archive F
    downsample_raw cutoff s = record s {
      metrics = delete (is_old cutoff) s.metrics;
      metrics_5m =
          upsert_all (map bucket_of_rows (group_by raw_key (select (is_old cutoff) s.metrics)))
            s.metrics_5m;
    }

    unfoldable pub downsample_5m : ℕ → Archive F → Archive F
    downsample_5m cutoff s = record s {
      metrics_5m = delete (is_old_bucket cutoff) s.metrics_5m;
      metrics_1h =
          upsert_all
            (map bucket_of_buckets (group_by hour_key (select (is_old_bucket cutoff) s.metrics_5m)))
            s.metrics_1h;
    }

    -- `none` where the periods are refused; `now` is not before the retention's beginning.
    unfoldable pub maintain_at : MaintenanceConfig → ℕ → Archive F → Option (Archive F)
    maintain_at cfg now s =
        if leb cfg.raw_retention 0
          || leb cfg.five_minute_retention cfg.raw_retention
          || leb cfg.aggregated_retention cfg.five_minute_retention
        then none
        else let fine = downsample_raw (start_of raw_metrics_bucket (now - cfg.raw_retention)) s in
          let coarse =
            downsample_5m (start_of aggregated_metrics_bucket (now - cfg.five_minute_retention))
              fine in
          let cutoff = start_of aggregated_metrics_bucket (now - cfg.aggregated_retention) in
          some (record coarse { metrics_1h = delete (is_old_bucket cutoff) coarse.metrics_1h })
