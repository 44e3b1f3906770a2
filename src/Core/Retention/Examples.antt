-- ===== src/Core/Retention/Examples.antt =====
-- The maintenance of three samples, and of one that comes late.
use tarisya.Prelude.{ℕ, ◌+◌, String, [], ◌∷◌, ◌≡◌, refl}
use tarisya.Core.Sql.{select}
use tarisya.Core.Database.{MetricRow}
use tarisya.Core.Retention.{
  Aggregates, Archive, MaintenanceConfig, downsample_raw, downsample_5m, maintain_at, total,
  is_old_bucket,
}
use tarisya.Core.Retention.Conserved.{samples, maintained}

abbrev aggregates : Aggregates ℕ
aggregates = record {
  of_values = λ values. record { average = 0; least = 0; greatest = 0 };
  of_columns = λ columns. record { average = 0; least = 0; greatest = 0 };
  longest = λ uptimes. 0;
}

abbrev sample : String → ℕ → MetricRow ℕ
sample server_id at = record {
  id = at;
  server_id = server_id;
  values = record {
    cpu_usage = 1;
    memory_usage = 2;
    disk_usage = 3;
    load_average = 4;
    uptime_seconds = 5;
  };
  collected_at = at;
}

abbrev archive : Archive ℕ
archive = record {
  metrics = sample "a" 1 ∷ sample "b" 2 ∷ sample "a" 3 ∷ sample "a" 9_000_000 ∷ [];
  metrics_5m = [];
  metrics_1h = [];
}

-- Rows are kept for an hour, and buckets of five minutes for two.
abbrev cfg : MaintenanceConfig
cfg = record {
  raw_retention = 3_600_000;
  five_minute_retention = 7_200_000;
  aggregated_retention = 72_000_000;
}

abbrev after : Archive ℕ
after = downsample_5m aggregates 0 (downsample_raw aggregates 3_900_000 archive)

-- A sample with an old time comes when its bucket is there, which then counts that one alone.
abbrev late : Archive ℕ
late = record after { metrics = sample "a" 4 ∷ after.metrics }

late_sample :
    (samples after ≡ 4)
    × (samples late ≡ 5)
    × (samples (downsample_raw aggregates 3_900_000 late) ≡ 3)
unfolding downsample_raw downsample_5m
late_sample = (refl, refl, refl)

maintained_example :
    samples archive ≡ samples after + total (select (is_old_bucket aggregates 0) after.metrics_1h)
unfolding maintain_at downsample_5m downsample_raw
maintained_example =
    maintained aggregates cfg 7_500_000 archive after refl (refl, (refl, (refl, tt))) tt
