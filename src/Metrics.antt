-- ===== src/Metrics.antt =====
-- console/src/config/metrics.ts, and the hooks of console/src/hooks/use-metric-series.ts and
-- use-metric-color.ts. An icon of lucide-react is its name.
pub mod Severity
mod Examples
use tarisya.Prelude.{ℕ, String, List, map, str_eq, if◌then◌else◌}
use tarisya.Types.{MetricId, cpu, memory, disk, ServerMetricValues, MetricSeriesPoint}
use tarisya.Double.{Double}

pub record MetricConfig : Type 0 where
  pub id : MetricId
  pub label : String
  pub icon : String
  pub color : String
  pub color_dark : String
  pub warn_at : ℕ
  pub critical_at : ℕ

-- `keyof ServerMetric["metrics"]`
pub data MetricField : Type 0 where
  cpu_usage memory_usage disk_usage load_average uptime_seconds : MetricField

-- `metrics[field]`
abbrev pub index : {F : Type 0} → ServerMetricValues F → MetricField → F
index m cpu_usage = m.cpu_usage
index m memory_usage = m.memory_usage
index m disk_usage = m.disk_usage
index m load_average = m.load_average
index m uptime_seconds = m.uptime_seconds

unfoldable pub metric_field : MetricId → MetricField
metric_field cpu = cpu_usage
metric_field memory = memory_usage
metric_field disk = disk_usage

unfoldable pub metric_config : MetricId → MetricConfig
metric_config cpu = record {
  id = cpu;
  label = "CPU Usage";
  icon = "Cpu";
  color = "#2a78d6";
  color_dark = "#3987e5";
  warn_at = 70;
  critical_at = 90;
}
metric_config memory = record {
  id = memory;
  label = "Memory Usage";
  icon = "MemoryStick";
  color = "#1baf7a";
  color_dark = "#199e70";
  warn_at = 75;
  critical_at = 90;
}
metric_config disk = record {
  id = disk;
  label = "Disk Usage";
  icon = "HardDrive";
  color = "#eda100";
  color_dark = "#c98500";
  warn_at = 80;
  critical_at = 95;
}

pub data Status : Type 0 where
  good warning critical : Status

unfoldable pub status_color : Status → String
status_color good = "#0ca30c"
status_color warning = "#fab219"
status_color critical = "#d03b3b"

unfoldable pub get_status : {F : Type 0} ⦃d : Double F⦄ → F → F → F → Status
get_status ⦃d⦄ value warn_at critical_at =
    if d.ge value critical_at then critical else if d.ge value warn_at then warning else good

-- `useMetricColor`, at the theme that `useTheme` resolves.
unfoldable pub use_metric_color : String → MetricConfig → String
use_metric_color resolved_theme config =
    if str_eq resolved_theme "dark" then config.color_dark else config.color

-- The projection that `useMetricSeries` memoizes. A point is its `collected_at` and its `metrics`.
unfoldable pub use_metric_series :
    {F : Type 0}
    → List (String × ServerMetricValues F)
    → MetricId
    → (String → String)
    → List (MetricSeriesPoint F)
use_metric_series history metric format_time =
    map
      (λ (snapshot : String × ServerMetricValues _). record {
        time = format_time snapshot.0;
        value = index snapshot.1 (metric_field metric);
      })
      history
