-- ===== src/Dashboard/Examples.antt =====
-- The dashboard at concrete measurements and servers.
use tarisya.Prelude.{String, false, none, some, [], ◌∷◌, ◌≡◌, ◌≢◌, refl, All, arith, eq_iff}
use tarisya.Types.{24h, memory, ServerMetricValues, ServerMetric}
use tarisya.Jsx.{texts}
use tarisya.Metrics.{metric_config, metric_field}
use tarisya.Dashboard.History.{metric_history_cell}
use tarisya.Dashboard.History.Shown.{metric_history_cell_lem}
use tarisya.Double.{Percent, percent_double, Percent-IsOrdered, ◌≽◌}
use tarisya.Dict.{lookup}
use tarisya.Queries.{servers, latest_metrics, server, metrics_range, IsEnabled}
use tarisya.Dashboard.Metric.{meter_width}
use tarisya.Dashboard.Metric.Meter.{meter_width_bounds}
use tarisya.Dashboard.Page.{PageState, server_id, handle_server_change, queries}
use tarisya.Dashboard.Page.Selection.{
  dict_params, dict_params-IsSearchParams, handle_server_change_lem,
}

abbrev fresh : PageState dict_params
fresh = record { params = ("tab", "a") ∷ []; range = 24h }

meter_width_bounds_example :
    (meter_width {F = Percent} (some 120) ≽ some 0)
    × (some 100 ≽ meter_width {F = Percent} (some 120))
    × (◌≽◌ {F = Percent} (some 120) (some 0)
        → ◌≽◌ {F = Percent} (some 100) (some 120)
        → (meter_width {F = Percent} (some 120) ≽ some 120)
          × (some 120 ≽ meter_width {F = Percent} (some 120)))
meter_width_bounds_example = meter_width_bounds Percent-IsOrdered (some 120) refl

s1_named : ◌≢◌ {A = String} "s1" ""
s1_named = ground (arith, eq_iff "s1" "")

handle_server_change_lem_example :
    let t = handle_server_change dict_params "s1" fresh in
    (server_id dict_params t [] ≡ some "s1")
    × (t.range ≡ 24h)
    × ((k : String) → "server" ≢ k → lookup k t.params ≡ lookup k fresh.params)
    × (queries dict_params t []
        ≡ servers
          ∷ latest_metrics (some "s1")
          ∷ server (some "s1")
          ∷ metrics_range (some "s1") 24h
          ∷ [])
    × All IsEnabled (queries dict_params t [])
handle_server_change_lem_example =
    handle_server_change_lem dict_params dict_params-IsSearchParams fresh "s1" [] s1_named

abbrev values : Percent → ServerMetricValues Percent
values n = record {
  cpu_usage = some 1;
  memory_usage = n;
  disk_usage = some 2;
  load_average = some 0;
  uptime_seconds = some 60;
}

metric_history_cell_lem_example :
    texts {A = String} (
      metric_history_cell
        (λ t. t)
        "light"
        memory
        (("10:00", values (some 40)) ∷ ("10:05", values (some 50)) ∷ [])
        none
        false)
    ≡ "Memory Usage" ∷ "50.0" ∷ "%" ∷ []
unfolding metric_config metric_field tarisya.Prelude.show
metric_history_cell_lem_example =
    metric_history_cell_lem String (λ t. t) "light" memory
      (("10:00", values (some 40)) ∷ ("10:05", values (some 50)) ∷ []) none false

abbrev latest : ServerMetric Percent
latest = record { id = 1; server_id = "s1"; collected_at = "10:05"; metrics = values (some 80) }
