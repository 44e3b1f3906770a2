-- ===== src/Dashboard/Page/Examples.antt =====
-- The texts of the dashboard for concrete results of its queries.
use tarisya.Prelude.{
  String, true, false, some, none, List, [], ◌∷◌, ◌≡◌, refl, str_eq, if◌then◌else◌,
}
use tarisya.Jsx.{texts}
use tarisya.Types.{
  Server, ServerDetail, ServerMetric, OverallStatus, ConnectivityStatus, HealthStatus, MetricsRange,
  24h,
}
use tarisya.Double.{Percent, percent_double}
use tarisya.Dashboard.Page.{
  PageState, QueryResult, RangeData, Clock, Results, set_range, handle_server_change,
  dashboard_page,
}
use tarisya.Dashboard.Page.Selection.{dict_params, dict_params-IsSearchParams}
use tarisya.Dashboard.Page.Chosen.{texts_about, chosen_shown}
use tarisya.Api.{range_text}

abbrev clock : Clock
clock = record { last_seen = λ detail. none; format_range_time = λ iso. iso }

abbrev fresh : PageState dict_params
fresh = record { params = []; range = 24h }

abbrev waiting : (D : Type 0) → QueryResult D
waiting D = record { payload = none; is_loading = true; is_error = false }

abbrev failed : (D : Type 0) → QueryResult D
failed D = record { payload = none; is_loading = false; is_error = true }

abbrev web : Server
web = record {
  id = "s1";
  name = "web";
  overall_status = OverallStatus.healthy;
  connectivity_status = ConnectivityStatus.online;
  health_status = HealthStatus.healthy;
  last_seen_at = none;
  created_at = "2026-01-01";
}

abbrev one : QueryResult (List Server)
one = record { payload = some (web ∷ []); is_loading = false; is_error = false }

abbrev two : Server
two = record web { id = "s2"; name = "db" }

-- The second server's measurements and details are loading, and its history has failed.
abbrev results : Results Percent
results = record {
  use_servers = record { payload = some (web ∷ two ∷ []); is_loading = false; is_error = false };
  use_server_metrics = λ id. waiting (ServerMetric Percent);
  use_server = λ id. waiting ServerDetail;
  use_metrics_range = λ id range. elim id [
    | none ↦ waiting (RangeData Percent)
    | some id ↦ (if str_eq id "s2" then failed (RangeData Percent) else waiting (RangeData Percent))
  ];
}

chosen_shown_example :
    ((id : String) (range : MetricsRange)
      → false ≡ false
      → texts (
          dashboard_page dict_params clock "light"
            (set_range dict_params (range_text range) (handle_server_change dict_params id fresh))
            results)
        ≡ texts_about dict_params clock "light" results (some id) range)
    × ((server : Server) (servers : List Server)
        → dict_params.get "server" fresh.params ≡ none
        → (web ∷ two ∷ []) ≡ server ∷ servers
        → texts (dashboard_page dict_params clock "light" fresh results)
          ≡ texts_about dict_params clock "light" results (some server.id) 24h)
chosen_shown_example =
    chosen_shown dict_params clock "light" results dict_params-IsSearchParams refl fresh
