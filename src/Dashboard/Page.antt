-- ===== src/Dashboard/Page.antt =====
-- console/src/pages/dashboard-page.tsx. The results of its queries are arguments; the query string
-- of the address is a parameter, with the operations of `URLSearchParams` that the page uses.
pub mod Selection
pub mod Content
pub mod Chosen
mod Examples
use tarisya.Prelude.{
  String, Bool, true, false, not, ◌&&◌, Option, none, some, List, [], ◌∷◌, map, first?, or_else,
  if◌then◌else◌,
}
use tarisya.Jsx.{Attr, class, Node, Nodes, text, tag, component, end, ◌▸◌}
use tarisya.Types.{
  Server, ServerDetail, ServerMetric, ServerMetricValues, MetricsRange, 24h, MetricRangePoint,
  MetricsRangeStatistics,
}
use tarisya.Double.{Double}
use tarisya.Queries.{Hook, servers, latest_metrics, server, metrics_range}
use tarisya.Dashboard.Badges.{active_alerts_section}
use tarisya.Dashboard.Metric.{metric_grid}
use tarisya.Dashboard.History.{metric_history_section}
use tarisya.Dashboard.Overview.{server_overview_section}
use tarisya.Dashboard.Selectors.{server_selector, range_changed, time_range_selector}

pub record SearchParams : Type 1 where
  pub Params : Type 0
  pub get : String → Params → Option String
  pub set : String → String → Params → Params

-- What the page reads of a query's result.
pub record QueryResult (D : Type 0) : Type 0 where
  pub payload : Option D
  pub is_loading : Bool
  pub is_error : Bool

-- `servers[0]?.id`
abbrev first_id : List Server → Option String
first_id [] = none
first_id (s ∷ ss) = some s.id

-- `data: servers = []`
abbrev pub listed : QueryResult (List Server) → List Server
listed result = or_else result.payload []

module _ (url : SearchParams) where
  -- The page's own state: the query string and the range.
  pub record PageState : Type 0 where
    pub params : url.Params
    pub range : MetricsRange

  -- The first render of the page at an address.
  unfoldable pub initial : url.Params → PageState
  initial params = record { params = params; range = 24h }

  -- `searchParams.get("server") ?? servers[0]?.id`
  unfoldable pub server_id : PageState → List Server → Option String
  server_id s loaded = elim (url.get "server" s.params) [
    | none ↦ first_id loaded
    | some id ↦ some id
  ]

  unfoldable pub handle_server_change : String → PageState → PageState
  handle_server_change next_server_id s = record s {
    params = url.set "server" next_server_id s.params;
  }

  -- `onValueChange` of the range selector
  unfoldable pub set_range : String → PageState → PageState
  set_range next s = record s { range = range_changed s.range next }

  -- The queries that a render of the page makes.
  unfoldable pub queries : PageState → List Server → List Hook
  queries s loaded =
      let id = server_id s loaded in
      servers ∷ latest_metrics id ∷ server id ∷ metrics_range id s.range ∷ []

pub data Action : Type 0 where
  server_changed range_selected : String → Action

abbrev notice : String → String → Node Action
notice look message = tag "p" (class look ∷ []) (text message ▸ end)

-- The history of `rangeData?.data ?? []` and its `statistics`
abbrev pub RangeData : Type 0 → Type 0
RangeData F = List (MetricRangePoint F) × MetricsRangeStatistics F

abbrev pub history : {F : Type 0} → Option (RangeData F) → List (String × ServerMetricValues F)
history none = []
history (some (points, statistics)) = map (λ p. (p.collected_at, p.metrics)) points

abbrev pub statistics_of : {F : Type 0} → Option (RangeData F) → Option (MetricsRangeStatistics F)
statistics_of none = none
statistics_of (some (points, statistics)) = some statistics

abbrev pub is_empty : List Server → Bool
is_empty [] = true
is_empty (s ∷ ss) = false

-- The texts of the page's clocks and dates: what `useRelativeTime` shows, and `formatRangeTime`.
pub record Clock : Type 0 where
  pub last_seen : Option ServerDetail → Option String
  pub format_range_time : String → String

-- The results of the hooks that the page calls, by what it gives them.
pub record Results (F : Type 0) : Type 0 where
  pub use_servers : QueryResult (List Server)
  pub use_server_metrics : Option String → QueryResult (ServerMetric F)
  pub use_server : Option String → QueryResult ServerDetail
  pub use_metrics_range : Option String → MetricsRange → QueryResult (RangeData F)

module _ {F : Type 0} ⦃d : Double F⦄ (url : SearchParams) (clock : Clock) (theme : String) where
  -- What the page returns for the results of its queries.
  unfoldable pub page_view :
      PageState url
      → QueryResult (List Server)
      → QueryResult (ServerMetric F)
      → QueryResult ServerDetail
      → QueryResult (RangeData F)
      → Node Action
  page_view s listing latest detail range_data =
      let loaded = listed listing in
      if listing.is_error
      then notice "text-sm text-destructive" "Gagal memuat daftar server. Coba muat ulang halaman."
      else if not listing.is_loading && is_empty loaded
      then notice "text-sm text-muted-foreground" "Belum ada server yang terdaftar."
      else tag "div" (class "space-y-4" ∷ []) (
          component "ServerSelector" none
            (server_selector loaded (server_id url s loaded) server_changed listing.is_loading)
          ▸ component "ServerOverviewSection" none (
              server_overview_section detail.payload (clock.last_seen detail.payload)
                detail.is_loading)
          ▸ component "MetricGrid" none (metric_grid theme latest.payload latest.is_loading)
          ▸ tag "div" (class "flex items-center justify-between" ∷ []) (
              tag "h2" (class "text-sm font-medium" ∷ []) (text "History" ▸ end)
              ▸ component "TimeRangeSelector" none (time_range_selector s.range range_selected)
              ▸ end)
          ▸ (if range_data.is_error
              then notice "text-sm text-destructive" "Gagal memuat data history untuk rentang ini."
              else component "MetricHistorySection" none (
                  metric_history_section clock.format_range_time theme (history range_data.payload)
                    (statistics_of range_data.payload) range_data.is_loading))
          ▸ component "ActiveAlertsSection" none active_alerts_section
          ▸ end)

  unfoldable pub dashboard_page : PageState url → Results F → Node Action
  dashboard_page s q =
      let id = server_id url s (listed q.use_servers) in
      page_view s q.use_servers (q.use_server_metrics id) (q.use_server id)
        (q.use_metrics_range id s.range)
