-- ===== src/Dashboard/Page/Content.antt =====
-- What the dashboard shows for each result of its queries.
use tarisya.Prelude.{
  String, Bool, true, false, not, ◌&&◌, Option, List, [], ◌∷◌, ◌++◌, ◌≡◌, refl, map, last?,
  append_assoc, append-nil, if◌then◌else◌, Bool-cases, inl, inr, ap, sym, ◌∙◌,
}
use tarisya.Jsx.{texts, texts_of, each}
use tarisya.Types.{MetricId, cpu, memory, disk, Server, ServerDetail, ServerMetric}
use tarisya.Double.{Double}
use tarisya.Metrics.{metric_config}
use tarisya.Dashboard.Badges.{active_alerts_section}
use tarisya.Dashboard.Metric.Shown.{grid_texts, metric_grid_lem}
use tarisya.Dashboard.History.{stat_of, metric_history_section}
use tarisya.Dashboard.History.Shown.{stat_texts, latest_texts, metric_history_cell_lem}
use tarisya.Dashboard.Overview.Shown.{overview_texts, server_overview_section_lem}
use tarisya.Dashboard.Selectors.{server_item, server_selector, time_range_selector}
use tarisya.Dashboard.Page.{
  Action, server_changed, server_id, SearchParams, QueryResult, PageState, RangeData, Clock, listed,
  is_empty, history, statistics_of, page_view,
}

-- The names that the selector offers.
abbrev pub selector_texts : List Server → Bool → List String
selector_texts servers true = []
selector_texts servers false = map (λ s. s.name) servers

items_lem :
    (A : Type 0) (servers : List Server)
    → texts_of {A = A} (each server_item servers) ≡ map (λ s. s.name) servers
unfolding texts each
items_lem A [] = refl
items_lem A (server ∷ servers) = ap (λ names. server.name ∷ names) (items_lem A servers)

selector_lem :
    (A : Type 0) (servers : List Server) (value : Option String) (on_change : String → A)
    (is_loading : Bool)
    → texts (server_selector servers value on_change is_loading) ≡ selector_texts servers is_loading
unfolding server_selector texts
selector_lem A servers value on_change true = refl
selector_lem A servers value on_change false = append-nil _ ∙ items_lem A servers

module _ {F : Type 0} ⦃d : Double F⦄ where
  -- The history of one metric, and of the three.
  abbrev pub cell_texts : Option (RangeData F) → MetricId → List String
  cell_texts found metric =
      (metric_config metric).label ∷ stat_texts (stat_of (statistics_of found) metric)
      ++ latest_texts metric (last? (history found))

  abbrev pub history_texts : Option (RangeData F) → List String
  history_texts found = cell_texts found cpu ++ cell_texts found memory ++ cell_texts found disk

  history_lem :
      (A : Type 0) (format_time : String → String) (theme : String) (found : Option (RangeData F))
      (is_loading : Bool)
      → texts {A = A} (
          metric_history_section format_time theme (history found) (statistics_of found) is_loading)
        ≡ history_texts found
  unfolding metric_history_section texts each
  history_lem A format_time theme found is_loading =
      let cell = λ (metric : MetricId).
        metric_history_cell_lem A format_time theme metric (history found) (statistics_of found)
          is_loading in
      rw (cell cpu, cell memory, cell disk) (simp (append_assoc, append-nil))

module _ {F : Type 0} ⦃d : Double F⦄ (url : SearchParams) (clock : Clock) (theme : String) where
  -- The texts of the page below the messages for no server.
  abbrev pub loaded_texts :
      QueryResult (List Server)
      → QueryResult (ServerMetric F)
      → QueryResult ServerDetail
      → QueryResult (RangeData F)
      → List String
  loaded_texts listing latest detail found =
      selector_texts (listed listing) listing.is_loading
      ++ "Server Overview"
        ∷ overview_texts detail.payload (clock.last_seen detail.payload) detail.is_loading
      ++ grid_texts latest.payload latest.is_loading
      ++ "History"
        ∷ "15m"
        ∷ "1h"
        ∷ "6h"
        ∷ "24h"
        ∷ (if found.is_error
            then "Gagal memuat data history untuk rentang ini." ∷ []
            else history_texts found.payload)
      ++ "Active Alerts" ∷ "No active alerts" ∷ []

  pub loaded_lem :
      (s : PageState url) (listing : QueryResult (List Server))
      (latest : QueryResult (ServerMetric F)) (detail : QueryResult ServerDetail)
      (found : QueryResult (RangeData F))
      → listing.is_error ≡ false
      → (not listing.is_loading && is_empty (listed listing)) ≡ false
      → texts (page_view url clock theme s listing latest detail found)
        ≡ loaded_texts listing latest detail found
  unfolding page_view texts time_range_selector each active_alerts_section
  loaded_lem s listing latest detail found no_error some_server =
      let selector =
        selector_lem Action (listed listing) (server_id url s (listed listing)) server_changed
          listing.is_loading in
      let overview =
        server_overview_section_lem Action detail.payload (clock.last_seen detail.payload)
          detail.is_loading in
      let grid = metric_grid_lem Action theme latest.payload latest.is_loading in
      let ranges =
        history_lem Action clock.format_range_time theme found.payload found.is_loading in
      elim (Bool-cases found.is_error) [
        | inl failed ↦
            rw (no_error, some_server, failed, selector, overview, grid)
              (simp (append_assoc, append-nil))
        | inr fetched ↦
            rw (no_error, some_server, fetched, selector, overview, grid, ranges)
              (simp (append_assoc, append-nil))
      ]

  abbrev pub page_texts :
      QueryResult (List Server)
      → QueryResult (ServerMetric F)
      → QueryResult ServerDetail
      → QueryResult (RangeData F)
      → List String
  page_texts listing latest detail found =
      if listing.is_error
      then "Gagal memuat daftar server. Coba muat ulang halaman." ∷ []
      else if not listing.is_loading && is_empty (listed listing)
      then "Belum ada server yang terdaftar." ∷ []
      else loaded_texts listing latest detail found

  -- The dashboard shows a message alone if the servers cannot be fetched or there is none. Otherwise
  -- it shows the names of the servers, the details, the latest measurements, the ranges, the history
  -- or a message if that cannot be fetched, and the alerts.
  pub page_view_lem :
      (s : PageState url) (listing : QueryResult (List Server))
      (latest : QueryResult (ServerMetric F)) (detail : QueryResult ServerDetail)
      (found : QueryResult (RangeData F))
      → texts (page_view url clock theme s listing latest detail found)
        ≡ page_texts listing latest detail found
  unfolding page_view texts
  page_view_lem s listing latest detail found = elim (Bool-cases listing.is_error) [
    | inl failed ↦ rw failed refl
    | inr no_error ↦ elim (Bool-cases (not listing.is_loading && is_empty (listed listing))) [
      | inl no_server ↦ rw (no_error, no_server) refl
      | inr some_server ↦
          let spec : page_texts listing latest detail found
              ≡ loaded_texts listing latest detail found =
            rw (no_error, some_server) refl in
          loaded_lem s listing latest detail found no_error some_server ∙ sym spec
    ]
  ]
