-- ===== src/Dashboard/Metric/Shown.antt =====
-- What the cards of the latest measurements tell.
use tarisya.Prelude.{String, Bool, true, false, Option, none, some, List, [], ◌∷◌, ◌++◌, ◌≡◌, refl}
use tarisya.Jsx.{texts, each}
use tarisya.Types.{MetricId, cpu, memory, disk, ServerMetric}
use tarisya.Double.{Double}
use tarisya.Metrics.{metric_config, metric_field, index, get_status}
use tarisya.Dashboard.Badges.{status_badge, status_meta}
use tarisya.Dashboard.Metric.{metric_card, metric_grid, metric_meter}

module _ {F : Type 0} ⦃d : Double F⦄ where
  -- The label of a metric, that of the status of its measurement, and the measurement.
  abbrev pub card_texts : ServerMetric F → MetricId → List String
  card_texts latest metric =
      let config = metric_config metric in
      let value = index latest.metrics (metric_field metric) in
      config.label
      ∷ (status_meta (get_status value (d.nat config.warn_at) (d.nat config.critical_at))).label
      ∷ d.to_fixed 1 value
      ∷ "%"
      ∷ []

  abbrev pub grid_texts : Option (ServerMetric F) → Bool → List String
  grid_texts (some latest) false =
      card_texts latest cpu ++ card_texts latest memory ++ card_texts latest disk
  grid_texts latest is_loading = []

  -- Once a measurement is loaded, the grid shows, for the processor, the memory and the disk in this
  -- order, the label, the status and the measurement; before that, no text.
  pub metric_grid_lem :
      (A : Type 0) (theme : String) (latest : Option (ServerMetric F)) (is_loading : Bool)
      → texts {A = A} (metric_grid theme latest is_loading) ≡ grid_texts latest is_loading
  unfolding metric_grid metric_card metric_meter status_badge texts each
  metric_grid_lem A theme none true = refl
  metric_grid_lem A theme none false = refl
  metric_grid_lem A theme (some latest) true = refl
  metric_grid_lem A theme (some latest) false = refl
