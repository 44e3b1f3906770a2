-- ===== src/Dashboard/Metric.antt =====
-- metric-card.tsx, metric-meter.tsx and metric-grid.tsx, at the theme that `useTheme` resolves.
pub mod Meter
pub mod Shown
use tarisya.Prelude.{String, Bool, true, false, Option, none, some, List, [], ◌∷◌, ◌<>◌, map}
use tarisya.Jsx.{Attr, str, obj, class, Node, Nodes, text, tag, component, end, ◌▸◌, each}
use tarisya.Types.{MetricId, cpu, memory, disk, ServerMetric}
use tarisya.Double.{Double}
use tarisya.Metrics.{
  MetricConfig, Status, status_color, get_status, metric_config, metric_field, index,
  use_metric_color,
}
use tarisya.Dashboard.Badges.{status_badge}

abbrev pub metric_order : List MetricId
metric_order = cpu ∷ memory ∷ disk ∷ []

-- The key of a metric among its siblings is its id.
abbrev pub metric_key : MetricId → String
metric_key cpu = "cpu"
metric_key memory = "memory"
metric_key disk = "disk"

-- `Math.min(100, Math.max(0, value))`
unfoldable pub meter_width : {F : Type 0} ⦃d : Double F⦄ → F → F
meter_width ⦃d⦄ value = d.min (d.nat 100) (d.max (d.nat 0) value)

-- While there is no value to show
abbrev skeleton_card : {A : Type 0} → Node A
skeleton_card = tag "Card" [] (
    tag "CardHeader" (class "flex-row items-center justify-between gap-2 pb-2" ∷ []) (
      tag "Skeleton" (class "h-4 w-24" ∷ []) end
      ▸ tag "Skeleton" (class "size-4 rounded" ∷ []) end
      ▸ end)
    ▸ tag "CardContent" (class "space-y-3" ∷ []) (
        tag "Skeleton" (class "h-8 w-20" ∷ []) end
        ▸ tag "Skeleton" (class "h-1.5 w-full rounded-full" ∷ []) end
        ▸ end)
    ▸ end)

abbrev latest_value : {F : Type 0} → Option (ServerMetric F) → MetricId → Option F
latest_value none metric = none
latest_value (some latest) metric = some (index latest.metrics (metric_field metric))

module _ {A F : Type 0} ⦃d : Double F⦄ where
  unfoldable pub metric_meter : F → Status → Node A
  unfolding meter_width
  metric_meter value status =
      let color = status_color status in
      tag "div"
        (class "h-1.5 w-full overflow-hidden rounded-full"
          ∷ obj "style" (("backgroundColor", color <> "26") ∷ [])
          ∷ [])
        (tag "div"
            (class "h-full rounded-full transition-[width] duration-500 ease-out"
              ∷ obj "style" (
                  ("width", d.to_string (meter_width value) <> "%")
                  ∷ ("backgroundColor", color)
                  ∷ [])
              ∷ [])
            end
          ▸ end)

  abbrev value_card : String → MetricConfig → F → Node A
  value_card theme config value =
      let status = get_status value (d.nat config.warn_at) (d.nat config.critical_at) in
      tag "Card" [] (
        tag "CardHeader" (class "flex-row items-center justify-between gap-2 pb-2" ∷ []) (
          tag "div" (class "flex items-center gap-2 text-sm font-medium text-muted-foreground" ∷ [])
            (tag config.icon
                (class "size-4" ∷ obj "style" (("color", use_metric_color theme config) ∷ []) ∷ [])
                end
              ▸ text config.label
              ▸ end)
          ▸ status_badge status
          ▸ end)
        ▸ tag "CardContent" (class "space-y-3" ∷ []) (
            tag "p" (class "text-3xl font-semibold tabular-nums" ∷ [])
              (text (d.to_fixed 1 value) ▸ text "%" ▸ end)
            ▸ component "MetricMeter" none (metric_meter value status)
            ▸ end)
        ▸ end)

  -- `value` is null where it is `none`
  unfoldable pub metric_card : String → MetricConfig → Option F → Bool → Node A
  metric_card theme config value true = skeleton_card
  metric_card theme config none false = skeleton_card
  metric_card theme config (some value) false = value_card theme config value

  unfoldable pub metric_grid : String → Option (ServerMetric F) → Bool → Node A
  metric_grid theme latest is_loading =
      tag "div" (class "grid gap-4 md:grid-cols-2 xl:grid-cols-3" ∷ []) (
        each
          (λ metric.
            component "MetricCard" (some (metric_key metric))
              (metric_card theme (metric_config metric) (latest_value latest metric) is_loading))
          metric_order)
