-- ===== src/Dashboard/History.antt =====
-- metric-history-chart.tsx and metric-history-section.tsx, at the theme that `useTheme` resolves.
-- An element of recharts is a `tag`; the points of its data are pairs of a time and a text.
pub mod Shown
use tarisya.Prelude.{
  String, Bool, true, false, ◌||◌, Option, none, some, List, [], ◌∷◌, ◌<>◌, map, last?,
  if◌then◌else◌,
}
use tarisya.Jsx.{str, num, flag, obj, list, class, Node, null, text, tag, component, end, ◌▸◌, each}
use tarisya.Types.{
  MetricId, cpu, memory, disk, ServerMetricValues, MetricSeriesPoint, MetricStat,
  MetricsRangeStatistics,
}
use tarisya.Double.{Double}
use tarisya.Metrics.{MetricConfig, metric_config, use_metric_color, use_metric_series}
use tarisya.Dashboard.Metric.{metric_order, metric_key}

abbrev axis : List (String × String)
axis = ("stroke", "var(--border)") ∷ []

abbrev tick : List (String × String)
tick = ("fontSize", "11") ∷ ("fill", "var(--muted-foreground)") ∷ []

abbrev pub is_empty {ℓ} : {X : Type ℓ} → List X → Bool
is_empty [] = true
is_empty (x ∷ xs) = false

-- `statistics?.[metric]`
abbrev pub stat_of :
    {F : Type 0} → Option (MetricsRangeStatistics F) → MetricId → Option (MetricStat F)
stat_of none metric = none
stat_of (some s) cpu = some s.cpu
stat_of (some s) memory = some s.memory
stat_of (some s) disk = some s.disk

module _ {A F : Type 0} ⦃d : Double F⦄ where
  -- Where `active` or the payload is missing, nothing is shown; a point is its value and its
  -- `payload`.
  unfoldable pub chart_tooltip : Bool → List (F × MetricSeriesPoint F) → Node A
  chart_tooltip false payload = null
  chart_tooltip true [] = null
  chart_tooltip true ((value, point) ∷ more) =
      tag "div" (class "rounded-md border bg-popover px-3 py-2 text-xs shadow-sm" ∷ []) (
        tag "p" (class "font-medium text-popover-foreground" ∷ [])
          (text (d.to_fixed 1 value) ▸ text "%" ▸ end)
        ▸ tag "p" (class "text-muted-foreground" ∷ []) (text point.time ▸ end)
        ▸ end)

  abbrev pub stat_view : Option (MetricStat F) → Node A
  stat_view none = null
  stat_view (some stat) = tag "span" (class "tabular-nums" ∷ []) (
      text "avg "
      ▸ text (d.to_fixed 1 stat.average)
      ▸ text "% · peak "
      ▸ text (d.to_fixed 1 stat.peak)
      ▸ text "%"
      ▸ end)

  abbrev pub latest_view : Option (MetricSeriesPoint F) → Node A
  latest_view none = null
  latest_view (some point) =
      tag "span" (class "text-sm font-semibold tabular-nums text-foreground" ∷ [])
        (text (d.to_fixed 1 point.value) ▸ text "%" ▸ end)

  abbrev plot : String → String → List (MetricSeriesPoint F) → Node A
  plot color gradient_id points =
      tag "ResponsiveContainer" (str "width" "100%" ∷ num "height" 192 ∷ []) (
        tag "AreaChart"
          (obj "data" (map (λ p. (p.time, d.to_string p.value)) points)
            ∷ obj "margin" (("top", "8") ∷ ("right", "8") ∷ ("bottom", "0") ∷ ("left", "0") ∷ [])
            ∷ [])
          (tag "defs" [] (
              tag "linearGradient"
                (str "id" gradient_id
                  ∷ str "x1" "0"
                  ∷ str "y1" "0"
                  ∷ str "x2" "0"
                  ∷ str "y2" "1"
                  ∷ [])
                (tag "stop"
                    (str "offset" "0%" ∷ str "stopColor" color ∷ str "stopOpacity" "0.12" ∷ []) end
                  ▸ tag "stop"
                      (str "offset" "100%" ∷ str "stopColor" color ∷ str "stopOpacity" "0" ∷ []) end
                  ▸ end)
              ▸ end)
            ▸ tag "CartesianGrid"
                (flag "vertical" false
                  ∷ str "stroke" "var(--border)"
                  ∷ str "strokeDasharray" "0"
                  ∷ [])
                end
            ▸ tag "XAxis"
                (str "dataKey" "time"
                  ∷ obj "tick" tick
                  ∷ flag "tickLine" false
                  ∷ obj "axisLine" axis
                  ∷ num "minTickGap" 40
                  ∷ [])
                end
            ▸ tag "YAxis"
                (list "domain" (0 ∷ 100 ∷ [])
                  ∷ list "ticks" (0 ∷ 25 ∷ 50 ∷ 75 ∷ 100 ∷ [])
                  ∷ obj "tick" tick
                  ∷ flag "tickLine" false
                  ∷ flag "axisLine" false
                  ∷ num "width" 32
                  ∷ [])
                end
            ▸ tag "Tooltip"
                (str "content" "ChartTooltip"
                  ∷ obj "cursor" (("stroke", "var(--border)") ∷ ("strokeWidth", "1") ∷ [])
                  ∷ [])
                end
            ▸ tag "Area"
                (str "type" "monotone"
                  ∷ str "dataKey" "value"
                  ∷ str "stroke" color
                  ∷ num "strokeWidth" 2
                  ∷ str "fill" ("url(#" <> gradient_id <> ")")
                  ∷ flag "isAnimationActive" false
                  ∷ [])
                end
            ▸ end)
        ▸ end)

  unfoldable pub metric_history_chart :
      String → MetricConfig → List (MetricSeriesPoint F) → Bool → Option (MetricStat F) → Node A
  metric_history_chart theme config points is_loading stat =
      let color = use_metric_color theme config in
      tag "Card" [] (
        tag "CardHeader" (class "flex-row items-center justify-between gap-2" ∷ []) (
          tag "CardTitle" (class "flex items-center gap-2 text-sm font-medium" ∷ []) (
            tag config.icon (class "size-4" ∷ obj "style" (("color", color) ∷ []) ∷ []) end
            ▸ text config.label
            ▸ end)
          ▸ tag "div" (class "flex items-center gap-3 text-xs text-muted-foreground" ∷ [])
              (stat_view stat ▸ latest_view (last? points) ▸ end)
          ▸ end)
        ▸ tag "CardContent" [] (
            (if is_loading || is_empty points
              then tag "Skeleton" (class "h-48 w-full" ∷ []) end
              else plot color ("history-fill-" <> metric_key config.id) points)
            ▸ end)
        ▸ end)

  -- `MetricHistoryCell`; `format_time` is `formatRangeTime`
  unfoldable pub metric_history_cell :
      (String → String)
      → String
      → MetricId
      → List (String × ServerMetricValues F)
      → Option (MetricsRangeStatistics F)
      → Bool
      → Node A
  metric_history_cell format_time theme metric history statistics is_loading =
      component "MetricHistoryChart" none (
        metric_history_chart theme (metric_config metric)
          (use_metric_series history metric format_time) is_loading (stat_of statistics metric))

  unfoldable pub metric_history_section :
      (String → String)
      → String
      → List (String × ServerMetricValues F)
      → Option (MetricsRangeStatistics F)
      → Bool
      → Node A
  metric_history_section format_time theme history statistics is_loading =
      tag "div" (class "grid gap-4 xl:grid-cols-3" ∷ []) (
        each
          (λ metric.
            component "MetricHistoryCell" (some (metric_key metric))
              (metric_history_cell format_time theme metric history statistics is_loading))
          metric_order)
