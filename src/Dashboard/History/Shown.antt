-- ===== src/Dashboard/History/Shown.antt =====
-- What the history of a metric tells besides its plot.
use tarisya.Prelude.{
  String, Bool, ◌||◌, Option, none, some, List, [], ◌∷◌, ◌++◌, ◌≡◌, refl, last?, Bool-cases,
  append-nil, inl, inr,
}
use tarisya.Jsx.{texts}
use tarisya.Types.{MetricId, ServerMetricValues, MetricStat, MetricsRangeStatistics}
use tarisya.Double.{Double}
use tarisya.Metrics.{metric_config, metric_field, index, use_metric_series}
use tarisya.Dashboard.History.{
  stat_of, is_empty, stat_view, latest_view, metric_history_chart, metric_history_cell,
}

module _ {F : Type 0} ⦃d : Double F⦄ where
  -- The average and the peak, and the latest measurement, where there are such.
  abbrev pub stat_texts : Option (MetricStat F) → List String
  stat_texts none = []
  stat_texts (some stat) =
      "avg " ∷ d.to_fixed 1 stat.average ∷ "% · peak " ∷ d.to_fixed 1 stat.peak ∷ "%" ∷ []

  abbrev pub latest_texts : MetricId → Option (String × ServerMetricValues F) → List String
  latest_texts metric none = []
  latest_texts metric (some (time, values)) =
      d.to_fixed 1 (index values (metric_field metric)) ∷ "%" ∷ []

  stat_view-texts :
      (A : Type 0) (stat : Option (MetricStat F)) → texts (stat_view {A = A} stat) ≡ stat_texts stat
  unfolding texts
  stat_view-texts A none = refl
  stat_view-texts A (some stat) = refl

  latest_view-texts :
      (A : Type 0) (format_time : String → String) (metric : MetricId)
      (history : List (String × ServerMetricValues F))
      → texts (latest_view {A = A} (last? (use_metric_series history metric format_time)))
        ≡ latest_texts metric (last? history)
  unfolding texts use_metric_series
  latest_view-texts A format_time metric [] = refl
  latest_view-texts A format_time metric (snapshot ∷ []) = refl
  latest_view-texts A format_time metric (snapshot ∷ next ∷ history) =
      latest_view-texts A format_time metric (next ∷ history)

module _ {F : Type 0} ⦃d : Double F⦄ where
  -- Whatever is loading, the history of a metric shows its label, the average and the peak of the
  -- range if they are known, and the latest measurement of that metric if there is one.
  pub metric_history_cell_lem :
      (A : Type 0) (format_time : String → String) (theme : String) (metric : MetricId)
      (history : List (String × ServerMetricValues F))
      (statistics : Option (MetricsRangeStatistics F)) (is_loading : Bool)
      → texts {A = A} (metric_history_cell format_time theme metric history statistics is_loading)
        ≡ (metric_config metric).label ∷ stat_texts (stat_of statistics metric)
          ++ latest_texts metric (last? history)
  unfolding metric_history_cell metric_history_chart texts
  metric_history_cell_lem A format_time theme metric history statistics is_loading =
      let silent =
        Bool-cases (is_loading || is_empty (use_metric_series history metric format_time)) in
      let stat = stat_view-texts A (stat_of statistics metric) in
      let latest = latest_view-texts A format_time metric history in
      elim silent [
        | inl skeleton ↦ rw (skeleton, stat, latest) (simp append-nil)
        | inr plotted ↦ rw (plotted, stat, latest) (simp append-nil)
      ]
