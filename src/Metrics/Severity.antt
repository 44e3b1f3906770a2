-- ===== src/Metrics/Severity.antt =====
-- How the status of a measurement depends on its value.
use tarisya.Prelude.{ℕ, ◌≤◌, ◌≡◌, ◌↔◌, arith}
use tarisya.Types.{MetricId, cpu, memory, disk}
use tarisya.Double.{Double, ◌≽◌, IsOrdered}
use tarisya.Metrics.{Status, good, warning, critical, get_status, metric_config}

abbrev pub severity : Status → ℕ
severity good = 0
severity warning = 1
severity critical = 2

module _ {F : Type 0} ⦃d : Double F⦄ (laws : IsOrdered F) where
  open laws use {nat_ge, refl_of_ge, ge_trans}

  -- At any two thresholds, a larger measurement never has a milder status.
  pub get_status_mono :
      (v w warn_at critical_at : F)
      → w ≽ v
      → severity (get_status v warn_at critical_at) ≤ severity (get_status w warn_at critical_at)
  unfolding get_status
  get_status_mono v w warn_at critical_at h =
      ground (arith, ge_trans w v warn_at h, ge_trans w v critical_at h)

  -- The status of a metric by its configured thresholds: critical from the critical one on, and at
  -- least a warning exactly from the warning one on, which is the lower one.
  pub configured_status :
      (metric : MetricId) (v : F)
      → let c = metric_config metric in
        let status = get_status v (d.nat c.warn_at) (d.nat c.critical_at) in
        ((status ≡ critical) ↔ (v ≽ d.nat c.critical_at))
        × ((1 ≤ severity status) ↔ (v ≽ d.nat c.warn_at))
  unfolding get_status metric_config
  configured_status cpu v = ground (arith, ge_trans v (d.nat 90) (d.nat 70), nat_ge 90 70)
  configured_status memory v = ground (arith, ge_trans v (d.nat 90) (d.nat 75), nat_ge 90 75)
  configured_status disk v = ground (arith, ge_trans v (d.nat 95) (d.nat 80), nat_ge 95 80)

  -- A measurement that is not a number has the status "good", whatever the thresholds.
  pub get_status_nan :
      (v warn_at critical_at : F) → ¬ (v ≽ v) → get_status v warn_at critical_at ≡ good
  unfolding get_status
  get_status_nan v warn_at critical_at nan =
      ground (arith, refl_of_ge v warn_at, refl_of_ge v critical_at)
