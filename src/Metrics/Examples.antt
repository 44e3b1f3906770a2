-- ===== src/Metrics/Examples.antt =====
-- Runs of the status.
use tarisya.Prelude.{◌≡◌, refl, some}
use tarisya.Double.{Percent, percent_double}
use tarisya.Metrics.{critical, warning, get_status}

runs :
    (get_status {F = Percent} (some 85) (some 80) (some 95) ≡ warning)
    × (get_status {F = Percent} (some 95) (some 80) (some 95) ≡ critical)
unfolding get_status
runs = (refl, refl)
