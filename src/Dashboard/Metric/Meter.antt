-- ===== src/Dashboard/Metric/Meter.antt =====
-- The meter stays inside its track, and shows the value that stands beside it.
use tarisya.Prelude.{arith}
use tarisya.Double.{Double, ◌≽◌, IsOrdered}
use tarisya.Dashboard.Metric.{meter_width}

module _ {F : Type 0} ⦃d : Double F⦄ (laws : IsOrdered F) where
  open laws use {nat_ge, ge_trans, max_bounds, max_least, min_bounds, min_greatest}

  -- The width of the meter for a number is from 0 to 100, and for a number from 0 to 100 it is that
  -- number.
  pub meter_width_bounds :
      (value : F)
      → value ≽ value
      → (meter_width value ≽ d.nat 0)
        × (d.nat 100 ≽ meter_width value)
        × (value ≽ d.nat 0
            → d.nat 100 ≽ value
            → (meter_width value ≽ value) × (value ≽ meter_width value))
  unfolding meter_width
  meter_width_bounds value number =
      let zero_ok = nat_ge 0 0 (omega arith) in
      let hundred_ok = nat_ge 100 100 (omega arith) in
      let top = d.max (d.nat 0) value in
      let (above, covers) = max_bounds (d.nat 0) value zero_ok number in
      let top_ok = max_least (d.nat 0) value top above covers in
      let (below, under) = min_bounds (d.nat 100) top hundred_ok top_ok in
      (
        min_greatest (d.nat 100) top (d.nat 0) (nat_ge 100 0 (omega arith)) above,
        below,
        λ low high. (
          min_greatest (d.nat 100) top value high covers,
          ge_trans value top _ (max_least (d.nat 0) value value low number) under,
        ),
      )
