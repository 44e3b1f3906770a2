-- ===== src/Core/RateLimit/Coarse.antt =====
-- An arithmetic that rounds.
use native.Mathlib.Nat.{lt-div-mul-add, div-mul-le_self}
use tarisya.Prelude.{ℕ, ◌+◌, ◌-◌, ◌*◌, ◌<◌, ◌/◌, refl, arith}
use tarisya.Core.RateLimit.{Floats}
use tarisya.Core.RateLimit.Rounding.{token, exact, IsRounding, le-ceil_div}

-- What time adds is rounded down to a multiple of seven parts of a token.
abbrev pub coarse : Floats ℕ
coarse = record exact { gained = λ elapsed per_minute. elapsed * per_minute / 7 * 7 }

pub coarse-IsRounding :
    (per_minute burst : ℕ) → 0 < per_minute → IsRounding ℕ ⦃f = coarse⦄ per_minute burst 6
coarse-IsRounding per_minute burst positive = record {
  value = λ t. t;
  value-of_nat = refl;
  at_least_one_lem = λ t. refl;
  value-less_one = λ t has. refl;
  refill_upper = λ t elapsed. let below = div-mul-le_self (elapsed * per_minute) 7 in ground arith;
  refill_capped = λ t elapsed. ground arith;
  refill_grows = λ t elapsed le. ground arith;
  refill_reaches = λ t elapsed n le reach.
      let above : elapsed * per_minute < elapsed * per_minute / 7 * 7 + 7 =
        lt-div-mul-add (omega arith) in
      ground arith;
  refill_full = λ t elapsed full. ground arith;
  until_one =
      λ t short. let brings = le-ceil_div (token - t) per_minute positive in omega (arith, brings);
}
