-- ===== src/Core/RateLimit/Rounding.antt =====
-- What the arithmetic of the limiter gives, up to rounding. The value of a number of tokens is the
-- number of whole parts of a token that it has: a nanosecond adds as many parts as requests per
-- minute are allowed, so 60 * 10 ^ 9 of them are a token. Rounding can shift a result by `slack`
-- parts; for float64 and a burst of less than ten thousand that is one part.
use native.Mathlib.Nat.{lt-div-mul-add}
use tarisya.Prelude.{◌<◌, ℕ, ◌+◌, ◌-◌, ◌*◌, ◌≤◌, false, ◌≡◌, refl, arith, leb, if◌then◌else◌}
use tarisya.Core.RateLimit.{Floats, refill, ceil_div, client_ttl}

abbrev pub token : ℕ
token = 60_000_000_000

-- The settings are those of one limiter. The subtraction is exact, and a sum is rounded to the
-- closest number, so it is not below what is added to, and not below a number of its own that the
-- exact sum reaches.
pub record IsRounding (T : Type 0) ⦃f : Floats T⦄ (per_minute burst slack : ℕ) : Type 0 where
  pub value : T → ℕ
  pub value-of_nat : value (f.of_nat burst) ≡ burst * token
  pub at_least_one_lem : (t : T) → f.at_least_one t ≡ leb token (value t)
  pub value-less_one : (t : T) → token ≤ value t → value (f.less_one t) ≡ value t - token
  pub refill_upper :
      (t : T) (elapsed : ℕ)
      → value (refill per_minute burst t elapsed) ≤ value t + elapsed * per_minute + slack
  pub refill_capped :
      (t : T) (elapsed : ℕ) → value (refill per_minute burst t elapsed) ≤ burst * token
  pub refill_grows :
      (t : T) (elapsed : ℕ)
      → value t ≤ burst * token
      → value t ≤ value (refill per_minute burst t elapsed)
  pub refill_reaches :
      (t : T) (elapsed n : ℕ)
      → n ≤ burst * token
      → n + slack ≤ value t + elapsed * per_minute
      → n ≤ value (refill per_minute burst t elapsed)
  pub refill_full :
      (t : T) (elapsed : ℕ)
      → burst * token ≤ value (refill per_minute burst t elapsed)
      → refill per_minute burst t elapsed ≡ f.of_nat burst
  pub until_one :
      (t : T)
      → f.at_least_one t ≡ false
      → token ≤ value t + f.nanoseconds_until_one per_minute t * per_minute + slack

-- A bucket that is idle for ten minutes is full by then.
abbrev pub IsRefilling : ℕ → ℕ → ℕ → Type 0
IsRefilling per_minute burst slack = burst * token + slack ≤ client_ttl * per_minute

pub le-ceil_div : (a b : ℕ) → 0 < b → a ≤ ceil_div a b * b
le-ceil_div a b pos =
    let bound : a + b - 1 < ceil_div a b * b + b = lt-div-mul-add pos in omega arith

-- The laws can be met: parts of a token that are added up exactly.
abbrev min : ℕ → ℕ → ℕ
min a b = if leb a b then a else b

instance abbrev pub exact : Floats ℕ
exact = record {
  of_nat = λ n. n * token;
  gained = λ elapsed per_minute. elapsed * per_minute;
  add = λ a b. a + b;
  lesser = min;
  at_least_one = λ t. leb token t;
  less_one = λ t. t - token;
  nanoseconds_until_one = λ per_minute t. ceil_div (token - t) per_minute;
}

pub exact-IsRounding : (per_minute burst : ℕ) → 0 < per_minute → IsRounding ℕ per_minute burst 0
exact-IsRounding per_minute burst positive = record {
  value = λ t. t;
  value-of_nat = refl;
  at_least_one_lem = λ t. refl;
  value-less_one = λ t has. refl;
  refill_upper = λ t elapsed. ground arith;
  refill_capped = λ t elapsed. ground arith;
  refill_grows = λ t elapsed le. ground arith;
  refill_reaches = λ t elapsed n le reach. ground arith;
  refill_full = λ t elapsed full. ground arith;
  until_one =
      λ t short. let brings = le-ceil_div (token - t) per_minute positive in omega (arith, brings);
}
