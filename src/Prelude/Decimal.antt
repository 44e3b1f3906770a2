-- ===== src/Prelude/Decimal.antt =====
-- The decimal text of a whole number, as a template literal prints it below 10 ^ 21.
use Prim.Native.Nat.{ℕ, zero, suc, ◌/◌, ◌%◌, ◌<◌}
use Prim.Native.String.{String}
use mathlib.Core.Path.{◌≡◌, refl, ap}
use tarisya.Prelude.Tests.{ltb, ◌==◌, ◌<>◌, if◌then◌else◌, Bool-cases}
use mathlib.Core.Logic.{inl, inr}
use native.Mathlib.Omega.{arith}

abbrev digit : ℕ → String
digit d =
    if d == 0
    then "0"
    else if d == 1
    then "1"
    else if d == 2
    then "2"
    else if d == 3
    then "3"
    else if d == 4
    then "4"
    else if d == 5
    then "5"
    else if d == 6
    then "6"
    else if d == 7
    then "7"
    else if d == 8
    then "8"
    else "9"

-- A number has fewer digits than its value plus one, so it serves as fuel for itself.
show_from : ℕ → ℕ → String
show_from zero n = ""
show_from (suc fuel) n =
    let front = show_from fuel (n / 10) in if ltb n 10 then digit n else front <> digit (n % 10)

unfoldable pub show : ℕ → String
unfolding show_from
show n = show_from (suc n) n

-- More fuel than the number gives the same text.
show_from-enough : (f g n : ℕ) → n < f → n < g → show_from f n ≡ show_from g n
unfolding show_from
show_from-enough zero g n p q = absurd (omega arith)
show_from-enough (suc f) zero n p q = absurd (omega arith)
show_from-enough (suc f) (suc g) n p q = elim (Bool-cases (ltb n 10)) [
  | inl small ↦ rw small refl
  | inr large ↦
      let smaller : (n / 10 < f) × (n / 10 < g) = (ground arith, ground arith) in
      let front = show_from-enough f g (n / 10) smaller.0 smaller.1 in
      rw large (ap (λ t. t <> digit (n % 10)) front)
]

-- The text of a number is that of its tenth with one more digit, and the digit alone below ten.
show_lem : (n : ℕ) → show n ≡ (if ltb n 10 then digit n else show (n / 10) <> digit (n % 10))
unfolding show show_from
show_lem n = elim (Bool-cases (ltb n 10)) [
  | inl small ↦ rw small refl
  | inr large ↦
      let smaller : n / 10 < n = ground arith in
      rw large (
        ap (λ t. t <> digit (n % 10))
          (show_from-enough n (suc (n / 10)) (n / 10) smaller (omega arith)))
]

show_examples : (show 0 ≡ "0") × (show 1_234_567_890 ≡ "1234567890")
unfolding show
show_examples = (refl, refl)
