-- ===== src/Double.antt =====
-- The floating point numbers of the measurements, by what the console does with them: the whole
-- numbers, `>=`, `Math.max`, `Math.min`, `toFixed` and the conversion to a text.
use tarisya.Prelude.{
  ℕ, ◌≡◌, ◌⊎◌, Bool, true, false, String, Option, none, some, leb, ltb, show, arith, if◌then◌else◌,
  ◌<>◌, ◌≤◌,
}

pub record Double (F : Type 0) : Type 0 where
  pub nat : ℕ → F
  pub ge : F → F → Bool
  pub max : F → F → F
  pub min : F → F → F
  pub to_fixed : ℕ → F → String
  pub to_string : F → String

-- `a` is at least `b`.
infix 4 ◌≽◌
abbrev pub ◌≽◌ : {F : Type 0} ⦃d : Double F⦄ → F → F → Type 0
◌≽◌ ⦃d⦄ a b = d.ge a b ≡ true

-- The laws of IEEE 754 that the theorems need. NaN is the value that is not `>=` itself.
pub record IsOrdered (F : Type 0) ⦃d : Double F⦄ : Type 0 where
  pub nat_ge : (a b : ℕ) → b ≤ a → d.nat a ≽ d.nat b
  pub refl_of_ge : (a b : F) → a ≽ b → (a ≽ a) × (b ≽ b)
  pub ge_trans : (a b c : F) → a ≽ b → b ≽ c → a ≽ c
  pub ge_total : (a b : F) → a ≽ a → b ≽ b → (a ≽ b) ⊎ (b ≽ a)
  -- Of two numbers `Math.max` gives the least upper bound, and `Math.min` the greatest lower one.
  pub max_bounds : (a b : F) → a ≽ a → b ≽ b → (d.max a b ≽ a) × (d.max a b ≽ b)
  pub max_least : (a b c : F) → c ≽ a → c ≽ b → c ≽ d.max a b
  pub min_bounds : (a b : F) → a ≽ a → b ≽ b → (a ≽ d.min a b) × (b ≽ d.min a b)
  pub min_greatest : (a b c : F) → a ≽ c → b ≽ c → d.min a b ≽ c

-- The laws can be met: whole numbers, with `none` for NaN.
abbrev pub Percent : Type 0
Percent = Option ℕ

abbrev on_numbers : (ℕ → ℕ → ℕ) → Percent → Percent → Percent
on_numbers f (some a) (some b) = some (f a b)
on_numbers f _ _ = none

abbrev pub percent_ge : Percent → Percent → Bool
percent_ge (some a) (some b) = leb b a
percent_ge _ _ = false

abbrev percent_print : Percent → String
percent_print none = "NaN"
percent_print (some a) = show a

instance abbrev pub percent_double : Double Percent
percent_double = record {
  nat = some;
  ge = percent_ge;
  max = on_numbers λ a b. if ltb a b then b else a;
  min = on_numbers λ a b. if ltb b a then b else a;
  to_fixed = λ digits a. percent_print a <> ".0";
  to_string = percent_print;
}

pub Percent-IsOrdered : IsOrdered Percent
Percent-IsOrdered = ground arith
