-- ===== src/Core/RateLimit/Laws.antt =====
-- The decisions of the limiter over a sequence of calls.
use tarisya.Prelude.{ℕ, ◌≤◌, String, Bool, List, [], ◌∷◌, ◌≡◌, refl, ap, ◌∙◌, Bool-cases, inl, inr}
use mathlib.Core.Path.{ap₂}
use tarisya.Core.RateLimit.{Floats, ClientRateLimiter, decide, allow}
use tarisya.Core.RateLimit.Rounding.{IsRounding, IsRefilling}
use tarisya.Core.RateLimit.Steps.{
  Account, balance, charged, IsLimiter, IsLimiter-later, allow-IsLimiter,
}

-- A call: its time and its client.
abbrev pub Call : Type 0
Call = ℕ × String

-- The times do not fall, from a first one on.
abbrev pub Ordered : ℕ → List Call → Type 0
Ordered from [] = Unit
Ordered from ((now, key) ∷ calls) = (from ≤ now) × Ordered now calls

module _ {T : Type 0} ⦃f : Floats T⦄ where
  unfoldable pub decisions : ClientRateLimiter T → List Call → List Bool
  decisions l [] = []
  decisions l ((now, key) ∷ calls) =
      let (next, decision) = allow now key l in decision.allowed ∷ decisions next calls

  -- The limiter that the configuration describes: each client's account, full at the start, is
  -- charged for the calls that it can pay for.
  unfoldable pub described : ℕ → ℕ → (String → Account T) → List Call → List Bool
  described per_minute burst accounts [] = []
  described per_minute burst accounts ((now, key) ∷ calls) =
      f.at_least_one (balance per_minute burst (accounts key) now)
      ∷ described per_minute burst (charged per_minute burst now key accounts) calls

  pub decide_allowed : (per_minute : ℕ) (v : T) → (decide per_minute v).allowed ≡ f.at_least_one v
  unfolding decide
  decide_allowed per_minute v = elim (Bool-cases (f.at_least_one v)) [
    | inl enough ↦ rw enough refl
    | inr short ↦ rw short refl
  ]

  module _ (per_minute burst slack : ℕ) (laws : IsRounding T per_minute burst slack)
      (enough : IsRefilling per_minute burst slack) where
    pub decisions-described :
        (calls : List Call) (before : ℕ) (l : ClientRateLimiter T) (accounts : String → Account T)
        → IsLimiter per_minute burst slack laws before l accounts
        → Ordered before calls
        → decisions l calls ≡ described per_minute burst accounts calls
    unfolding decisions described
    decisions-described [] before l accounts is ordered = refl
    decisions-described ((now, key) ∷ calls) before l accounts is (le, ordered) =
        let here = IsLimiter-later per_minute burst slack laws before now l accounts le is in
        let (next, decided) =
          allow-IsLimiter per_minute burst slack laws enough now key l accounts here in
        ap₂ (λ allowed rest. allowed ∷ rest)
          (ap (λ d. d.allowed) decided ∙ decide_allowed per_minute _)
          (decisions-described calls now (allow now key l).0 _ next ordered)
