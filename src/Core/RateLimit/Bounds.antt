-- ===== src/Core/RateLimit/Bounds.antt =====
-- How many requests of a client pass in a span of time.
use tarisya.Prelude.{
  ℕ, ◌+◌, ◌-◌, ◌*◌, ◌≤◌, String, Bool, true, ◌&&◌, List, [], ◌∷◌, arith, ltb, str_eq, if◌then◌else◌,
  Bool-cases, inl, inr, All,
}
use tarisya.Core.RateLimit.{Floats, ClientRateLimiter, spent, allow}
use tarisya.Core.RateLimit.Rounding.{token, IsRounding, IsRefilling}
use tarisya.Core.RateLimit.Steps.{
  Account, balance, charged, opened, IsLimiter, IsLimiter-later, allow-IsLimiter,
}
use tarisya.Core.RateLimit.Laws.{Call, Ordered, decisions}

-- How many of the calls of a client are allowed, by the decisions, and how many it makes.
unfoldable pub tally : String → List Call → List Bool → ℕ
tally key [] decided = 0
tally key (call ∷ calls) [] = 0
tally key ((now, client) ∷ calls) (allowed ∷ decided) =
    (if allowed && str_eq client key then 1 else 0) + tally key calls decided

unfoldable pub asked : String → List Call → ℕ
asked key [] = 0
asked key ((now, client) ∷ calls) = (if str_eq client key then 1 else 0) + asked key calls

module _ {T : Type 0} ⦃f : Floats T⦄ where
  unfoldable pub after : ClientRateLimiter T → List Call → ClientRateLimiter T
  after l [] = l
  after l ((now, key) ∷ calls) = after (allow now key l).0 calls

  abbrev pub passed : String → ClientRateLimiter T → List Call → ℕ
  passed key l calls = tally key calls (decisions l calls)

abbrev pub NotAfter : ℕ → List Call → Type 0
NotAfter to = All (λ call. call.0 ≤ to)

module _ {T : Type 0} ⦃f : Floats T⦄ (per_minute burst slack : ℕ)
    (laws : IsRounding T per_minute burst slack) where
  open laws use {
    value, value-of_nat, at_least_one_lem, value-less_one, refill_upper, refill_capped,
    refill_grows,
  }

  abbrev pub IsCapped : ℕ → (String → Account T) → Type 0
  IsCapped now accounts =
      (client : String)
      → (value (accounts client).tokens ≤ burst * token) × ((accounts client).at ≤ now)

  balance_bounds :
      (a : Account T) (now : ℕ)
      → value a.tokens ≤ burst * token
      → (value (balance per_minute burst a now) ≤ burst * token)
        × (value (balance per_minute burst a now)
            ≤ value a.tokens + (now - a.at) * per_minute + slack)
  balance_bounds a now le = elim (Bool-cases (ltb 0 (now - a.at))) [
    | inl later ↦ rw later (refill_capped a.tokens (now - a.at), refill_upper a.tokens (now - a.at))
    | inr same ↦ rw same (le, omega arith)
  ]

  -- What a call spends and what it leaves.
  spent_bounds :
      (t : T)
      → (value (spent t) ≤ value t)
        × (token * (if f.at_least_one t && true then 1 else 0) + value (spent t) ≤ value t)
  spent_bounds t = elim (Bool-cases (f.at_least_one t)) [
    | inr short ↦ rw short (omega arith, omega arith)
    | inl enough ↦
        let has : token ≤ value t = ground (arith, at_least_one_lem t) in
        let left = value-less_one t has in rw enough (omega (arith, left), omega (arith, left, has))
  ]

  pub charged-IsCapped :
      (before now : ℕ) (key : String) (accounts : String → Account T)
      → before ≤ now
      → IsCapped before accounts
      → IsCapped now (charged per_minute burst now key accounts)
  charged-IsCapped before now key accounts le capped client =
      elim (Bool-cases (str_eq key client)) [
        | inr other ↦ rw other ((capped client).0, omega (arith, (capped client).1))
        | inl own ↦
            let (most, _) = balance_bounds (accounts key) now (capped key).0 in
            let (less, _) = spent_bounds (balance per_minute burst (accounts key) now) in
            rw own (omega (arith, most, less), omega arith)
      ]

  module _ (enough : IsRefilling per_minute burst slack) where
    abbrev pub charged_by : (String → Account T) → List Call → String → Account T
    charged_by accounts [] = accounts
    charged_by accounts ((now, key) ∷ calls) =
        charged_by (charged per_minute burst now key accounts) calls

    pub after-IsLimiter :
        (calls : List Call) (now to : ℕ) (l : ClientRateLimiter T) (accounts : String → Account T)
        → IsLimiter per_minute burst slack laws now l accounts
        → IsCapped now accounts
        → Ordered now calls
        → NotAfter to calls
        → now ≤ to
        → IsLimiter per_minute burst slack laws to (after l calls) (charged_by accounts calls)
          × IsCapped to (charged_by accounts calls)
    unfolding after
    after-IsLimiter [] now to l accounts is capped ordered ends le = (
      IsLimiter-later per_minute burst slack laws now to l accounts le is,
      λ client. ((capped client).0, omega (arith, (capped client).1)),
    )
    after-IsLimiter ((t, client) ∷ calls) now to l accounts is capped (later, ordered) (end, ends)
          le =
        let here = IsLimiter-later per_minute burst slack laws now t l accounts later is in
        let next =
          (allow-IsLimiter per_minute burst slack laws enough t client l accounts here).0 in
        after-IsLimiter calls t to (allow t client l).0 _ next
          (charged-IsCapped now t client accounts later capped) ordered ends end

    pub opened-IsCapped : IsCapped 0 (opened per_minute burst)
    opened-IsCapped client = (omega (arith, value-of_nat), omega arith)
