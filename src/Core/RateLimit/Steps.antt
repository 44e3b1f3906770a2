-- ===== src/Core/RateLimit/Steps.antt =====
-- The account of a client, and one call of the limiter. The limiter that the configuration describes
-- has an account for each client, which is never forgotten; its arithmetic is the limiter's.
use native.Mathlib.Nat.{mul-le-mul_right}
use tarisya.Prelude.{
  ℕ, ◌-◌, ◌*◌, ◌≤◌, String, true, false, Option, none, some, ◌≡◌, refl, sym, ap, ◌∙◌, arith, ltb,
  str_eq, if◌then◌else◌, Bool-cases, inl, inr,
}
use tarisya.Core.RateLimit.{
  Floats, client_ttl, TokenBucket, ClientRateLimiter, is_stale, cleanup_due, without_stale, cleanup,
  refill, refilled, spent, decide, allow, new_client_rate_limiter,
}
use tarisya.Core.RateLimit.Rounding.{token, IsRounding, IsRefilling}

-- The tokens at the time of the last call.
pub record Account (T : Type 0) : Type 0 where
  pub tokens : T
  pub at : ℕ

module _ {T : Type 0} ⦃f : Floats T⦄ (per_minute burst : ℕ) where
  abbrev pub balance : Account T → ℕ → T
  balance a now =
      let elapsed = now - a.at in
      if ltb 0 elapsed then refill per_minute burst a.tokens elapsed else a.tokens

  abbrev pub charge : Account T → ℕ → Account T
  charge a now = record { tokens = spent (balance a now); at = now }

  abbrev pub charged : ℕ → String → (String → Account T) → String → Account T
  charged now key accounts client =
      if str_eq key client then charge (accounts key) now else accounts client

  abbrev pub opened : String → Account T
  opened client = record { tokens = f.of_nat burst; at = 0 }

  -- An entry of the limiter stands for an account: it holds the same, or there is none and the
  -- account is full from now on.
  abbrev pub StandsFor : ℕ → Option (TokenBucket T) → Account T → Type 0
  StandsFor now none a = (t : ℕ) → now ≤ t → balance a t ≡ f.of_nat burst
  StandsFor now (some b) a =
      (b.tokens ≡ a.tokens) × (b.updated ≡ a.at) × (b.last_seen ≡ b.updated) × (b.updated ≤ now)

  StandsFor-later :
      (s t : ℕ) (e : Option (TokenBucket T)) (a : Account T)
      → s ≤ t
      → StandsFor s e a
      → StandsFor t e a
  StandsFor-later s t none a le h = λ u later. h u (omega arith)
  StandsFor-later s t (some b) a le (x, y, z, w) = (x, y, z, omega arith)

  -- What the limiter finds for a client is the balance of the account.
  refilled_is :
      (now : ℕ) (e : Option (TokenBucket T)) (a : Account T) (l : ClientRateLimiter T)
      (key : String)
      → l.clients key ≡ e
      → l.burst ≡ burst
      → l.per_minute ≡ per_minute
      → StandsFor now e a
      → refilled now key l ≡ record { tokens = balance a now; updated = now; last_seen = now }
  unfolding refilled
  refilled_is now none a l key found size rate full =
      let same : ltb 0 (now - now) ≡ false = ground arith in
      let filled : f.of_nat l.burst ≡ balance a now =
        ap f.of_nat size ∙ sym (full now (omega arith)) in
      rw (found, same) (λ i. record { tokens = filled i; updated = now; last_seen = now })
  refilled_is now (some b) a l key found size rate (x, y, z, w) =
      elim (Bool-cases (ltb 0 (now - b.updated))) [
        | inl later ↦
            let later' : ltb 0 (now - a.at) ≡ true = ap (λ u. ltb 0 (now - u)) (sym y) ∙ later in
            rw (found, later, later', size, rate)
              (λ i. record {
                tokens = refill per_minute burst (x i) (now - y i);
                updated = now;
                last_seen = now;
              })
        | inr same ↦
            let same' : ltb 0 (now - a.at) ≡ false = ap (λ u. ltb 0 (now - u)) (sym y) ∙ same in
            let at_now : b.updated ≡ now = ground arith in
            rw (found, same, same')
              (λ i. record { tokens = x i; updated = at_now i; last_seen = now })
      ]

  module _ (slack : ℕ) (laws : IsRounding T per_minute burst slack) where
    open laws use {value, value-of_nat, refill_grows, refill_reaches, refill_full}

    -- A bucket that is full stays so.
    balance-opened : (client : String) (t : ℕ) → balance (opened client) t ≡ f.of_nat burst
    balance-opened client t = elim (Bool-cases (ltb 0 (t - 0))) [
      | inr now ↦ rw now refl
      | inl later ↦
          let grows = refill_grows (f.of_nat burst) (t - 0) (omega (arith, value-of_nat)) in
          rw later (refill_full (f.of_nat burst) (t - 0) (omega (arith, grows, value-of_nat)))
    ]

    -- An entry that is removed stands for an account that is full by then.
    StandsFor-without_stale :
        IsRefilling per_minute burst slack
        → (now : ℕ) (e : Option (TokenBucket T)) (a : Account T) → StandsFor now e a
        → StandsFor now (without_stale now e) a
    StandsFor-without_stale enough now none a h = h
    StandsFor-without_stale enough now (some b) a (x, y, z, w) =
        elim (Bool-cases (is_stale now b)) [
          | inr kept ↦ rw kept (x, y, z, w)
          | inl stale ↦ rw stale λ t later.
              let idle : client_ttl ≤ t - a.at = ground arith in
              let more = mul-le-mul_right per_minute idle in
              let is_later : ltb 0 (t - a.at) ≡ true = ground arith in
              let reaches =
                refill_reaches a.tokens (t - a.at) (burst * token) (omega arith)
                  (omega (arith, more)) in
              rw is_later (refill_full a.tokens (t - a.at) reaches)
        ]

    -- A limiter of these settings, which stands for some accounts.
    pub record IsLimiter (now : ℕ) (l : ClientRateLimiter T) (accounts : String → Account T)
        : Type 0 where
      pub rate : l.per_minute ≡ per_minute
      pub size : l.burst ≡ burst
      pub entries : (client : String) → StandsFor now (l.clients client) (accounts client)

    pub IsLimiter-later :
        (s t : ℕ) (l : ClientRateLimiter T) (accounts : String → Account T)
        → s ≤ t
        → IsLimiter s l accounts
        → IsLimiter t l accounts
    IsLimiter-later s t l accounts le h = record {
      rate = h.rate;
      size = h.size;
      entries =
          λ client. StandsFor-later s t (l.clients client) (accounts client) le (h.entries client);
    }

    pub new-IsLimiter : IsLimiter 0 (new_client_rate_limiter per_minute burst) opened
    unfolding new_client_rate_limiter
    new-IsLimiter = record {
      rate = refl;
      size = refl;
      entries = λ client t le. balance-opened client t;
    }

    cleanup-IsLimiter :
        IsRefilling per_minute burst slack
        → (now : ℕ) (l : ClientRateLimiter T) (accounts : String → Account T)
        → IsLimiter now l accounts
        → IsLimiter now (cleanup now l) accounts
    unfolding cleanup
    cleanup-IsLimiter enough now l accounts h =
        elim (Bool-cases (cleanup_due now l.last_cleanup_at)) [
          | inr recent ↦ rw recent h
          | inl due ↦ rw due (record {
            rate = h.rate;
            size = h.size;
            entries = λ client.
                StandsFor-without_stale enough now (l.clients client) (accounts client)
                  (h.entries client);
          })
        ]

    -- One call: it decides by the balance of the client's account, and charges it.
    pub allow-IsLimiter :
        IsRefilling per_minute burst slack
        → (now : ℕ) (key : String) (l : ClientRateLimiter T) (accounts : String → Account T)
        → IsLimiter now l accounts
        → IsLimiter now (allow now key l).0 (charged now key accounts)
          × ((allow now key l).1 ≡ decide per_minute (balance (accounts key) now))
    unfolding allow
    allow-IsLimiter enough now key l accounts h =
        let swept = cleanup now l in
        let clean = cleanup-IsLimiter enough now l accounts h in
        let found =
          refilled_is now (swept.clients key) (accounts key) swept key refl clean.size clean.rate
            (clean.entries key) in
        (
          rw found (record {
            rate = clean.rate;
            size = clean.size;
            entries = λ client. elim (Bool-cases (str_eq key client)) [
              | inl own ↦ rw own (refl, refl, refl, omega arith)
              | inr other ↦ rw other (clean.entries client)
            ];
          }),
          rw (found, h.rate) refl,
        )
