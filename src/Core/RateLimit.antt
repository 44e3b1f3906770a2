-- ===== src/Core/RateLimit.antt =====
-- internal/core/rate_limit.go. A time is a number of nanoseconds, and the times of the calls do not
-- fall, as those of Go's monotonic clock. Tokens are floating point numbers: an interface has the
-- source's expressions on them, and Rounding what is known of their results. A Go map is a function.
pub mod Rounding
pub mod Steps
pub mod Laws
pub mod Bounds
pub mod Retry
mod Coarse
mod Examples
use tarisya.Prelude.{
  ℕ, ◌+◌, ◌-◌, ◌*◌, ◌/◌, String, Bool, true, false, not, Option, none, some, List, [], ◌∷◌, ltb,
  leb, str_eq, or_else, if◌then◌else◌,
}
use tarisya.Prelude.Int.{ℤ, pos, negsuc}

-- What the limiter computes with tokens, a float64.
pub record Floats (T : Type 0) : Type 0 where
  -- `float64(burst)`
  pub of_nat : ℕ → T
  -- `elapsed.Seconds() * tokensPerSec`, by the nanoseconds and the requests per minute
  pub gained : ℕ → ℕ → T
  pub add : T → T → T
  -- `math.Min`
  pub lesser : T → T → T
  -- `tokens >= 1` and `tokens - 1`
  pub at_least_one : T → Bool
  pub less_one : T → T
  -- `math.Ceil((1 - tokens) / tokensPerSec * float64(time.Second))`, by the requests per minute
  pub nanoseconds_until_one : ℕ → T → ℕ

-- Times in nanoseconds.
abbrev pub second : ℕ
second = 1_000_000_000

abbrev pub client_ttl : ℕ
client_ttl = 600 * second

abbrev pub cleanup_interval : ℕ
cleanup_interval = 300 * second

pub record TokenBucket (T : Type 0) : Type 0 where
  pub tokens : T
  pub updated : ℕ
  pub last_seen : ℕ

pub record ClientRateLimiter (T : Type 0) : Type 0 where
  pub clients : String → Option (TokenBucket T)
  pub per_minute : ℕ
  pub burst : ℕ
  pub last_cleanup_at : Option ℕ

-- `value` where it is positive, else `fallback`
unfoldable pub configured_rate_limit : ℤ → ℕ → ℕ
configured_rate_limit (pos n) fallback = if ltb 0 n then n else fallback
configured_rate_limit (negsuc n) fallback = fallback

-- The least number that times a positive `b` is at least `a`.
abbrev pub ceil_div : ℕ → ℕ → ℕ
ceil_div a b = (a + b - 1) / b

-- Whether the request is allowed, and if not, the nanoseconds after which to try again.
pub record Decision : Type 0 where
  pub allowed : Bool
  pub retry_after : ℕ

abbrev pub cleanup_due : ℕ → Option ℕ → Bool
cleanup_due now none = true
cleanup_due now (some at) = leb cleanup_interval (now - at)

-- `Retry-After`, in seconds
unfoldable pub retry_after_seconds : ℕ → ℕ
retry_after_seconds retry = ceil_div retry second

module _ {T : Type 0} where
  unfoldable pub new_client_rate_limiter : ℕ → ℕ → ClientRateLimiter T
  new_client_rate_limiter per_minute burst = record {
    clients = λ _. none;
    per_minute = per_minute;
    burst = burst;
    last_cleanup_at = none;
  }

  -- The differences of times are not below 0: a later time stands on the left.
  abbrev pub is_stale : ℕ → TokenBucket T → Bool
  is_stale now b = leb client_ttl (now - b.last_seen)

  -- `delete` of each stale bucket
  abbrev pub without_stale : ℕ → Option (TokenBucket T) → Option (TokenBucket T)
  without_stale now none = none
  without_stale now (some b) = if is_stale now b then none else some b

  unfoldable pub cleanup : ℕ → ClientRateLimiter T → ClientRateLimiter T
  cleanup now l =
      if cleanup_due now l.last_cleanup_at
      then record l {
        clients = λ client. without_stale now (l.clients client);
        last_cleanup_at = some now;
      }
      else l

  abbrev pub store : String → TokenBucket T → ClientRateLimiter T → ClientRateLimiter T
  store key b l = record l {
    clients = λ client. if str_eq key client then some b else l.clients client;
  }

module _ {T : Type 0} ⦃f : Floats T⦄ where
  -- `math.Min(l.burst, bucket.tokens+elapsed*l.tokensPerSec)`
  abbrev pub refill : ℕ → ℕ → T → ℕ → T
  refill per_minute burst tokens elapsed =
      f.lesser (f.of_nat burst) (f.add tokens (f.gained elapsed per_minute))

  -- The bucket of the client, a full one if there is none, with the tokens of the time that has
  -- passed.
  unfoldable pub refilled : ℕ → String → ClientRateLimiter T → TokenBucket T
  refilled now key l =
      let full : TokenBucket T = record {
        tokens = f.of_nat l.burst;
        updated = now;
        last_seen = now;
      } in
      let b = or_else (l.clients key) full in
      let elapsed = now - b.updated in
      if ltb 0 elapsed
      then record {
        tokens = refill l.per_minute l.burst b.tokens elapsed;
        updated = now;
        last_seen = now;
      }
      else record b { last_seen = now }

  unfoldable pub decide : ℕ → T → Decision
  decide per_minute tokens =
      if f.at_least_one tokens
      then record { allowed = true; retry_after = 0 }
      else let retry = f.nanoseconds_until_one per_minute tokens in
        record { allowed = false; retry_after = if ltb retry second then second else retry }

  -- `bucket.tokens--` where the request is allowed
  abbrev pub spent : T → T
  spent tokens = if f.at_least_one tokens then f.less_one tokens else tokens

  unfoldable pub allow : ℕ → String → ClientRateLimiter T → ClientRateLimiter T × Decision
  allow now key l =
      let swept = cleanup now l in
      let b = refilled now key swept in
      (store key (record b { tokens = spent b.tokens }) swept, decide l.per_minute b.tokens)
