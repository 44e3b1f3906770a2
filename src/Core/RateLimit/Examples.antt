-- ===== src/Core/RateLimit/Examples.antt =====
-- Runs of the limiter with the default settings of signing in, and its theorems at them.
use tarisya.Prelude.{ℕ, ◌+◌, ◌*◌, true, false, List, [], ◌∷◌, ◌++◌, ◌≡◌, refl}
use tarisya.Prelude.Int.{pos, negsuc}
use tarisya.Core.RateLimit.{
  second, ClientRateLimiter, new_client_rate_limiter, configured_rate_limit, allow,
  retry_after_seconds, cleanup, refilled, decide,
}
use tarisya.Core.RateLimit.Rounding.{exact}
use tarisya.Core.RateLimit.Laws.{Call, decisions}
use tarisya.Core.RateLimit.Bounds.{passed, tally, after}
use tarisya.Core.RateLimit.Coarse.{coarse}

-- The limiter of signing in, and a slow one with a large burst.
abbrev signing_in : ClientRateLimiter ℕ
signing_in = new_client_rate_limiter 10 5

abbrev slow : ClientRateLimiter ℕ
slow = new_client_rate_limiter 1 12

-- Six calls at once, one six seconds later, and one of another client.
abbrev burst_of : ℕ → List Call
burst_of now = (now, "a") ∷ (now, "a") ∷ (now, "a") ∷ (now, "a") ∷ (now, "a") ∷ (now, "a") ∷ []

abbrev later : List Call
later = (6 * second, "a") ∷ (6 * second, "a") ∷ (6 * second, "b") ∷ []

abbrev twice : List Call
twice = (0, "a") ∷ (0, "a") ∷ (6 * second, "b") ∷ []

runs :
    (decisions signing_in (burst_of 0) ≡ true ∷ true ∷ true ∷ true ∷ true ∷ false ∷ [])
    × (decisions (after signing_in (burst_of 0)) later ≡ true ∷ false ∷ true ∷ [])
    × (retry_after_seconds (allow 0 "a" (after signing_in (burst_of 0))).1.retry_after ≡ 6)
    × (configured_rate_limit (pos 0) 5 ≡ 5)
    × (configured_rate_limit (negsuc 2) 5 ≡ 5)
    × (configured_rate_limit (pos 7) 5 ≡ 7)
unfolding decisions after allow cleanup refilled decide new_client_rate_limiter retry_after_seconds
    configured_rate_limit
runs = (refl, refl, refl, refl, refl, refl)

-- With a burst of more than ten minutes' worth of requests, an emptied bucket is forgotten after ten
-- minutes and full again: 24 requests pass where 22 are meant to.
abbrev dozen_at : ℕ → List Call
dozen_at now = burst_of now ++ burst_of now

forgets :
    (passed "a" slow (dozen_at 0) ≡ 12)
    × (passed "a" (after slow (dozen_at 0)) (dozen_at (600 * second)) ≡ 12)
unfolding tally decisions after allow cleanup refilled decide new_client_rate_limiter
forgets = (refl, refl)

-- Five calls at the start pass. One at 306.200006 ms is refused, and told to come back after
-- 5693799994 ns; at that time it is refused again, and two nanoseconds later it passes.
abbrev five : List Call
five = (0, "a") ∷ (0, "a") ∷ (0, "a") ∷ (0, "a") ∷ (0, "a") ∷ []

abbrev early : ℕ
early = 306_200_006

told_too_little :
    (decisions ⦃f = coarse⦄ signing_in (five ++ (early, "a") ∷ (early + 5_693_799_994, "a") ∷ [])
      ≡ true ∷ true ∷ true ∷ true ∷ true ∷ false ∷ false ∷ [])
    × ((allow ⦃f = coarse⦄ early "a" (after ⦃f = coarse⦄ signing_in five)).1.retry_after
        ≡ 5_693_799_994)
unfolding decisions after allow cleanup refilled decide new_client_rate_limiter
told_too_little = (refl, refl)
