-- ===== src/Queries/Keys.antt =====
-- The keys of the query cache tell the queries apart.
use tarisya.Prelude.{
  String, true, Option, none, some, [], ◌∷◌, ◌≡◌, refl, arith, ap, or_else, ℕ, ◌+◌, length, str_eq,
  if◌then◌else◌,
}
use mathlib.Core.Path.{ap₂}
use tarisya.Types.{MetricsRange, 15m, 1h, 6h, 24h}
use tarisya.Api.{range_text}
use tarisya.Queries.{
  QueryKey, Hook, me, servers, latest_metrics, server, metrics_range, options, IsEnabled, truthy,
  use_me, use_servers, use_server, use_latest_metrics, use_metrics_range,
}

-- A number for each range, read off its text.
range_code : String → ℕ
range_code s =
    if str_eq s "15m" then 0 else if str_eq s "1h" then 1 else if str_eq s "6h" then 2 else 3

range_text_inj : (q r : MetricsRange) → range_text q ≡ range_text r → q ≡ r
unfolding range_code
range_text_inj 15m 15m h = refl
range_text_inj 1h 1h h = refl
range_text_inj 6h 6h h = refl
range_text_inj 24h 24h h = refl
range_text_inj _ _ h = absurd (omega (arith, ap range_code h))

-- A number for each kind of key, read off its length and first text.
shape : QueryKey → ℕ
shape [] = 0
shape (x ∷ xs) = (if str_eq x "servers" then 10 else 0) + length xs

-- An enabled query that names a server has one.
truthy_inj :
    (a b : Option String) → truthy a ≡ true → truthy b ≡ true → or_else a "" ≡ or_else b "" → a ≡ b
truthy_inj none b h k e = cc
truthy_inj (some a) none h k e = cc
truthy_inj (some a) (some b) h k e = ap some e

-- Two enabled queries with one key are one query: no entry of the cache is filled by two calls.
pub query_key_inj :
    (h k : Hook) → IsEnabled h → IsEnabled k → (options h).query_key ≡ (options k).query_key → h ≡ k
unfolding shape use_me use_servers use_server use_latest_metrics use_metrics_range
query_key_inj me me p q e = refl
query_key_inj servers servers p q e = refl
query_key_inj (server a) (server b) p q e = ap server (truthy_inj a b p q (ground arith))
query_key_inj (latest_metrics a) (latest_metrics b) p q e =
    ap latest_metrics (truthy_inj a b p q (ground arith))
query_key_inj (metrics_range a r) (metrics_range b s) p q e =
    ap₂ metrics_range (truthy_inj a b p q (ground arith)) (range_text_inj r s (ground arith))
query_key_inj _ _ p q e = absurd (omega (arith, ap shape e))
