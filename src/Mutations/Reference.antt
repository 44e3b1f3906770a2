-- ===== src/Mutations/Reference.antt =====
-- An observer that meets the laws: it numbers its calls.
use tarisya.Prelude.{
  ℕ, suc, Bool, true, false, Option, none, some, refl, ◌==◌, if◌then◌else◌, arith,
}
use tarisya.ApiClient.{Failure}
use tarisya.Mutations.{Observer, IsObserver}

pub record Counting : Type 0 where
  pub next : ℕ
  pub current : Option ℕ
  pub error : Option Failure

abbrev is_current : Option ℕ → ℕ → Bool
is_current none id = false
is_current (some n) id = n == id

abbrev is_some : Option ℕ → Bool
is_some none = false
is_some (some n) = true

abbrev pub counting : Observer
counting = record {
  State = Counting;
  initial = record { next = 0; current = none; error = none };
  mutate = λ s. (record { next = suc s.next; current = some s.next; error = none }, s.next);
  settle = λ id e s.
      if is_current s.current id
      then (record s { current = none; error = e }, true)
      else (s, false);
  reset = λ s. record s { current = none; error = none };
  is_pending = λ s. is_some s.current;
  error = λ s. s.error;
  current = λ s. s.current;
}

pub counting-IsObserver : IsObserver counting
counting-IsObserver = record {
  current-initial = refl;
  current-mutate = λ s. refl;
  is_pending-mutate = λ s. refl;
  error-mutate = λ s. refl;
  current-reset = λ s. refl;
  is_pending-reset = λ s. refl;
  error-reset = λ s. refl;
  settle_current = λ s id e h. ground arith;
  settle_stale = λ s id e h. ground arith;
}
