-- ===== src/Mutations.antt =====
-- What `useMutation` of @tanstack/react-query hands to a component, as an interface: the observer of
-- a mutation. `mutate` makes a call and says which; when the answer to a call arrives, `settle` says
-- whether the callbacks run that were passed to `mutate` with it. They run for the latest call only,
-- and not after a `reset`.
pub mod Reference
use tarisya.Prelude.{ℕ, Bool, true, false, Option, none, some, ◌≡◌}
use tarisya.ApiClient.{Failure}

-- How a call ended.
pub data Answer (D : Type 0) : Type 0 where
  success : D → Answer D
  failure : Failure → Answer D

abbrev pub failure_of : {D : Type 0} → Answer D → Option Failure
failure_of (success d) = none
failure_of (failure e) = some e

pub record Observer : Type 1 where
  pub State : Type 0
  pub initial : State
  pub mutate : State → State × ℕ
  pub settle : ℕ → Option Failure → State → State × Bool
  pub reset : State → State
  pub is_pending : State → Bool
  pub error : State → Option Failure
  -- The call whose callbacks are still to run.
  pub current : State → Option ℕ

-- The documented behaviour.
pub record IsObserver (o : Observer) : Type 0 where
  pub current-initial : o.current o.initial ≡ none
  pub current-mutate : (s : o.State) → o.current (o.mutate s).0 ≡ some (o.mutate s).1
  pub is_pending-mutate : (s : o.State) → o.is_pending (o.mutate s).0 ≡ true
  pub error-mutate : (s : o.State) → o.error (o.mutate s).0 ≡ none
  pub current-reset : (s : o.State) → o.current (o.reset s) ≡ none
  pub is_pending-reset : (s : o.State) → o.is_pending (o.reset s) ≡ false
  pub error-reset : (s : o.State) → o.error (o.reset s) ≡ none
  -- The answer to the current call.
  pub settle_current :
      (s : o.State) (id : ℕ) (e : Option Failure)
      → o.current s ≡ some id
      → ((o.settle id e s).1 ≡ true)
        × (o.current (o.settle id e s).0 ≡ none)
        × (o.is_pending (o.settle id e s).0 ≡ false)
        × (o.error (o.settle id e s).0 ≡ e)
  -- The answer to a call that another one or a reset has replaced.
  pub settle_stale :
      (s : o.State) (id : ℕ) (e : Option Failure)
      → ¬ (o.current s ≡ some id)
      → o.settle id e s ≡ (s, false)
