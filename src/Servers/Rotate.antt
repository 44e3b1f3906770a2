-- ===== src/Servers/Rotate.antt =====
-- rotate-api-key-dialog.tsx: a dialog that asks, and one that shows the new configuration.
pub mod View
pub mod Laws
mod Examples
use tarisya.Prelude.{ℕ, String, Bool, true, false, Option, none, some, if◌then◌else◌}
use tarisya.Types.{AgentConfig, RotateApiKeyResponse}
use tarisya.Api.{Call, rotate_api_key}
use tarisya.Mutations.{Observer, Answer, success, failure, failure_of}

module _ (o : Observer) where
  -- `agentConfig` is null where it is `none`, and undefined where it is `some none`.
  pub record RotateState : Type 0 where
    pub confirm_open : Bool
    pub agent_config : Option (Option AgentConfig)
    pub mutation : o.State

  unfoldable pub initial : RotateState
  initial = record { confirm_open = false; agent_config = none; mutation = o.initial }

  unfoldable pub set_confirm_open : Bool → RotateState → RotateState
  set_confirm_open next s = record s { confirm_open = next }

  unfoldable pub handle_rotate : String → RotateState → RotateState × ℕ × Call
  handle_rotate server_id s =
      let (mutation, id) = o.mutate s.mutation in
      (record s { mutation = mutation }, id, rotate_api_key server_id)

  -- `onOpenChange` of the second dialog, `(open) => !open && setAgentConfig(null)`
  unfoldable pub open_changed : Bool → RotateState → RotateState
  open_changed next s = if next then s else record s { agent_config = none }

  -- The button "Done"
  unfoldable pub done : RotateState → RotateState
  done s = record s { agent_config = none }

  abbrev on_success : Answer RotateApiKeyResponse → RotateState → RotateState
  on_success (success response) s = record s {
    agent_config = some response.agent_config;
    confirm_open = false;
  }
  on_success (failure e) s = s

  unfoldable pub answered : ℕ → Answer RotateApiKeyResponse → RotateState → RotateState
  answered id answer s =
      let (mutation, runs) = o.settle id (failure_of answer) s.mutation in
      let t = record s { mutation = mutation } in if runs then on_success answer t else t
