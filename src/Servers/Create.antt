-- ===== src/Servers/Create.antt =====
-- create-server-dialog.tsx.
pub mod View
pub mod Laws
mod Examples
use tarisya.Prelude.{ℕ, String, Bool, true, false, Option, none, some, if◌then◌else◌}
use tarisya.Types.{AgentConfig, CreateServerPayload, CreateServerResponse}
use tarisya.Api.{Call, create_server}
use tarisya.Mutations.{Observer, Answer, success, failure, failure_of}

module _ (o : Observer) where
  pub record CreateState : Type 0 where
    pub is_open : Bool
    pub name : String
    pub agent_config : Option AgentConfig
    pub mutation : o.State

  unfoldable pub initial : CreateState
  initial = record { is_open = false; name = ""; agent_config = none; mutation = o.initial }

  unfoldable pub handle_open_change : Bool → CreateState → CreateState
  handle_open_change next s =
      if next
      then record s { is_open = true }
      else record { is_open = false; name = ""; agent_config = none; mutation = o.reset s.mutation }

  -- `onChange` of the input
  unfoldable pub set_name : String → CreateState → CreateState
  set_name name s = record s { name = name }

  -- The new state, the number of the call, and the call.
  unfoldable pub handle_submit : CreateState → CreateState × ℕ × Call
  handle_submit s =
      let (mutation, id) = o.mutate s.mutation in
      (record s { mutation = mutation }, id, create_server (record { name = s.name }))

  abbrev on_success : Answer CreateServerResponse → CreateState → CreateState
  on_success (success response) s = record s { agent_config = some response.agent_config }
  on_success (failure e) s = s

  -- The answer to a call arrives.
  unfoldable pub answered : ℕ → Answer CreateServerResponse → CreateState → CreateState
  answered id answer s =
      let (mutation, runs) = o.settle id (failure_of answer) s.mutation in
      let t = record s { mutation = mutation } in if runs then on_success answer t else t
