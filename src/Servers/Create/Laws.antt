-- ===== src/Servers/Create/Laws.antt =====
-- What the dialog that creates a server keeps, shows and forgets.
use tarisya.Prelude.{ℕ, String, Bool, true, false, none, some, ◌≡◌, refl, arith}
use tarisya.Types.{CreateServerResponse}
use tarisya.Mutations.{Observer, IsObserver, Answer, success, failure, failure_of}
use tarisya.Servers.Create.{
  CreateState, initial, handle_open_change, set_name, handle_submit, answered,
}
use tarisya.ApiClient.{Failure}
use tarisya.Api.{create_server}

-- The steps of the dialog. The form is mounted only while the dialog is open and has no
-- configuration to show, and its button is disabled while a call is pending.
module _ (o : Observer) where
  pub data Step : CreateState o → CreateState o → Type 0 where
    opens_or_closes : (s : CreateState o) (next : Bool) → Step s (handle_open_change o next s)
    types : (s : CreateState o) (name : String) → s.is_open ≡ true → Step s (set_name o name s)
    submits :
        (s : CreateState o)
        → s.is_open ≡ true
        → s.agent_config ≡ none
        → o.is_pending s.mutation ≡ false
        → Step s (handle_submit o s).0
    answers :
        (s : CreateState o) (id : ℕ) (answer : Answer CreateServerResponse)
        → Step s (answered o id answer s)

  pub data Reach : CreateState o → Type 0 where
    start : Reach (initial o)
    next : {s t : CreateState o} → Reach s → Step s t → Reach t

  -- A closed dialog holds nothing and waits for nothing.
  pub record IsClean (s : CreateState o) : Type 0 where
    pub name : s.name ≡ ""
    pub agent_config : s.agent_config ≡ none
    pub current : o.current s.mutation ≡ none

  abbrev pub IsCleanIfClosed : CreateState o → Type 0
  IsCleanIfClosed s = s.is_open ≡ false → IsClean s

  module _ (laws : IsObserver o) where
    open laws use {current-initial, current-mutate, current-reset, settle_current, settle_stale}

    answered_stale :
        (s : CreateState o) (id : ℕ) (answer : Answer CreateServerResponse)
        → o.current s.mutation ≡ none
        → answered o id answer s ≡ s
    unfolding answered
    answered_stale s id answer e =
        rw (settle_stale s.mutation id (failure_of answer) (λ c. cc)) refl

    answered-is_open :
        (s : CreateState o) (id : ℕ) (answer : Answer CreateServerResponse)
        → (answered o id answer s).is_open ≡ s.is_open
    unfolding answered
    answered-is_open s id (success r) = ground arith
    answered-is_open s id (failure e) = ground arith

    Step-IsClean : {s t : CreateState o} → Step s t → IsCleanIfClosed s → IsCleanIfClosed t
    unfolding handle_open_change set_name handle_submit
    Step-IsClean (opens_or_closes s true) h closed = cc
    Step-IsClean (opens_or_closes s false) h closed = record {
      name = refl;
      agent_config = refl;
      current = current-reset s.mutation;
    }
    Step-IsClean (types s name is_open) h closed = cc
    Step-IsClean (submits s is_open fresh idle) h closed = cc
    Step-IsClean (answers s id answer) h closed =
        let c = h (rw (answered-is_open s id answer) at closed) in
        rw (answered_stale s id answer c.current) c

    Reach-IsClean : {s : CreateState o} → Reach s → IsCleanIfClosed s
    unfolding initial
    Reach-IsClean start closed = record {
      name = refl;
      agent_config = refl;
      current = current-initial;
    }
    Reach-IsClean (next r st) closed = Step-IsClean st (Reach-IsClean r) closed

    -- Whatever was done before, a closed dialog holds no name and no configuration, so no API key,
    -- and the answer to any earlier call changes nothing: the key of a server whose creation was
    -- under way when the dialog was closed is never shown.
    pub closed_forgets :
        (s : CreateState o)
        → Reach s
        → s.is_open ≡ false
        → (s.name ≡ "")
          × (s.agent_config ≡ none)
          × ((id : ℕ) (answer : Answer CreateServerResponse) → answered o id answer s ≡ s)
    closed_forgets s r closed =
        let c = Reach-IsClean r closed in
        (c.name, c.agent_config, λ id answer. answered_stale s id answer c.current)

    answered_current :
        (s : CreateState o) (id : ℕ) (response : CreateServerResponse)
        → o.current s.mutation ≡ some id
        → answered o id (success response) s ≡ record s {
          agent_config = some response.agent_config;
          mutation = (o.settle id none s.mutation).0;
        }
    unfolding answered
    answered_current s id response e = rw (settle_current s.mutation id none e).0 refl

    answered_failed :
        (s : CreateState o) (id : ℕ) (e : Failure)
        → o.current s.mutation ≡ some id
        → answered o id (failure e) s ≡ record s { mutation = (o.settle id (some e) s.mutation).0 }
    unfolding answered
    answered_failed s id e h = rw (settle_current s.mutation id (some e) h).0 refl

    -- Submitting sends the name that the dialog holds. If the answer arrives before anything else
    -- happens, a success makes the dialog hold the configuration of the response, and a failure
    -- leaves it on its form, with the name, the failure as the error and the button enabled.
    pub submit_then_answered :
        (s : CreateState o)
        → let (sent, id, c) = handle_submit o s in
          (c ≡ create_server (record { name = s.name }))
          × (o.is_pending sent.mutation ≡ true)
          × ((response : CreateServerResponse)
              → ((answered o id (success response) sent).agent_config ≡ some response.agent_config)
                × ((answered o id (success response) sent).is_open ≡ s.is_open))
          × ((e : Failure)
              → let t = answered o id (failure e) sent in
                (t.agent_config ≡ s.agent_config)
                × (t.name ≡ s.name)
                × (o.error t.mutation ≡ some e)
                × (o.is_pending t.mutation ≡ false))
    unfolding handle_submit
    submit_then_answered s =
        let (mutation, id) = o.mutate s.mutation in
        let sent : CreateState o = record s { mutation = mutation } in
        let now : o.current mutation ≡ some id = current-mutate s.mutation in
        (
          refl,
          laws.is_pending-mutate s.mutation,
          λ response. rw (answered_current sent id response now) (refl, refl),
          λ e.
              let (_, _, idle, shown) = settle_current mutation id (some e) now in
              rw (answered_failed sent id e now) (refl, refl, shown, idle),
        )
