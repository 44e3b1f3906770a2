-- ===== src/Servers/Rotate/Laws.antt =====
-- What the dialogs that rotate a key show of the answer, whatever became of the question.
use tarisya.Prelude.{
  String, Bool, true, false, Option, none, some, List, [], ◌∷◌, ◌++◌, ◌≡◌, refl, ap, ◌∙◌,
  Bool-cases, inl, inr,
}
use tarisya.Types.{AgentConfig, RotateApiKeyResponse}
use tarisya.Jsx.{texts, texts_of, when}
use tarisya.Servers.Copyable.{copyable_field}
use tarisya.Servers.Rotate.View.{is_shown, confirm_view, result_view, view}
use tarisya.ApiClient.{Failure}
use tarisya.Api.{rotate_api_key}
use tarisya.Mutations.{Observer, IsObserver, success, failure}
use tarisya.Servers.Rotate.{
  RotateState, set_confirm_open, handle_rotate, open_changed, done, answered,
}

abbrev pub once_only : String
once_only = "Update konfigurasi agent dengan key baru ini. Key hanya ditampilkan sekali."

abbrev field_texts : String → String → List String
field_texts label value = label ∷ value ∷ "Copy " ∷ label ∷ []

-- The texts of the fields of a configuration.
abbrev pub fields : Option AgentConfig → List String
fields none = []
fields (some c) =
    field_texts "TARISYA_SERVER_ID" c.server_id
    ++ field_texts "TARISYA_API_KEY" c.api_key
    ++ field_texts "TARISYA_CORE_URL" c.core_url

module _ (o : Observer) where
  -- What happens while a call is pending, other than another call or an answer: the question is
  -- opened or closed, and a configuration that is still shown is dismissed.
  pub data Event : Type 0 where
    asked : Bool → Event
    shown : Bool → Event
    dismissed : Event

  unfoldable pub step : RotateState o → Event → RotateState o
  unfolding set_confirm_open open_changed done
  step s (asked next) = set_confirm_open o next s
  step s (shown next) = open_changed o next s
  step s dismissed = done o s

  unfoldable pub run : RotateState o → List Event → RotateState o
  run s [] = s
  run s (e ∷ es) = run (step s e) es

  step-mutation : (s : RotateState o) (e : Event) → (step s e).mutation ≡ s.mutation
  unfolding step
  step-mutation s (asked next) = refl
  step-mutation s (shown true) = refl
  step-mutation s (shown false) = refl
  step-mutation s dismissed = refl

  run-mutation : (s : RotateState o) (es : List Event) → (run s es).mutation ≡ s.mutation
  unfolding run
  run-mutation s [] = refl
  run-mutation s (e ∷ es) = run-mutation (step s e) es ∙ step-mutation s e

  result_view-texts :
      (name : String) (s : RotateState o) (c : Option AgentConfig)
      → s.agent_config ≡ some c
      → texts (result_view o name s) ≡ "API key rotated" ∷ once_only ∷ fields c ++ "Done" ∷ []
  unfolding texts result_view copyable_field
  result_view-texts name s none found = rw found refl
  result_view-texts name s (some c) found = rw found refl

  -- The texts do not depend on the mutation.
  view-texts :
      (name : String) (s : RotateState o) (mutation : o.State)
      → texts_of (view o name (record s { mutation = mutation })) ≡ texts_of (view o name s)
  unfolding texts view confirm_view result_view when
  view-texts name s mutation = elim (Bool-cases (o.is_pending mutation)) [
    | inl a ↦ elim (Bool-cases (o.is_pending s.mutation)) [
      | inl b ↦ rw (a, b) refl
      | inr b ↦ rw (a, b) refl
    ]
    | inr a ↦ elim (Bool-cases (o.is_pending s.mutation)) [
      | inl b ↦ rw (a, b) refl
      | inr b ↦ rw (a, b) refl
    ]
  ]

  module _ (laws : IsObserver o) where
    open laws use {current-mutate, settle_current}

    -- Rotating asks the core for a new key of the server. However the dialogs are opened and closed
    -- until the answer arrives, a success then closes the question and opens the other dialog, which
    -- shows the configuration of the response if it has one, and no field if it has none. A failure
    -- is kept by the mutation alone: both dialogs are as open as before and show the same texts.
    pub rotation_shown :
        (server_id name : String) (s : RotateState o) (es : List Event)
        → let (sent, id, c) = handle_rotate o server_id s in
          let waiting = run sent es in
          (c ≡ rotate_api_key server_id)
          × ((response : RotateApiKeyResponse)
              → let t = answered o id (success response) waiting in
                (t.confirm_open ≡ false)
                × (is_shown t.agent_config ≡ true)
                × (texts (result_view o name t)
                    ≡ "API key rotated" ∷ once_only ∷ fields response.agent_config ++ "Done" ∷ []))
          × ((e : Failure)
              → let t = answered o id (failure e) waiting in
                (t.confirm_open ≡ waiting.confirm_open)
                × (is_shown t.agent_config ≡ is_shown waiting.agent_config)
                × (texts_of (view o name t) ≡ texts_of (view o name waiting))
                × (o.error t.mutation ≡ some e))
    unfolding handle_rotate answered
    rotation_shown server_id name s es =
        let (mutation, id) = o.mutate s.mutation in
        let sent : RotateState o = record s { mutation = mutation } in
        let waiting = run sent es in
        let now : o.current waiting.mutation ≡ some id =
          ap o.current (run-mutation sent es) ∙ current-mutate s.mutation in
        (
          refl,
          λ response.
              let told =
                result_view-texts name
                  (record waiting {
                    mutation = (o.settle id none waiting.mutation).0;
                    agent_config = some response.agent_config;
                    confirm_open = false;
                  })
                  response.agent_config refl in
              rw (settle_current waiting.mutation id none now).0 (refl, refl, told),
          λ e.
              let (runs, _, _, shows) = settle_current waiting.mutation id (some e) now in
              let same = view-texts name waiting (o.settle id (some e) waiting.mutation).0 in
              rw runs (refl, refl, same, shows),
        )
