-- ===== src/Servers/Rotate/Examples.antt =====
-- The dialogs at a concrete server.
use tarisya.Prelude.{true, false, some, List, [], ◌∷◌, ◌++◌, ◌≡◌}
use tarisya.Jsx.{texts, texts_of}
use tarisya.Servers.Rotate.View.{is_shown, result_view, view}
use tarisya.Types.{RotateApiKeyResponse}
use tarisya.ApiClient.{Failure}
use tarisya.Api.{rotate_api_key}
use tarisya.Mutations.{success, failure}
use tarisya.Mutations.Reference.{counting, counting-IsObserver}
use tarisya.Servers.Rotate.{RotateState, initial, set_confirm_open, handle_rotate, answered}
use tarisya.Servers.Rotate.Laws.{Event, asked, run, once_only, fields, rotation_shown}

abbrev asking : RotateState counting
asking = set_confirm_open counting true (initial counting)

-- The question is cancelled while the call is pending.
abbrev cancelled : List (Event counting)
cancelled = asked false ∷ []

rotation_shown_example :
    let (sent, id, c) = handle_rotate counting "srv_1" asking in
    let waiting = run counting sent cancelled in
    (c ≡ rotate_api_key "srv_1")
    × ((response : RotateApiKeyResponse)
        → let t = answered counting id (success response) waiting in
          (t.confirm_open ≡ false)
          × (is_shown t.agent_config ≡ true)
          × (texts (result_view counting "Web" t)
              ≡ "API key rotated" ∷ once_only ∷ fields response.agent_config ++ "Done" ∷ []))
    × ((e : Failure)
        → let t = answered counting id (failure e) waiting in
          (t.confirm_open ≡ waiting.confirm_open)
          × (is_shown t.agent_config ≡ is_shown waiting.agent_config)
          × (texts_of (view counting "Web" t) ≡ texts_of (view counting "Web" waiting))
          × (counting.error t.mutation ≡ some e))
rotation_shown_example = rotation_shown counting counting-IsObserver "srv_1" "Web" asking cancelled
