-- ===== src/Core/Http/Console/Calls.antt =====
-- What the console's calls settle with, and what they have changed.
use tarisya.Prelude.{ℕ, String, true, false, Option, none, some, [], ◌≡◌, sym, ap, ◌∙◌, str_eq, inr}
use tarisya.Json.{Json, object}
use tarisya.ApiClient.{Platform, resolved, settle, member}
use tarisya.Api
use tarisya.Types.{CreateServerPayload}
use tarisya.Core.Store.{user_owns_server, api_key_valid}
use tarisya.Core.Store.Registry.{Command, step, run}
use tarisya.Core.Store.Integrity.{IsSound}
use tarisya.Core.Store.Keys.{deleted, created_lem, renewed}
use tarisya.Core.RateLimit.{Floats}
use tarisya.Core.Http.{
  Request, State, Services, agent_config, data_of, write_json, no_content, authenticate_user,
  authenticated, Body, decode_json, create_named, created_json, rate_limit, delete_server,
  create_server, delete_as, rotate_as, rotate_server_api_key,
}
use tarisya.Core.Http.Console.{received, Delivers, delivered, success_of}
use tarisya.Core.Http.Console.Success.{
  authenticate_user-IsRefusal, limited_success, authenticated_success, rotate_success,
  delete_success, create_success, resolved_inj,
}

-- `data.agent_config`, as the dialogs read it of what a call resolves with; `none` is `undefined`.
abbrev pub agent_config_of : Option Json → Option Json
agent_config_of (some (object fields)) = member "agent_config" fields
agent_config_of _ = none

module _ {T F : Type 0} ⦃f : Floats T⦄ (platform : Platform) (h : Services) (r : Request)
    (s : State T F) (sound : IsSound s.store) where
  -- Where the tables are sound and the core's response arrives: when the console's call to delete a
  -- server resolves, it is with nothing, the caller is signed in, and afterwards the server is
  -- nobody's and no key is accepted for it.
  pub delete_resolves :
      (now : ℕ) (value : Option Json)
      → let (response, after) = rate_limit now (delete_server h) r s in
        Delivers platform (Api.delete_server r.id) response
        → Api.call platform (Api.delete_server r.id) ≡ resolved value
        → (value ≡ none)
          × ((user_id : ℕ) × (authenticate_user h r ≡ inr user_id)
              × (user_owns_server user_id r.id s.store ≡ true))
          × ((u : ℕ) → user_owns_server u r.id after.store ≡ false)
          × ((tried : String) → api_key_valid h.hash_api_key r.id tried after.store ≡ false)
  unfolding delete_server Api.delete_server settle
  delete_resolves now value arrives resolves =
      let (response, after) = rate_limit now (delete_server h) r s in
      let settled = sym (delivered platform (Api.delete_server r.id) response arrives) ∙ resolves in
      let success = success_of platform false response value settled in
      let limit = limited_success h now (delete_server h) r s success in
      let (user_id, who, done) =
        authenticated_success h delete_as (authenticate_user h r) r s.store
          (authenticate_user-IsRefusal h r) limit.2 in
      let (answer, accepted_there, next, owned) = delete_success h user_id r s.store done in
      let gone = deleted h.hash_api_key s.store sound user_id r.id accepted_there in
      let says : response ≡ no_content =
        limit.0 ∙ ap (λ who. (authenticated delete_as who r s.store).0) who ∙ answer in
      let leaves : after.store ≡ (step h.hash_api_key (Command.delete user_id r.id) s.store).1 =
        limit.1 ∙ ap (λ who. (authenticated delete_as who r s.store).1) who ∙ next in
      let is : settle platform false (received no_content) ≡ resolved value =
        ap (λ response. settle platform false (received response)) (sym says) ∙ settled in
      (
        sym (resolved_inj none value is),
        (user_id, who, owned),
        λ u. ap (user_owns_server u r.id) leaves ∙ gone.0 u,
        λ tried. ap (api_key_valid h.hash_api_key r.id tried) leaves ∙ gone.1 tried,
      )

  -- Where the tables are sound and the core's response arrives: when the console's call to rotate a
  -- key resolves, the keys that are accepted for the server afterwards are exactly those with the
  -- hash of the new key. The call resolves with the server's identifier, the new key and the core's
  -- address themselves, and not with a member `agent_config`, where the dialog looks for them.
  pub rotate_resolves :
      (now clock : ℕ) (generated : Option String) (value : Option Json)
      → let (response, after) = rate_limit now (rotate_server_api_key h clock generated) r s in
        Delivers platform (Api.rotate_api_key r.id) response
        → Api.call platform (Api.rotate_api_key r.id) ≡ resolved value
        → (key : String) × (generated ≡ some key)
          × ((tried : String)
              → api_key_valid h.hash_api_key r.id tried after.store
                ≡ str_eq (h.hash_api_key key) (h.hash_api_key tried))
          × (value ≡ some (agent_config h r.id key))
          × (agent_config_of value ≡ none)
  unfolding rotate_server_api_key Api.rotate_api_key settle member run
  rotate_resolves now clock generated value arrives resolves =
      let (response, after) = rate_limit now (rotate_server_api_key h clock generated) r s in
      let settled =
        sym (delivered platform (Api.rotate_api_key r.id) response arrives) ∙ resolves in
      let success = success_of platform false response value settled in
      let limit = limited_success h now (rotate_server_api_key h clock generated) r s success in
      let next = rotate_as h clock generated in
      let (user_id, who, done) =
        authenticated_success h next (authenticate_user h r) r s.store
          (authenticate_user-IsRefusal h r) limit.2 in
      let (key, drawn, answer, accepted_there, leaves_next) =
        rotate_success h clock user_id generated r s.store done in
      let says : response ≡ write_json 200 (data_of (agent_config h r.id key)) =
        limit.0 ∙ ap (λ who. (authenticated next who r s.store).0) who ∙ answer in
      let leaves : after.store
          ≡ (step h.hash_api_key (Command.rotate clock user_id r.id key) s.store).1 =
        limit.1 ∙ ap (λ who. (authenticated next who r s.store).1) who ∙ leaves_next in
      let is : settle platform false (received (write_json 200 (data_of (agent_config h r.id key))))
          ≡ resolved value =
        ap (λ response. settle platform false (received response)) (sym says) ∙ settled in
      let shown = sym (resolved_inj (some (agent_config h r.id key)) value is) in
      let only =
        renewed h.hash_api_key user_id r.id clock (some key) [] s.store sound accepted_there tt in
      (
        key,
        drawn,
        λ tried. ap (api_key_valid h.hash_api_key r.id tried) leaves ∙ only tried,
        shown,
        ap agent_config_of shown,
      )

  -- Where the tables are sound and the core's response arrives: when the console's call to create a
  -- server resolves, it is with the member `agent_config` in which the dialog looks, for the server
  -- that was made: the caller owns it, and the key that is shown is accepted for it.
  pub create_resolves :
      (now clock : ℕ) (new_id generated : Option String) (body : Body String) (value : Option Json)
      (payload : CreateServerPayload)
      → let (response, after) = rate_limit now (create_server h clock new_id generated body) r s in
        Delivers platform (Api.create_server payload) response
        → Api.call platform (Api.create_server payload) ≡ resolved value
        → (server_id : String) × (key : String) × (user_id : ℕ) × (new_id ≡ some server_id)
          × (generated ≡ some key)
          × (authenticate_user h r ≡ inr user_id)
          × (agent_config_of value ≡ some (agent_config h server_id key))
          × (user_owns_server user_id server_id after.store ≡ true)
          × (api_key_valid h.hash_api_key server_id key after.store ≡ true)
  unfolding create_server Api.create_server settle member
  create_resolves now clock new_id generated body value payload arrives resolves =
      let handler = create_server h clock new_id generated body in
      let (response, after) = rate_limit now handler r s in
      let settled =
        sym (delivered platform (Api.create_server payload) response arrives) ∙ resolves in
      let success = success_of platform false response value settled in
      let limit = limited_success h now handler r s success in
      let next = create_named h clock new_id generated (decode_json body) in
      let (user_id, who, done) =
        authenticated_success h next (authenticate_user h r) r s.store
          (authenticate_user-IsRefusal h r) limit.2 in
      let made = create_success h clock user_id new_id generated body r s.store done in
      let says : response ≡ write_json 201 (data_of (created_json h made.key made.server)) =
        limit.0 ∙ ap (λ who. (authenticated next who r s.store).0) who ∙ made.answer in
      let c = Command.create clock user_id made.server_id made.name made.key in
      let leaves : after.store ≡ (step h.hash_api_key c s.store).1 =
        limit.1 ∙ ap (λ who. (authenticated next who r s.store).1) who ∙ made.leaves in
      let is : settle platform false
            (received (write_json 201 (data_of (created_json h made.key made.server))))
          ≡ resolved value =
        ap (λ response. settle platform false (received response)) (sym says) ∙ settled in
      let shown =
        ap agent_config_of
          (sym (resolved_inj (some (created_json h made.key made.server)) value is)) in
      let own =
        created_lem h.hash_api_key s.store sound clock user_id made.server_id made.name made.key
          made.done in
      (
        made.server_id,
        made.key,
        user_id,
        made.drawn_id,
        made.drawn_key,
        who,
        shown ∙ ap (λ id. some (agent_config h id made.key)) made.names,
        ap (user_owns_server user_id made.server_id) leaves ∙ own.0,
        ap (api_key_valid h.hash_api_key made.server_id made.key) leaves ∙ own.1,
      )
