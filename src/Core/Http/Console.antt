-- ===== src/Core/Http/Console.antt =====
-- The console's calls, answered by the core: what a call that changes servers settles with, and what
-- it has changed. `fetch` gives a response of the core as it is: `ok` where its status is from 200
-- to 299, with the value that its body encodes.
pub mod Success
pub mod Calls
pub mod Refusals
pub mod Settles
use tarisya.Prelude.{
  ℕ, ◌+◌, String, Bool, true, false, not, ◌&&◌, ◌||◌, Option, none, some, List, [], ◌∷◌, ◌++◌, ◌≡◌,
  refl, sym, ap, ◌∙◌, arith, ltb, leb, ◌==◌, str_eq, ◌⊎◌, inl, inr, if◌then◌else◌, Bool-cases,
  Option-cases,
}
use tarisya.Json.{Json, null, number, string, object, end, field}
use tarisya.ApiClient
use tarisya.ApiClient.{Platform, Result, resolved, rejected, api_error, settle, api_fetch, member}
use tarisya.Api
use tarisya.Types.{CreateServerPayload}
use tarisya.Core.RateLimit.{allow}
use tarisya.Core.Database.{ServerRow, Database}
use tarisya.Core.Store.{
  ServerRecord, user_owns_server, api_key_valid, server_accepted, key_accepted, new_key,
}
use tarisya.Core.Store
use tarisya.Core.Store.Registry.{Command, Answer, step, run, changed, created, asked}
use tarisya.Core.Store.Integrity.{IsSound}
use tarisya.Core.Store.Keys.{deleted, created_lem, renewed}
use tarisya.Core.Http.{
  Response, Request, State, Services, Handler, reply, agent_config, data_of, write_json,
  write_error, no_content, authenticate_user, authenticated, Body, decode_json, create_reply,
  create_named, created_json, create_as, rate_limit, limited, delete_server, delete_as, parsed,
  session, rotate_as, rotate_server_api_key,
}

abbrev pub is_success : ℕ → Bool
is_success status = leb 200 status && leb status 299

abbrev pub received : Response → ApiClient.Response
received response = record {
  ok = is_success response.status;
  status = response.status;
  json = response.body;
}

-- The core's response arrives.
abbrev pub Delivers : Platform → Api.Call → Response → Type 0
Delivers platform c response =
    platform.fetch (ApiClient.request platform c.path c.options) ≡ some (received response)

module _ (platform : Platform) where
  pub delivered :
      (c : Api.Call) (response : Response)
      → Delivers platform c response
      → Api.call platform c ≡ settle platform c.options.raw (received response)
  unfolding Api.call api_fetch
  delivered c response arrives = rw (arrives, Api.call, api_fetch) refl

  -- A call that resolves was answered with success.
  pub success_of :
      (raw : Bool) (response : Response) (value : Option Json)
      → settle platform raw (received response) ≡ resolved value
      → is_success response.status ≡ true
  unfolding settle
  success_of raw response value settled = elim (Bool-cases (is_success response.status)) [
    | inl success ↦ success
    | inr failed ↦ let wrong = rw failed at settled in cc
  ]
