-- ===== src/ApiClient/Examples.antt =====
-- Runs of the client against a small server, and its theorems at concrete calls.
use tarisya.Prelude.{
  ◌≡◌, ◌≢◌, ◌↔◌, refl, String, true, false, Option, none, some, [], ◌∷◌, ◌<>◌, str_eq,
  if◌then◌else◌, show,
}
use tarisya.Dict.{lookup, latest}
use tarisya.Json.{string, object, end, field}
use tarisya.ApiClient.{
  api_error, network, resolved, rejected, RequestOptions, no_options, Request, Response, Platform,
  member, request, settle, api_fetch,
}
use tarisya.ApiClient.Requests.{request_lem}
use tarisya.ApiClient.Outcomes.{Yields, api_fetch_iff}

abbrev pub answer : Request → Option Response
answer sent =
    if str_eq sent.url "/api/v1/auth/me"
    then some (record {
      ok = false;
      status = 401;
      json = some (object (field "error" (string "authentication required") end));
    })
    else if str_eq sent.url "/api/v1/servers"
    then some (record {
      ok = true;
      status = 200;
      json = some (object (field "data" (string "none yet") end));
    })
    else if str_eq sent.url "/api/v1/servers/s1"
    then some (record { ok = false; status = 502; json = none })
    else none

abbrev pub platform : Platform
platform = record {
  api_base_url = "/api/v1";
  stringify = λ json. "{}";
  message_text = elim [ string s ↦ s | _ ↦ "?" ];
  fetch = answer;
}

runs :
    (api_fetch platform "/auth/me" no_options ≡ rejected (api_error 401 "authentication required"))
    × (api_fetch platform "/servers" no_options ≡ resolved (some (string "none yet")))
    × (api_fetch platform "/servers" (record no_options { raw = true })
        ≡ resolved (some (object (field "data" (string "none yet") end))))
    × (api_fetch platform "/servers/s1" no_options
        ≡ rejected (api_error 502 "Request failed with status 502"))
    × (api_fetch platform "/nowhere" no_options ≡ rejected network)
unfolding api_fetch settle request member show
runs = (refl, refl, refl, refl, refl)

abbrev posting : RequestOptions
posting = record no_options {
  rest = ("method", "POST") ∷ ("credentials", "omit") ∷ [];
  headers = ("Content-Type", "text/plain") ∷ [];
}

request_lem_example :
    let sent = request platform "/servers" posting in
    (sent.url ≡ "/api/v1" <> "/servers")
    × (lookup "credentials" sent.init ≡ some "include")
    × ((key : String) → key ≢ "credentials" → lookup key sent.init ≡ lookup key posting.rest)
    × ((name : String)
        → lookup name sent.headers
          ≡ latest name posting.headers
              (if str_eq "Content-Type" name then some "application/json" else none))
request_lem_example = request_lem platform "/servers" posting

api_fetch_iff_example :
    let x = rejected (api_error 401 "authentication required") in
    (answer (request platform "/auth/me" no_options) ≡ none
      → (api_fetch platform "/auth/me" no_options ≡ x) ↔ (x ≡ rejected network))
    × ((response : Response)
        → answer (request platform "/auth/me" no_options) ≡ some response
        → (api_fetch platform "/auth/me" no_options ≡ x) ↔ Yields platform false response x)
api_fetch_iff_example =
    api_fetch_iff platform "/auth/me" no_options
      (rejected (api_error 401 "authentication required"))
