-- ===== src/Core/Http/Examples.antt =====
-- The console's calls of a core with one server, and the theorems at them.
use tarisya.Prelude.{
  ltb, ℕ, String, true, false, Option, none, some, List, [], ◌∷◌, ◌≡◌, refl, ◌<>◌, str_eq,
  if◌then◌else◌, inr,
}
use tarisya.Json.{Json, string}
use tarisya.ApiClient.{Platform, rejected, api_error, api_fetch, settle, member}
use tarisya.Api
use tarisya.Core.RateLimit.Rounding.{exact}
use tarisya.Core.RateLimit.{new_client_rate_limiter, allow, cleanup, refilled, decide}
use tarisya.Core.Database.{UserRow, Database}
use tarisya.Core.Store
use tarisya.Core.Store.{ServerRecord, user_owns_server, api_key_valid}
use tarisya.Core.Store.Registry.{Command, run, step}
use tarisya.Core.Store.Integrity.{IsSound}
use tarisya.Core.Store.Integrity.Steps.{run-IsSound}
use tarisya.Core.Http.{
  Response, Request, State, Services, agent_config, decoded, created_json, authenticate_user,
  rate_limit, delete_server, rotate_server_api_key, create_server, decode_json,
}
use tarisya.Core.Http.Ingest.{Checks, Received, bearer_token, validate_payload, receive_metrics}
use tarisya.Core.Http.Ingest.Rotated.{rotated_agent}
use tarisya.Core.Http.Console.{received}
use tarisya.Core.Http.Console.Calls.{
  delete_resolves, rotate_resolves, create_resolves, agent_config_of,
}

abbrev services : Services
services = record {
  public_core_url = "https://core";
  parse = λ session. if str_eq session "ann's" then some 1 else none;
  hash_api_key = λ key. "#" <> key;
  trim_space = λ text. text;
  len = λ text. 3;
  time_text = λ at. "";
}

abbrev ann : UserRow
ann = record {
  id = 1;
  name = "Ann";
  email = "ann@example.com";
  password_hash = "";
  role = "user";
  created_at = 0;
}

abbrev empty : Database ℕ
empty = record { users = ann ∷ []; servers = []; keys = []; metrics = [] }

empty-IsSound : IsSound empty
empty-IsSound = record {
  servers_unique = tt;
  keys_unique = tt;
  have_users = tt;
  keys_refer = tt;
  metrics_refer = tt;
}

abbrev made : List (Command ℕ)
made = Command.create 5 1 "srv_a" "web" "old" ∷ []

abbrev state : State ℕ ℕ
state = record {
  store = (run services.hash_api_key made empty).1;
  action_rate_limiter = new_client_rate_limiter 60 10;
}

state-IsSound : IsSound state.store
state-IsSound = run-IsSound services.hash_api_key made empty empty-IsSound

abbrev request : Request
request = record { address = "10.0.0.1"; session_cookie = some "ann's"; id = "srv_a" }

abbrev answering : Response → Platform
answering response = record {
  api_base_url = "/api/v1";
  stringify = λ json. "";
  message_text = λ json. "";
  fetch = λ asked. some (received response);
}

delete_resolves_example :
    let (response, after) = rate_limit 7 (delete_server services) request state in
    let nothing : Option Json = none in
    (nothing ≡ none)
    × ((user_id : ℕ) × (authenticate_user services request ≡ inr user_id)
        × (user_owns_server user_id "srv_a" state.store ≡ true))
    × ((u : ℕ) → user_owns_server u "srv_a" after.store ≡ false)
    × ((tried : String) → api_key_valid services.hash_api_key "srv_a" tried after.store ≡ false)
unfolding run step Store.create_server Store.delete_server rate_limit allow cleanup refilled decide
    new_client_rate_limiter delete_server authenticate_user Api.call Api.delete_server api_fetch
    settle
delete_resolves_example =
    delete_resolves (answering (rate_limit 7 (delete_server services) request state).0) services
      request state state-IsSound 7 none refl refl

rotate_resolves_example :
    let (response, after) =
      rate_limit 7 (rotate_server_api_key services 6 (some "new")) request state in
    let value = some (agent_config services "srv_a" "new") in
    (key : String) × (some "new" ≡ some key)
    × ((tried : String)
        → api_key_valid services.hash_api_key "srv_a" tried after.store
          ≡ str_eq (services.hash_api_key key) (services.hash_api_key tried))
    × (value ≡ some (agent_config services "srv_a" key))
    × (agent_config_of value ≡ none)
unfolding run step Store.create_server Store.rotate_api_key user_owns_server rate_limit allow
    cleanup refilled decide new_client_rate_limiter rotate_server_api_key authenticate_user Api.call
    Api.rotate_api_key api_fetch settle member
rotate_resolves_example =
    rotate_resolves
      (answering (rate_limit 7 (rotate_server_api_key services 6 (some "new")) request state).0)
      services request state state-IsSound 7 6 (some "new")
      (some (agent_config services "srv_a" "new")) refl refl

abbrev mail : ServerRecord
mail = record {
  id = "srv_b";
  name = "mail";
  overall_status = "pending";
  connectivity_status = "pending";
  health_status = "unknown";
  last_seen_at = none;
  created_at = 6;
}

create_resolves_example :
    let handler = create_server services 6 (some "srv_b") (some "new") (decoded "mail") in
    let (response, after) = rate_limit 7 handler request state in
    (server_id : String) × (key : String) × (user_id : ℕ) × (some "srv_b" ≡ some server_id)
    × (some "new" ≡ some key)
    × (authenticate_user services request ≡ inr user_id)
    × (agent_config_of (some (created_json services "new" mail))
        ≡ some (agent_config services server_id key))
    × (user_owns_server user_id server_id after.store ≡ true)
    × (api_key_valid services.hash_api_key server_id key after.store ≡ true)
unfolding run step Store.create_server rate_limit allow cleanup refilled decide
    new_client_rate_limiter create_server authenticate_user decode_json Api.call Api.create_server
    api_fetch settle member
create_resolves_example =
    create_resolves
      (answering
        (rate_limit 7 (create_server services 6 (some "srv_b") (some "new") (decoded "mail"))
          request state).0)
      services request state state-IsSound 7 6 (some "srv_b") (some "new") (decoded "mail")
      (some (created_json services "new" mail)) (record { name = "mail" }) refl refl

abbrev checks : Checks ℕ
checks = record {
  is_nan = λ value. false;
  is_inf = λ value. false;
  is_negative = λ value. false;
  exceeds_100 = λ value. ltb 100 value;
  cut = λ header. if str_eq header "Bearer new" then some ("Bearer", "new") else none;
  equal_fold = str_eq;
}

abbrev report : Received ℕ
report = record {
  payload = record {
    server_id = "srv_a";
    hostname = "host";
    timestamp = 9;
    metrics = record {
      cpu_usage = 1;
      memory_usage = 2;
      disk_usage = 3;
      load_average = 4;
      uptime_seconds = 5;
    };
    agent_version = "1.0";
  };
  has_timestamp = true;
}

abbrev rotated : Database ℕ
rotated = (step services.hash_api_key (Command.rotate 6 1 "srv_a" "new") state.store).1

rotated_agent_example :
    let (response, after) =
      receive_metrics services checks 8 6 100 50 (decoded report) "Bearer new" rotated in
    (response.status ≡ 202) × (after ≡ after)
unfolding run step Store.create_server Store.rotate_api_key user_owns_server validate_payload
    bearer_token
rotated_agent_example =
    rotated_agent services checks 1 8 6 100 50 (some "new") [] state.store report "Bearer new" "new"
      state-IsSound refl tt refl refl

-- A platform that shows texts as they are, and answers with a response.
abbrev text_of : Json → String
text_of (string m) = m
text_of _ = ""

abbrev reading : Response → Platform
reading response = record (answering response) { message_text = text_of }

-- A deletion by a visitor with no session.
abbrev stranger : Request
stranger = record { address = "10.0.0.1"; session_cookie = none; id = "srv_a" }

abbrev refused_there : Platform
refused_there = reading (rate_limit 7 (delete_server services) stranger state).0

refuses_stranger :
    Api.call refused_there (Api.delete_server "srv_a") ≡ rejected (api_error 401 "missing session")
unfolding run step Store.create_server rate_limit allow cleanup refilled decide
    new_client_rate_limiter delete_server authenticate_user Api.call Api.delete_server api_fetch
    settle member
refuses_stranger = refl
