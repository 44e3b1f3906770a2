-- ===== src/Core/Http.antt =====
-- internal/core/http.go: the handlers of the routes by which the console changes servers, with the
-- session that they ask for and the rate limit that they stand behind. The clock, the client's
-- address and the random identifiers, `none` where they fail, are arguments, and so is what
-- decoding finds of a body. The lines that are logged are left out. A body is the value that it encodes.
pub mod Console
pub mod Ingest
mod Examples
use tarisya.Prelude.{
  ℕ, ◌+◌, String, Bool, true, false, not, ◌&&◌, ◌||◌, Option, none, some, List, [], ◌∷◌, ltb, leb,
  ◌==◌, str_eq, show, ◌⊎◌, inl, inr, if◌then◌else◌,
}
use tarisya.Json.{Json, null, number, string, object, end, field}
use tarisya.Core.RateLimit.{Floats, ClientRateLimiter, Decision, allow, retry_after_seconds}
use tarisya.Core.Database.{Database}
use tarisya.Core.Store.{ServerRecord}
use tarisya.Core.Store

pub record Response : Type 0 where
  pub status : ℕ
  pub retry_after : Option ℕ
  pub body : Option Json

abbrev pub write_json : ℕ → Json → Response
write_json status body = record { status = status; retry_after = none; body = some body }

abbrev pub write_error : ℕ → String → Response
write_error status message = write_json status (object (field "error" (string message) end))

abbrev pub no_content : Response
no_content = record { status = 204; retry_after = none; body = none }

abbrev pub internal_error : Response
internal_error = write_error 500 "internal server error"

-- What a handler reads of a request; `address` is the client's.
pub record Request : Type 0 where
  pub address : String
  pub session_cookie : Option String
  pub id : String

-- The handler's state, with tokens of a type `T`; a limiter is shared by the routes that change servers.
pub record State (T F : Type 0) : Type 0 where
  pub store : Database F
  pub action_rate_limiter : ClientRateLimiter T

abbrev pub data_of : Json → Json
data_of value = object (field "data" value end)

-- What the handlers call and do not implement: `h.publicCoreURL`, `h.auth.Parse` at the time of the
-- request, `hashAPIKey`, `strings.TrimSpace`, the number of bytes of a text, and the text of a time.
pub record Services : Type 0 where
  pub public_core_url : String
  pub parse : String → Option ℕ
  pub hash_api_key : String → String
  pub trim_space : String → String
  pub len : String → ℕ
  pub time_text : ℕ → String

abbrev pub Handler : Type 0 → Type 0
Handler F = Request → Database F → Response × Database F

-- The answer to a change that was made, was not, or failed.
abbrev pub reply : Response → Option Bool → Response
reply success none = internal_error
reply success (some false) = write_error 404 "server not found"
reply success (some true) = success

abbrev pub agent_config : Services → String → String → Json
agent_config h server_id api_key = object (
    field "server_id" (string server_id)
      (field "api_key" (string api_key) (field "core_url" (string h.public_core_url) end)))

abbrev time_json : Services → Option ℕ → Json
time_json h none = null
time_json h (some at) = string (h.time_text at)

abbrev pub server_json : Services → ServerRecord → Json
server_json h s = object (
    field "id" (string s.id) (
      field "name" (string s.name) (
        field "overall_status" (string s.overall_status) (
          field "connectivity_status" (string s.connectivity_status) (
            field "health_status" (string s.health_status) (
              field "last_seen_at" (time_json h s.last_seen_at)
                (field "created_at" (string (h.time_text s.created_at)) end)))))))

abbrev pub created_json : Services → String → ServerRecord → Json
created_json h api_key s =
    object
      (field "server" (server_json h s) (field "agent_config" (agent_config h s.id api_key) end))

abbrev pub create_reply : Services → String → Option ServerRecord → Response
create_reply h api_key none = internal_error
create_reply h api_key (some server) = write_json 201 (data_of (created_json h api_key server))

abbrev pub parsed : Option ℕ → Response ⊎ ℕ
parsed none = inl (write_error 401 "invalid or expired token")
parsed (some user_id) = inr user_id

abbrev pub session : Services → Option String → Response ⊎ ℕ
session h none = inl (write_error 401 "missing session")
session h (some value) =
    if str_eq value "" then inl (write_error 401 "missing session") else parsed (h.parse value)

unfoldable pub authenticate_user : Services → Request → Response ⊎ ℕ
authenticate_user h r = session h r.session_cookie

-- What a body is found to be.
pub data Body (A : Type 0) : Type 0 where
  not_json : Body A
  too_large : Body A
  invalid : Body A
  decoded : A → Body A

unfoldable pub decode_json : {A : Type 0} → Body A → Response ⊎ A
decode_json not_json = inl (write_error 415 "Content-Type must be application/json")
decode_json too_large = inl (write_error 413 "request body exceeds 64 KiB limit")
decode_json invalid = inl (write_error 400 "invalid JSON payload")
decode_json (decoded value) = inr value

-- The check of the session, and what follows it.
abbrev pub authenticated : {F : Type 0} → (ℕ → Handler F) → Response ⊎ ℕ → Handler F
authenticated next (inl refusal) r db = (refusal, db)
authenticated next (inr user_id) r db = next user_id r db

module _ {F : Type 0} where
  abbrev limited :
      {T : Type 0}
      → Handler F
      → Request
      → Database F
      → ClientRateLimiter T
      → Decision
      → Response × State T F
  limited next r db limiter decision =
      let (response, after) = next r db in
      if decision.allowed
      then (response, record { store = after; action_rate_limiter = limiter })
      else (
        record (write_error 429 "rate limit exceeded") {
          retry_after = some (retry_after_seconds decision.retry_after);
        },
        record { store = db; action_rate_limiter = limiter },
      )

  unfoldable pub rate_limit :
      {T : Type 0} ⦃f : Floats T⦄ → ℕ → Handler F → Request → State T F → Response × State T F
  rate_limit now next r s =
      let (limiter, decision) = allow now r.address s.action_rate_limiter in
      limited next r s.store limiter decision

  abbrev pub delete_as : ℕ → Handler F
  delete_as user_id r db =
      let (deleted, next) = Store.delete_server user_id r.id db in (reply no_content deleted, next)

  abbrev pub revoke_as : ℕ → ℕ → Handler F
  revoke_as now user_id r db =
      let (revoked, next) = Store.revoke_api_key now user_id r.id db in
      (reply no_content revoked, next)

  module _ (h : Services) where
    unfoldable pub delete_server : Handler F
    delete_server r db = authenticated delete_as (authenticate_user h r) r db

    unfoldable pub revoke_server_api_key : ℕ → Handler F
    revoke_server_api_key now r db = authenticated (revoke_as now) (authenticate_user h r) r db

    -- `generated` is the random key.
    abbrev pub rotate_as : ℕ → Option String → ℕ → Handler F
    rotate_as now none user_id r db = (internal_error, db)
    rotate_as now (some api_key) user_id r db =
        let (rotated, next) = Store.rotate_api_key h.hash_api_key now user_id r.id api_key db in
        (reply (write_json 200 (data_of (agent_config h r.id api_key))) rotated, next)

    unfoldable pub rotate_server_api_key : ℕ → Option String → Handler F
    rotate_server_api_key now generated r db =
        authenticated (rotate_as now generated) (authenticate_user h r) r db

    -- The random identifier and key
    abbrev pub create_as : ℕ → Option String → Option String → String → ℕ → Handler F
    create_as now (some server_id) (some api_key) name user_id r db =
        let (server, next) =
          Store.create_server h.hash_api_key now user_id server_id name api_key db in
        (create_reply h api_key server, next)
    create_as now _ _ name user_id r db = (internal_error, db)

    abbrev pub create_named : ℕ → Option String → Option String → Response ⊎ String → ℕ → Handler F
    create_named now server_id api_key (inl refusal) user_id r db = (refusal, db)
    create_named now server_id api_key (inr given) user_id r db =
        let name = h.trim_space given in
        if ltb (h.len name) 2 || ltb 100 (h.len name)
        then (write_error 400 "name must contain 2 to 100 characters", db)
        else create_as now server_id api_key name user_id r db

    unfoldable pub create_server : ℕ → Option String → Option String → Body String → Handler F
    create_server now server_id api_key body r db =
        authenticated (create_named now server_id api_key (decode_json body))
          (authenticate_user h r) r db
