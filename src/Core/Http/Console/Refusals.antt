-- ===== src/Core/Http/Console/Refusals.antt =====
-- The answers of the handlers that change servers, refusals included.
use tarisya.Prelude.{
  ℕ, String, Bool, true, false, ◌||◌, ◌==◌, Option, none, some, ◌≡◌, refl, ltb, str_eq, ◌⊎◌, inl,
  inr, Bool-cases,
}
use tarisya.Json.{Json, string, object, end, field}
use tarisya.Core.RateLimit.{Floats, allow}
use tarisya.Core.Database.{Database}
use tarisya.Core.Store.{ServerRecord}
use tarisya.Core.Http.{
  Response, Request, State, Services, Handler, write_json, reply, no_content, agent_config, data_of,
  session, parsed, authenticate_user, authenticated, Body, not_json, too_large, invalid, decoded,
  decode_json, create_reply, create_named, create_as, rate_limit, delete_server, delete_as,
  rotate_as, rotate_server_api_key, create_server,
}
use tarisya.Core.Http.Console.{is_success}

-- Why a call that changes servers is refused, with the status and the message: by whether the rate
-- limit lets it through, and the user of its session, if it has one.
pub data Refusal (allowed : Bool) (who : Response ⊎ ℕ) : ℕ → String → Type 0 where
  over_limit : allowed ≡ false → Refusal allowed who 429 "rate limit exceeded"
  no_session :
      allowed ≡ true → ((user : ℕ) → who ≡ inr user → ⊥) → Refusal allowed who 401 "missing session"
  bad_session :
      allowed ≡ true
      → ((user : ℕ) → who ≡ inr user → ⊥)
      → Refusal allowed who 401 "invalid or expired token"
  unknown_server :
      (user : ℕ) → allowed ≡ true → who ≡ inr user → Refusal allowed who 404 "server not found"
  broken :
      (user : ℕ) → allowed ≡ true → who ≡ inr user → Refusal allowed who 500 "internal server error"
  bad_name :
      (user : ℕ)
      → allowed ≡ true
      → who ≡ inr user
      → Refusal allowed who 400 "name must contain 2 to 100 characters"
  bad_type :
      (user : ℕ)
      → allowed ≡ true
      → who ≡ inr user
      → Refusal allowed who 415 "Content-Type must be application/json"
  long_body :
      (user : ℕ)
      → allowed ≡ true
      → who ≡ inr user
      → Refusal allowed who 413 "request body exceeds 64 KiB limit"
  bad_json :
      (user : ℕ) → allowed ≡ true → who ≡ inr user → Refusal allowed who 400 "invalid JSON payload"

-- An answer: a refusal, or a success that has a body where its status asks for one.
abbrev pub Refused : Bool → (Response ⊎ ℕ) → Response → Type 0
Refused allowed who response =
    (status : ℕ) × (message : String) × Refusal allowed who status message
    × (response.status ≡ status)
    × (response.body ≡ some (object (field "error" (string message) end)))

abbrev pub Succeeds : Response → Type 0
Succeeds response =
    (response ≡ no_content)
    ⊎ ((status : ℕ) × (json : Json) × (is_success status ≡ true)
        × ((status == 204) ≡ false)
        × (response ≡ write_json status json))

abbrev pub Answered : Bool → (Response ⊎ ℕ) → Response → Type 0
Answered allowed who response = Refused allowed who response ⊎ Succeeds response

pub Refusal-status :
    {allowed : Bool} {who : Response ⊎ ℕ} {status : ℕ} {message : String}
    → Refusal allowed who status message
    → is_success status ≡ false
Refusal-status (over_limit a) = refl
Refusal-status (no_session a w) = refl
Refusal-status (bad_session a w) = refl
Refusal-status (unknown_server u a w) = refl
Refusal-status (broken u a w) = refl
Refusal-status (bad_name u a w) = refl
Refusal-status (bad_type u a w) = refl
Refusal-status (long_body u a w) = refl
Refusal-status (bad_json u a w) = refl

reply-Answered :
    (user : ℕ) (status : ℕ) (response : Response) (result : Option Bool)
    → Succeeds response
    → Answered true (inr user) (reply response result)
reply-Answered user status response none good =
    inl (500, "internal server error", broken user refl refl, refl, refl)
reply-Answered user status response (some false) good =
    inl (404, "server not found", unknown_server user refl refl, refl, refl)
reply-Answered user status response (some true) good = inr good

-- A session that is refused.
abbrev RefusesSession : (Response ⊎ ℕ) → Type 0
RefusesSession (inl refusal) = Answered true (inl refusal) refusal
RefusesSession (inr user) = Unit

parsed-RefusesSession : (found : Option ℕ) → RefusesSession (parsed found)
parsed-RefusesSession none =
    inl (401, "invalid or expired token", bad_session refl (λ user e. cc), refl, refl)
parsed-RefusesSession (some user) = tt

session-RefusesSession : (h : Services) (cookie : Option String) → RefusesSession (session h cookie)
session-RefusesSession h none =
    inl (401, "missing session", no_session refl (λ user e. cc), refl, refl)
session-RefusesSession h (some value) = elim (Bool-cases (str_eq value "")) [
  | inl blank ↦ rw blank (inl (401, "missing session", no_session refl (λ user e. cc), refl, refl))
  | inr given ↦ rw given (parsed-RefusesSession (h.parse value))
]

create_reply-Answered :
    (h : Services) (user : ℕ) (key : String) (result : Option ServerRecord)
    → Answered true (inr user) (create_reply h key result)
create_reply-Answered h user key none =
    inl (500, "internal server error", broken user refl refl, refl, refl)
create_reply-Answered h user key (some server) = inr (inr (201, _, refl, refl, refl))

module _ {F : Type 0} (r : Request) where
  authenticated-Answered :
      (next : ℕ → Handler F) (who : Response ⊎ ℕ) (db : Database F)
      → RefusesSession who
      → ((user : ℕ) → Answered true (inr user) (next user r db).0)
      → Answered true who (authenticated next who r db).0
  authenticated-Answered next (inl refusal) db refuses answers = refuses
  authenticated-Answered next (inr user) db refuses answers = answers user

  -- What the rate limit does to an answer.
  pub limited-Answered :
      {T : Type 0} ⦃f : Floats T⦄
      → (now : ℕ) (next : Handler F) (who : Response ⊎ ℕ) (s : State T F)
      → Answered true who (next r s.store).0
      → Answered
          (allow now r.address s.action_rate_limiter).1.allowed
          who
          (rate_limit now next r s).0
  unfolding rate_limit
  limited-Answered now next who s answers =
      let (limiter, decision) = allow now r.address s.action_rate_limiter in
      elim (Bool-cases decision.allowed) [
        | inl lets ↦ rw lets answers
        | inr stops ↦ rw stops (inl (429, "rate limit exceeded", over_limit refl, refl, refl))
      ]

  module _ (h : Services) where
    pub delete-Answered :
        (db : Database F) → Answered true (authenticate_user h r) (delete_server h r db).0
    unfolding delete_server authenticate_user
    delete-Answered db =
        authenticated-Answered delete_as (session h r.session_cookie) db
          (session-RefusesSession h r.session_cookie)
          λ user. reply-Answered user 204 no_content _ (inl refl)

    rotate_as-Answered :
        (clock : ℕ) (generated : Option String) (db : Database F) (user : ℕ)
        → Answered true (inr user) (rotate_as h clock generated user r db).0
    rotate_as-Answered clock none db user =
        inl (500, "internal server error", broken user refl refl, refl, refl)
    rotate_as-Answered clock (some key) db user =
        reply-Answered user 200 (write_json 200 (data_of (agent_config h r.id key))) _
          (inr (200, _, refl, refl, refl))

    pub rotate-Answered :
        (clock : ℕ) (generated : Option String) (db : Database F)
        → Answered true (authenticate_user h r) (rotate_server_api_key h clock generated r db).0
    unfolding rotate_server_api_key authenticate_user
    rotate-Answered clock generated db =
        authenticated-Answered (rotate_as h clock generated) (session h r.session_cookie) db
          (session-RefusesSession h r.session_cookie) (rotate_as-Answered clock generated db)

    create_as-Answered :
        (clock : ℕ) (new_id generated : Option String) (name : String) (db : Database F) (user : ℕ)
        → Answered true (inr user) (create_as h clock new_id generated name user r db).0
    create_as-Answered clock (some new_id) (some key) name db user =
        create_reply-Answered h user key _
    create_as-Answered clock (some new_id) none name db user =
        inl (500, "internal server error", broken user refl refl, refl, refl)
    create_as-Answered clock none generated name db user =
        inl (500, "internal server error", broken user refl refl, refl, refl)

    create_named-Answered :
        (clock : ℕ) (new_id generated : Option String) (body : Body String) (db : Database F)
        (user : ℕ)
        → Answered true
            (inr user)
            (create_named h clock new_id generated (decode_json body) user r db).0
    unfolding decode_json
    create_named-Answered clock new_id generated not_json db user =
        inl (415, _, bad_type user refl refl, refl, refl)
    create_named-Answered clock new_id generated too_large db user =
        inl (413, _, long_body user refl refl, refl, refl)
    create_named-Answered clock new_id generated invalid db user =
        inl (400, _, bad_json user refl refl, refl, refl)
    create_named-Answered clock new_id generated (decoded given) db user =
        let name = h.trim_space given in
        elim (Bool-cases (ltb (h.len name) 2 || ltb 100 (h.len name))) [
          | inl wrong ↦ rw wrong (inl (400, _, bad_name user refl refl, refl, refl))
          | inr fits ↦ rw fits (create_as-Answered clock new_id generated name db user)
        ]

    pub create-Answered :
        (clock : ℕ) (new_id generated : Option String) (body : Body String) (db : Database F)
        → Answered true (authenticate_user h r) (create_server h clock new_id generated body r db).0
    unfolding create_server authenticate_user
    create-Answered clock new_id generated body db =
        authenticated-Answered (create_named h clock new_id generated (decode_json body))
          (session h r.session_cookie) db (session-RefusesSession h r.session_cookie)
          (create_named-Answered clock new_id generated body db)
