-- ===== src/Core/Http/Console/Success.antt =====
-- What the handlers have done where they answer with success.
use tarisya.Prelude.{
  ℕ, String, Bool, true, false, ◌&&◌, ◌||◌, Option, none, some, [], ◌∷◌, ◌++◌, ◌≡◌, refl, sym, ap,
  ◌∙◌, ltb, str_eq, ◌⊎◌, inl, inr, Bool-cases,
}
use tarisya.Json.{Json}
use tarisya.ApiClient.{resolved}
use tarisya.Core.RateLimit.{Floats, allow}
use tarisya.Core.Database.{ServerRow, Database}
use tarisya.Core.Store.{
  ServerRecord, user_owns_server, api_key_valid, server_accepted, key_accepted, new_key,
}
use tarisya.Core.Store
use tarisya.Core.Store.Registry.{Command, Answer, step, changed, created}
use tarisya.Core.Http.{
  Response, Request, State, Services, Handler, reply, agent_config, data_of, write_json, no_content,
  authenticate_user, authenticated, Body, decode_json, create_reply, create_named, created_json,
  create_as, rate_limit, delete_as, parsed, session, rotate_as,
}
use tarisya.Core.Http.Console.{is_success}

-- A refusal is no success.
abbrev pub IsRefusal : Response ⊎ ℕ → Type 0
IsRefusal (inl refusal) = is_success refusal.status ≡ false
IsRefusal (inr user_id) = Unit

parsed-IsRefusal : (found : Option ℕ) → IsRefusal (parsed found)
parsed-IsRefusal none = refl
parsed-IsRefusal (some user_id) = tt

session-IsRefusal : (h : Services) (cookie : Option String) → IsRefusal (session h cookie)
session-IsRefusal h none = refl
session-IsRefusal h (some value) = elim (Bool-cases (str_eq value "")) [
  | inl blank ↦ rw blank refl
  | inr given ↦ rw given (parsed-IsRefusal (h.parse value))
]

pub authenticate_user-IsRefusal : (h : Services) (r : Request) → IsRefusal (authenticate_user h r)
unfolding authenticate_user
authenticate_user-IsRefusal h r = session-IsRefusal h r.session_cookie

-- A change that was made.
reply_success :
    (response : Response) (result : Option Bool)
    → is_success (reply response result).status ≡ true
    → result ≡ some true
reply_success response none success = let wrong : false ≡ true = success in cc
reply_success response (some false) success = let wrong : false ≡ true = success in cc
reply_success response (some true) success = refl

pub resolved_inj : (v w : Option Json) → resolved v ≡ resolved w → v ≡ w
resolved_inj v w same = cc

some_inj : (a b : Bool) → some a ≡ some b → a ≡ b
some_inj a b same = cc

create_reply_success :
    (h : Services) (key server_id : String) (result : Option ServerRecord)
    → ((server : ServerRecord) → result ≡ some server → server.id ≡ server_id)
    → is_success (create_reply h key result).status ≡ true
    → (server : ServerRecord) × (result ≡ some server)
      × (create_reply h key result ≡ write_json 201 (data_of (created_json h key server)))
      × (server.id ≡ server_id)
create_reply_success h key server_id none names success = let wrong : false ≡ true = success in cc
create_reply_success h key server_id (some server) names success =
    (server, refl, refl, names server refl)

some_server_inj : (a b : ServerRecord) → some a ≡ some b → a ≡ b
some_server_inj a b same = cc

module _ {F : Type 0} (h : Services) where
  pub limited_success :
      {T : Type 0} ⦃f : Floats T⦄
      → (now : ℕ) (next : Handler F) (r : Request) (s : State T F)
      → is_success (rate_limit now next r s).0.status ≡ true
      → ((rate_limit now next r s).0 ≡ (next r s.store).0)
        × ((rate_limit now next r s).1.store ≡ (next r s.store).1)
        × (is_success (next r s.store).0.status ≡ true)
  unfolding rate_limit
  limited_success now next r s success =
      let (limiter, decision) = allow now r.address s.action_rate_limiter in
      elim (Bool-cases decision.allowed) [
        | inl allowed ↦ (rw allowed refl, rw allowed refl, rw allowed at success)
        | inr refused ↦ let wrong = rw refused at success in cc
      ]

  pub authenticated_success :
      (next : ℕ → Handler F) (who : Response ⊎ ℕ) (r : Request) (db : Database F)
      → IsRefusal who
      → is_success (authenticated next who r db).0.status ≡ true
      → (user_id : ℕ) × (who ≡ inr user_id) × (is_success (next user_id r db).0.status ≡ true)
  authenticated_success next (inl refusal) r db refused success =
      let wrong = sym refused ∙ success in cc
  authenticated_success next (inr user_id) r db tt success = (user_id, refl, success)

  pub rotate_success :
      (now user_id : ℕ) (generated : Option String) (r : Request) (db : Database F)
      → is_success (rotate_as h now generated user_id r db).0.status ≡ true
      → (key : String) × (generated ≡ some key)
        × ((rotate_as h now generated user_id r db).0
            ≡ write_json 200 (data_of (agent_config h r.id key)))
        × ((step h.hash_api_key (Command.rotate now user_id r.id key) db).0 ≡ Answer.accepted)
        × ((rotate_as h now generated user_id r db).1
            ≡ (step h.hash_api_key (Command.rotate now user_id r.id key) db).1)
  unfolding step
  rotate_success now user_id none r db success = let wrong : false ≡ true = success in cc
  rotate_success now user_id (some key) r db success =
      let response = write_json 200 (data_of (agent_config h r.id key)) in
      let done =
        reply_success response (Store.rotate_api_key h.hash_api_key now user_id r.id key db).0
          success in
      (key, refl, ap (reply response) done, ap changed done, refl)

  pub delete_success :
      (user_id : ℕ) (r : Request) (db : Database F)
      → is_success (reply no_content (Store.delete_server user_id r.id db).0).status ≡ true
      → (reply no_content (Store.delete_server user_id r.id db).0 ≡ no_content)
        × ((step h.hash_api_key (Command.delete user_id r.id) db).0 ≡ Answer.accepted)
        × ((delete_as user_id r db).1 ≡ (step h.hash_api_key (Command.delete user_id r.id) db).1)
        × (user_owns_server user_id r.id db ≡ true)
  unfolding step Store.delete_server user_owns_server
  delete_success user_id r db success =
      let done = reply_success no_content (Store.delete_server user_id r.id db).0 success in
      (ap (reply no_content) done, ap changed done, refl, some_inj _ true done)

  created_id :
      (now user_id : ℕ) (server_id name key : String) (db : Database F) (server : ServerRecord)
      → (Store.create_server h.hash_api_key now user_id server_id name key db).0 ≡ some server
      → server.id ≡ server_id
  unfolding Store.create_server
  created_id now user_id server_id name key db server made =
      let row : ServerRow = record {
        id = server_id;
        user_id = user_id;
        name = name;
        hostname = none;
        agent_version = none;
        last_seen_at = none;
        created_at = now;
      } in
      let new = new_key server_id (h.hash_api_key key) now in
      elim (Bool-cases
        (server_accepted row db && key_accepted new (db.servers ++ row ∷ []) db.keys)) [
          | inl fresh ↦
              let is = rw fresh at made in ap (λ s. s.id) (sym (some_server_inj _ server is))
          | inr clash ↦ let wrong = rw clash at made in cc
        ]

  -- A server that was made.
  pub record Made (now user_id : ℕ) (new_id generated : Option String) (db : Database F)
      (outcome : Response × Database F) : Type 0 where
    pub server_id : String
    pub key : String
    pub name : String
    pub server : ServerRecord
    pub drawn_id : new_id ≡ some server_id
    pub drawn_key : generated ≡ some key
    pub answer : outcome.0 ≡ write_json 201 (data_of (created_json h key server))
    pub names : server.id ≡ server_id
    pub done :
        (step h.hash_api_key (Command.create now user_id server_id name key) db).0 ≡ Answer.accepted
    pub leaves :
        outcome.1 ≡ (step h.hash_api_key (Command.create now user_id server_id name key) db).1

  create_as_success :
      (now user_id : ℕ) (new_id generated : Option String) (name : String) (r : Request)
      (db : Database F)
      → is_success (create_as h now new_id generated name user_id r db).0.status ≡ true
      → Made now user_id new_id generated db (create_as h now new_id generated name user_id r db)
  unfolding step
  create_as_success now user_id (some server_id) (some key) name r db success =
      let result = (Store.create_server h.hash_api_key now user_id server_id name key db).0 in
      let (server, made, says, names) =
        create_reply_success h key server_id result (created_id now user_id server_id name key db)
          success in
      record {
        server_id = server_id;
        key = key;
        name = name;
        server = server;
        drawn_id = refl;
        drawn_key = refl;
        answer = says;
        names = names;
        done = ap created made;
        leaves = refl;
      }
  create_as_success now user_id (some server_id) none name r db success =
      let wrong : false ≡ true = success in cc
  create_as_success now user_id none generated name r db success =
      let wrong : false ≡ true = success in cc

  pub create_success :
      (now user_id : ℕ) (new_id generated : Option String) (body : Body String) (r : Request)
      (db : Database F)
      → is_success (create_named h now new_id generated (decode_json body) user_id r db).0.status
        ≡ true
      → Made now user_id new_id generated db
          (create_named h now new_id generated (decode_json body) user_id r db)
  unfolding decode_json
  create_success now user_id new_id generated Body.not_json r db success =
      let wrong : false ≡ true = success in cc
  create_success now user_id new_id generated Body.too_large r db success =
      let wrong : false ≡ true = success in cc
  create_success now user_id new_id generated Body.invalid r db success =
      let wrong : false ≡ true = success in cc
  create_success now user_id new_id generated (Body.decoded given) r db success =
      let size = h.len (h.trim_space given) in
      elim (Bool-cases (ltb size 2 || ltb 100 size)) [
        | inl refused ↦ let wrong = rw refused at success in cc
        | inr fits ↦ rw fits (
            create_as_success now user_id new_id generated (h.trim_space given) r db
              (rw fits at success))
      ]
