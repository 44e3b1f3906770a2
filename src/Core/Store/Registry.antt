-- ===== src/Core/Store/Registry.antt =====
-- What the store promises on servers and their API keys, without its tables: who owns a server, and
-- for each hash of a key that was ever given out, whose key it is and whether it is still accepted.
-- Commands change the registry or ask it, and are answered.
use tarisya.Prelude.{
  ℕ, String, Bool, true, false, ◌&&◌, Option, none, some, List, [], ◌∷◌, ◌==◌, str_eq,
  if◌then◌else◌, ltb, leb,
}
use tarisya.Core.Database.{Database}
use tarisya.Core.Store.{
  MetricsPayload, SaveError, is_none, user_owns_server, delete_server, revoke_api_key, save_metrics,
  create_server, rotate_api_key, api_key_valid, ServerRecord,
}
use tarisya.Core.Store.Tables.{holds}

-- A call of the store, with the time at which it is made where the store asks for it, and the
-- greatest and the actual size of the file where it compares them.
pub data Command (F : Type 0) : Type 0 where
  create : (now user_id : ℕ) → (server_id name api_key : String) → Command F
  delete : (user_id : ℕ) → (server_id : String) → Command F
  rotate : (now user_id : ℕ) → (server_id api_key : String) → Command F
  revoke : (now user_id : ℕ) → (server_id : String) → Command F
  owns : (user_id : ℕ) → (server_id : String) → Command F
  authenticate : (server_id api_key : String) → Command F
  save : (now max_size size : ℕ) → MetricsPayload F → Command F

pub data Answer : Type 0 where
  accepted : Answer
  not_found : Answer
  refused : Answer
  full : Answer

abbrev pub asked : Bool → Answer
asked true = Answer.accepted
asked false = Answer.not_found

abbrev pub changed : Option Bool → Answer
changed none = Answer.refused
changed (some b) = asked b

abbrev pub created : Option ServerRecord → Answer
created none = Answer.refused
created (some server) = Answer.accepted

abbrev pub saved : Option SaveError → Answer
saved none = Answer.accepted
saved (some SaveError.database_full) = Answer.full
saved (some SaveError.constraint) = Answer.refused

pub record KeyState : Type 0 where
  pub server_id : String
  pub is_active : Bool

pub record Registry : Type 0 where
  pub has_user : ℕ → Bool
  pub owner : String → Option ℕ
  pub key : String → Option KeyState

abbrev pub owned_by : ℕ → String → Registry → Bool
owned_by user_id server_id r = holds (λ owner. owner == user_id) (r.owner server_id)

abbrev pub put {ℓ} : {A : Type ℓ} → String → A → (String → A) → String → A
put at a f k = if str_eq at k then a else f k

abbrev pub retired : String → Option KeyState → Option KeyState
retired server_id none = none
retired server_id (some k) =
    some (if str_eq k.server_id server_id then record k { is_active = false } else k)

abbrev pub dropped : String → Option KeyState → Option KeyState
dropped server_id none = none
dropped server_id (some k) = if str_eq k.server_id server_id then none else some k

module _ {F : Type 0} (hash : String → String) where
  -- The store's answer to a command.
  unfoldable pub step : Command F → Database F → Answer × Database F
  step (Command.create now user_id server_id name api_key) db =
      let (result, next) = create_server hash now user_id server_id name api_key db in
      (created result, next)
  step (Command.delete user_id server_id) db =
      let (result, next) = delete_server user_id server_id db in (changed result, next)
  step (Command.rotate now user_id server_id api_key) db =
      let (result, next) = rotate_api_key hash now user_id server_id api_key db in
      (changed result, next)
  step (Command.revoke now user_id server_id) db =
      let (result, next) = revoke_api_key now user_id server_id db in (changed result, next)
  step (Command.owns user_id server_id) db = (asked (user_owns_server user_id server_id db), db)
  step (Command.authenticate server_id api_key) db =
      (asked (api_key_valid hash server_id api_key db), db)
  step (Command.save now max_size size payload) db =
      let (result, next) = save_metrics now max_size size payload db in (saved result, next)

  -- What the answer and the change are to be.
  unfoldable pub described : Command F → Registry → Answer × Registry
  described (Command.create now user_id server_id name api_key) r =
      if r.has_user user_id && is_none (r.owner server_id) && is_none (r.key (hash api_key))
      then (
        Answer.accepted,
        record r {
          owner = put server_id (some user_id) r.owner;
          key = put (hash api_key) (some record { server_id = server_id; is_active = true }) r.key;
        },
      )
      else (Answer.refused, r)
  described (Command.delete user_id server_id) r =
      if owned_by user_id server_id r
      then (
        Answer.accepted,
        record r { owner = put server_id none r.owner; key = λ k. dropped server_id (r.key k) },
      )
      else (Answer.not_found, r)
  described (Command.rotate now user_id server_id api_key) r =
      if owned_by user_id server_id r
      then if is_none (r.key (hash api_key))
        then (
          Answer.accepted,
          record r {
            key =
                put (hash api_key) (some record { server_id = server_id; is_active = true })
                  (λ k. retired server_id (r.key k));
          },
        )
        else (Answer.refused, r)
      else (Answer.not_found, r)
  described (Command.revoke now user_id server_id) r =
      if owned_by user_id server_id r
      then (Answer.accepted, record r { key = λ k. retired server_id (r.key k) })
      else (Answer.not_found, r)
  described (Command.owns user_id server_id) r = (asked (owned_by user_id server_id r), r)
  described (Command.authenticate server_id api_key) r =
      (asked (holds (λ k. str_eq k.server_id server_id && k.is_active) (r.key (hash api_key))), r)
  described (Command.save now max_size size payload) r =
      if ltb 0 max_size && leb max_size size
      then (Answer.full, r)
      else (if is_none (r.owner payload.server_id) then Answer.refused else Answer.accepted, r)

  unfoldable pub run : List (Command F) → Database F → List Answer × Database F
  run [] db = ([], db)
  run (c ∷ commands) db =
      let (answer, next) = step c db in
      let (answers, last) = run commands next in (answer ∷ answers, last)

  unfoldable pub described_run : List (Command F) → Registry → List Answer × Registry
  described_run [] r = ([], r)
  described_run (c ∷ commands) r =
      let (answer, next) = described c r in
      let (answers, last) = described_run commands next in (answer ∷ answers, last)
