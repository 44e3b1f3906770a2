-- ===== src/Core/Store/Refinement.antt =====
-- The tables implement the registry: every call of the store is answered as it describes.
use tarisya.Prelude.{
  ℕ, String, true, false, ◌&&◌, none, List, [], ◌∷◌, ◌++◌, ◌≡◌, refl, sym, ap, ◌∙◌, arith, ◌==◌,
  str_eq, Bool-cases, inl, inr, eq_refl, ltb, leb,
}
use tarisya.Core.Sql.{exists, exists-append}
use tarisya.Core.Database.{ServerRow, Database}
use tarisya.Core.Store.{
  is_none, is_owned, user_owns_server, delete_server, revoke_api_key, save_metrics, create_server,
  rotate_api_key, api_key_valid, revoke_keys, MetricsPayload, new_key, key_accepted,
  server_accepted,
}
use tarisya.Core.Store.Tables.{lookup, exists-is_none, is_none-map, fresh_lookup}
use tarisya.Core.Store.Registry.{Command, Answer, Registry, step, described, run, described_run}
use tarisya.Core.Store.Integrity.{server_id_of, hash_of, IsSound}
use tarisya.Core.Store.Integrity.Steps.{step-IsSound}
use tarisya.Core.Store.View.{key_state, owner_in, key_in, view}
use tarisya.Core.Store.View.Servers.{
  owned_lem, owner_in-delete, owner_in-append, free_server, owned_exists, owner_in-update,
}
use tarisya.Core.Store.View.Keys.{
  key_in-delete, key_in-revoke, key_in-append, valid_lem, free_key, free_revoked, key_in-rotate,
}

module _ {F : Type 0} (hash : String → String) where
  -- What is seen of a command.
  abbrev pub seen : Answer × Database F → Answer × Registry
  seen (answer, db) = (answer, view db)

  abbrev pub Simulates : Command F → Database F → Type 0
  Simulates c db = seen (step hash c db) ≡ described hash c (view db)

  module _ (db : Database F) (sound : IsSound db) where
    delete_refines :
        (user_id : ℕ) (server_id : String) → Simulates (Command.delete user_id server_id) db
    unfolding step described delete_server
    delete_refines user_id server_id =
        let is = owned_lem user_id server_id db.servers sound.servers_unique in
        elim (Bool-cases (exists (is_owned user_id server_id) db.servers)) [
          | inl owned ↦
              rw
                (
                  owned,
                  sym is ∙ owned,
                  owner_in-delete user_id server_id db.servers sound.servers_unique owned,
                  key_in-delete server_id db.keys sound.keys_unique,
                )
                refl
          | inr other ↦ rw (other, sym is ∙ other) refl
        ]

    revoke_refines :
        (now user_id : ℕ) (server_id : String) → Simulates (Command.revoke now user_id server_id) db
    unfolding step described revoke_api_key user_owns_server
    revoke_refines now user_id server_id =
        let is = owned_lem user_id server_id db.servers sound.servers_unique in
        elim (Bool-cases (exists (is_owned user_id server_id) db.servers)) [
          | inl owned ↦ rw (owned, sym is ∙ owned, key_in-revoke now server_id db.keys) refl
          | inr other ↦ rw (other, sym is ∙ other) refl
        ]

    rotate_refines :
        (now user_id : ℕ) (server_id api_key : String)
        → Simulates (Command.rotate now user_id server_id api_key) db
    unfolding step described rotate_api_key user_owns_server
    rotate_refines now user_id server_id api_key =
        let is = owned_lem user_id server_id db.servers sound.servers_unique in
        let keys = revoke_keys now server_id db.keys in
        let key = new_key server_id (hash api_key) now in
        elim (Bool-cases (exists (is_owned user_id server_id) db.servers)) [
          | inl owned ↦
              let stays = owned_exists user_id server_id db.servers owned in
              let clash = free_revoked now server_id (hash api_key) db.keys in
              let free : key_accepted key db.servers keys
                  ≡ is_none (key_in db.keys (hash api_key)) =
                rw (stays, clash) (ground (arith, free_key (hash api_key) db.keys)) in
              elim (Bool-cases (is_none (key_in db.keys (hash api_key)))) [
                | inl fresh ↦
                    rw
                      (
                        owned,
                        sym is ∙ owned,
                        free,
                        fresh,
                        key_in-rotate now server_id (hash api_key) db.keys fresh,
                      )
                      refl
                | inr taken ↦ rw (owned, sym is ∙ owned, free, taken) refl
              ]
          | inr other ↦ rw (other, sym is ∙ other) refl
        ]

    create_refines :
        (now user_id : ℕ) (server_id name api_key : String)
        → Simulates (Command.create now user_id server_id name api_key) db
    unfolding step described create_server
    create_refines now user_id server_id name api_key =
        let row : ServerRow = record {
          id = server_id;
          user_id = user_id;
          name = name;
          hostname = none;
          agent_version = none;
          last_seen_at = none;
          created_at = now;
        } in
        let key = new_key server_id (hash api_key) now in
        let has = exists (λ u. u.id == user_id) db.users in
        let servers = db.servers ++ row ∷ [] in
        let there : exists (λ s. str_eq s.id server_id) servers ≡ true =
          exists-append _ db.servers (row ∷ []) ∙ grind (arith, eq_refl) in
        let free : (server_accepted row db && key_accepted key servers db.keys) ≡ (
            has
            && is_none (owner_in db.servers server_id)
            && is_none (key_in db.keys (hash api_key))) =
          rw (there, free_server server_id db.servers, free_key (hash api_key) db.keys)
            (ground arith) in
        elim (Bool-cases (
          has
          && is_none (owner_in db.servers server_id)
          && is_none (key_in db.keys (hash api_key)))) [
            | inl fresh ↦
                let no_server =
                  fresh_lookup server_id_of (λ s. s.user_id) server_id db.servers (ground arith) in
                let no_key = fresh_lookup hash_of key_state (hash api_key) db.keys (ground arith) in
                rw
                  (
                    free,
                    fresh,
                    owner_in-append row db.servers no_server,
                    key_in-append key db.keys no_key,
                  )
                  refl
            | inr taken ↦ rw (free, taken) refl
          ]

    save_refines :
        (now max_size size : ℕ) (payload : MetricsPayload F)
        → Simulates (Command.save now max_size size payload) db
    unfolding step described save_metrics
    save_refines now max_size size payload =
        let id = payload.server_id in
        let there = exists-is_none server_id_of id db.servers in
        let is = is_none-map (λ s. s.user_id) (lookup server_id_of id db.servers) in
        elim (Bool-cases (ltb 0 max_size && leb max_size size)) [
          | inl full ↦ rw full refl
          | inr room ↦ elim (Bool-cases (is_none (owner_in db.servers id))) [
            | inl missing ↦
                let gone : exists (λ s. str_eq s.id id) db.servers ≡ false = ground arith in
                rw (room, gone, missing) refl
            | inr known ↦
                let found : exists (λ s. str_eq s.id id) db.servers ≡ true = ground arith in
                let same = owner_in-update now payload db.servers in
                rw (room, found, known, same) refl
          ]
        ]

    owns_refines :
        (user_id : ℕ) (server_id : String) → Simulates (Command.owns user_id server_id) db
    unfolding step described user_owns_server
    owns_refines user_id server_id =
        rw (owned_lem user_id server_id db.servers sound.servers_unique) refl

    authenticate_refines :
        (server_id api_key : String) → Simulates (Command.authenticate server_id api_key) db
    unfolding step described api_key_valid
    authenticate_refines server_id api_key =
        rw (valid_lem server_id (hash api_key) db.keys sound.keys_unique) refl

  pub step_refines : (c : Command F) (db : Database F) → IsSound db → Simulates c db
  step_refines (Command.create now user_id server_id name api_key) db sound =
      create_refines db sound now user_id server_id name api_key
  step_refines (Command.delete user_id server_id) db sound =
      delete_refines db sound user_id server_id
  step_refines (Command.rotate now user_id server_id api_key) db sound =
      rotate_refines db sound now user_id server_id api_key
  step_refines (Command.revoke now user_id server_id) db sound =
      revoke_refines db sound now user_id server_id
  step_refines (Command.owns user_id server_id) db sound = owns_refines db sound user_id server_id
  step_refines (Command.authenticate server_id api_key) db sound =
      authenticate_refines db sound server_id api_key
  step_refines (Command.save now max_size size payload) db sound =
      save_refines db sound now max_size size payload

  -- From sound tables, where identifiers and hashes are unique and every row that is referred to is
  -- there, any calls of the store are answered as the registry describes, and leave what it
  -- describes.
  pub run_refines :
      (commands : List (Command F)) (db : Database F)
      → IsSound db
      → let (answers, last) = run hash commands db in
        (answers, view last) ≡ described_run hash commands (view db)
  unfolding run described_run
  run_refines [] db sound = refl
  run_refines (c ∷ commands) db sound =
      let once = step_refines c db sound in
      let rest = run_refines commands (step hash c db).1 (step-IsSound hash c db sound) in
      ap (λ (answers, last). ((step hash c db).0 ∷ answers, last)) rest
      ∙ ap
          (λ (answer, next).
            let (answers, last) = described_run hash commands next in (answer ∷ answers, last))
          once
