-- ===== src/Core/Store/Integrity/Steps.antt =====
-- Every call of the store keeps its tables sound.
use tarisya.Prelude.{
  ℕ, ◌+◌, String, Bool, ◌&&◌, none, some, List, [], ◌∷◌, ◌++◌, ◌≡◌, refl, ap, ◌∙◌, arith, str_eq,
  if◌then◌else◌, Bool-cases, inl, inr, ltb, leb,
}
use tarisya.Core.Sql.{exists, exists-map, exists_ext, All-append, All-map, All-select}
use tarisya.Core.Database.{ServerRow, MetricRow, Database}
use tarisya.Core.Store.{
  is_owned, user_owns_server, delete_server, revoke_api_key, save_metrics, create_server,
  rotate_api_key, revoke_keys, MetricsPayload, last_id, new_key, key_accepted, server_accepted,
}
use tarisya.Core.Store.Tables.{change_keeps, map-IsUnique, select-IsUnique}
use tarisya.Core.Store.Registry.{Command, step, run}
use tarisya.Core.Store.Integrity.{
  server_id_of, hash_of, IsSound, Refer-delete, Refer-append, Refer-map, fresh-IsUnique,
  revoked-Refer, revoked-IsUnique,
}

module _ {F : Type 0} (db : Database F) (sound : IsSound db) where
  delete-IsSound :
      (user_id : ℕ) (server_id : String) → IsSound (delete_server user_id server_id db).1
  unfolding delete_server
  delete-IsSound user_id server_id =
      elim (Bool-cases (exists (is_owned user_id server_id) db.servers)) [
        | inl gone ↦ rw gone record {
          servers_unique = select-IsUnique server_id_of _ db.servers sound.servers_unique;
          keys_unique = select-IsUnique hash_of _ db.keys sound.keys_unique;
          have_users = All-select _ _ db.servers sound.have_users;
          keys_refer = Refer-delete user_id server_id db.servers _ db.keys sound.keys_refer;
          metrics_refer =
              Refer-delete user_id server_id db.servers _ db.metrics sound.metrics_refer;
        }
        | inr kept ↦ rw kept sound
      ]

  revoke-IsSound :
      (now user_id : ℕ) (server_id : String) → IsSound (revoke_api_key now user_id server_id db).1
  unfolding revoke_api_key
  revoke-IsSound now user_id server_id = elim (Bool-cases (user_owns_server user_id server_id db)) [
    | inl owned ↦ rw owned record {
      servers_unique = sound.servers_unique;
      keys_unique = revoked-IsUnique now server_id db.keys sound.keys_unique;
      have_users = sound.have_users;
      keys_refer = revoked-Refer now server_id db.servers db.keys sound.keys_refer;
      metrics_refer = sound.metrics_refer;
    }
    | inr other ↦ rw other sound
  ]

  module _ (hash : String → String) where
    rotate-IsSound :
        (now user_id : ℕ) (server_id api_key : String)
        → IsSound (rotate_api_key hash now user_id server_id api_key db).1
    unfolding rotate_api_key
    rotate-IsSound now user_id server_id api_key =
        let key = new_key server_id (hash api_key) now in
        let keys = revoke_keys now server_id db.keys in
        elim (Bool-cases (user_owns_server user_id server_id db)) [
          | inl owned ↦ elim (Bool-cases (key_accepted key db.servers keys)) [
            | inl fresh ↦
                rw (owned, fresh)
                  record {
                    servers_unique = sound.servers_unique;
                    keys_unique =
                        fresh-IsUnique hash_of key keys (ground arith)
                          (revoked-IsUnique now server_id db.keys sound.keys_unique);
                    have_users = sound.have_users;
                    keys_refer =
                        All-append _ keys key
                          (revoked-Refer now server_id db.servers db.keys sound.keys_refer)
                          (ground arith);
                    metrics_refer = sound.metrics_refer;
                  }
            | inr clash ↦ rw (owned, clash) sound
          ]
          | inr other ↦ rw other sound
        ]

    create-IsSound :
        (now user_id : ℕ) (server_id name api_key : String)
        → IsSound (create_server hash now user_id server_id name api_key db).1
    unfolding create_server
    create-IsSound now user_id server_id name api_key =
        let row : ServerRow = record {
          id = server_id;
          user_id = user_id;
          name = name;
          hostname = none;
          agent_version = none;
          last_seen_at = none;
          created_at = now;
        } in
        let key = new_key server_id (hash api_key) now in
        let servers = db.servers ++ row ∷ [] in
        elim (Bool-cases (server_accepted row db && key_accepted key servers db.keys)) [
          | inl fresh ↦ rw fresh record {
            servers_unique =
                fresh-IsUnique server_id_of row db.servers (ground arith) sound.servers_unique;
            keys_unique = fresh-IsUnique hash_of key db.keys (ground arith) sound.keys_unique;
            have_users = All-append _ db.servers row sound.have_users (ground arith);
            keys_refer =
                All-append _ db.keys key (Refer-append _ db.servers row db.keys sound.keys_refer)
                  (ground arith);
            metrics_refer = Refer-append _ db.servers row db.metrics sound.metrics_refer;
          }
          | inr clash ↦ rw clash sound
        ]

  save-IsSound :
      (now max_size size : ℕ) (p : MetricsPayload F)
      → IsSound (save_metrics now max_size size p db).1
  unfolding save_metrics
  save-IsSound now max_size size p =
      let its : ServerRow → Bool = λ s. str_eq s.id p.server_id in
      let seen : ServerRow → ServerRow = λ s. record s {
        hostname = some p.hostname;
        agent_version = some p.agent_version;
        last_seen_at = some now;
      } in
      let row : MetricRow F = record {
        id = last_id db.metrics + 1;
        server_id = p.server_id;
        values = p.metrics;
        collected_at = p.timestamp;
      } in
      let same : (s : ServerRow) → (if its s then seen s else s).id ≡ s.id =
        λ s. change_keeps server_id_of (its s) (seen s) s refl in
      elim (Bool-cases (ltb 0 max_size && leb max_size size)) [
        | inl full ↦ rw full sound
        | inr room ↦ elim (Bool-cases (exists its db.servers)) [
          | inr missing ↦ rw (room, missing) sound
          | inl there ↦
              rw (room, there)
                record {
                  servers_unique = map-IsUnique server_id_of _ db.servers same sound.servers_unique;
                  keys_unique = sound.keys_unique;
                  have_users =
                      All-map _ _ db.servers
                        (λ s has. rw (change_keeps (λ s. s.user_id) (its s) (seen s) s refl) has)
                        sound.have_users;
                  keys_refer = Refer-map _ _ db.servers db.keys same sound.keys_refer;
                  metrics_refer =
                      All-append _ db.metrics row
                        (Refer-map _ _ db.servers db.metrics same sound.metrics_refer)
                        (exists-map _ _ db.servers
                          ∙ exists_ext _ _ db.servers
                              (λ s. ap (λ id. str_eq id p.server_id) (same s))
                          ∙ there);
                }
        ]
      ]

-- Each command keeps the tables sound.
module _ {F : Type 0} (hash : String → String) where
  pub step-IsSound : (c : Command F) (db : Database F) → IsSound db → IsSound (step hash c db).1
  unfolding step
  step-IsSound (Command.create now user_id server_id name api_key) db sound =
      create-IsSound db sound hash now user_id server_id name api_key
  step-IsSound (Command.delete user_id server_id) db sound =
      delete-IsSound db sound user_id server_id
  step-IsSound (Command.rotate now user_id server_id api_key) db sound =
      rotate-IsSound db sound hash now user_id server_id api_key
  step-IsSound (Command.revoke now user_id server_id) db sound =
      revoke-IsSound db sound now user_id server_id
  step-IsSound (Command.owns user_id server_id) db sound = sound
  step-IsSound (Command.authenticate server_id api_key) db sound = sound
  step-IsSound (Command.save now max_size size payload) db sound =
      save-IsSound db sound now max_size size payload

  -- From sound tables, where identifiers and hashes are unique and every row that is referred to is
  -- there, any calls of the store lead to sound tables.
  pub run-IsSound :
      (commands : List (Command F)) (db : Database F)
      → IsSound db
      → IsSound (run hash commands db).1
  unfolding run
  run-IsSound [] db sound = sound
  run-IsSound (c ∷ commands) db sound =
      run-IsSound commands (step hash c db).1 (step-IsSound c db sound)
