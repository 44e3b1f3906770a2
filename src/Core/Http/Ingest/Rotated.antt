-- ===== src/Core/Http/Ingest/Rotated.antt =====
-- An agent after its server's key was changed.
use tarisya.Prelude.{
  ℕ, Bool, true, false, ◌&&◌, String, Option, none, some, List, [], ◌∷◌, ◌≡◌, refl, sym, ltb, leb,
  str_eq, if◌then◌else◌, eq_iff, Bool-cases, inl, inr, All,
}
use tarisya.Core.Sql.{exists}
use tarisya.Core.Database.{ServerRow, KeyRow, Database}
use tarisya.Core.Store.{api_key_valid, save_metrics, MetricsPayload, is_none}
use tarisya.Core.Store.Tables.{holds}
use tarisya.Core.Store.Registry.{Command, Answer, step, run}
use tarisya.Core.Store.Integrity.{IsSound, Refer}
use tarisya.Core.Store.Integrity.Steps.{step-IsSound, run-IsSound}
use tarisya.Core.Store.Others.{IsOther, renew}
use tarisya.Core.Store.Keys.{renewed}
use tarisya.Core.Http.{Services, decoded, decode_json}
use tarisya.Core.Http.Ingest.{
  Checks, Received, bearer_token, validate_payload, save_for, receive_metrics, saved_reply,
}

-- A key that is accepted is of a server that is there.
key_has_server :
    (server_id hash : String) (servers : List ServerRow) (keys : List KeyRow)
    → Refer (λ k. k.server_id) servers keys
    → exists
        (λ k. str_eq k.server_id server_id && str_eq k.api_key_hash hash && is_none k.revoked_at)
        keys
      ≡ true
    → exists (λ s. str_eq s.id server_id) servers ≡ true
key_has_server server_id hash servers [] refer found = let wrong : false ≡ true = found in cc
key_has_server server_id hash servers (k ∷ keys) (there, refer) found =
    elim (Bool-cases (str_eq k.server_id server_id)) [
      | inl its ↦ rw (sym ((eq_iff k.server_id server_id).0 its)) there
      | inr other ↦ key_has_server server_id hash servers keys refer (rw other at found)
    ]

module _ {F : Type 0} (h : Services) (c : Checks F) where
  -- Of a payload that is valid, with a token, the store's answer decides.
  valid_received :
      (clock now max_size size : ℕ) (received : Received F) (header token : String)
      (db : Database F)
      → validate_payload h c clock received ≡ none
      → bearer_token h c header ≡ some token
      → receive_metrics h c clock now max_size size (decoded received) header db
        ≡ save_for h c now max_size size received (some token) db
  unfolding receive_metrics decode_json
  valid_received clock now max_size size received header token db valid bearer =
      rw (valid, bearer) refl

  stored :
      (now max_size size : ℕ) (p : MetricsPayload F) (db : Database F)
      → exists (λ s. str_eq s.id p.server_id) db.servers ≡ true
      → (saved_reply h c (save_metrics now max_size size p db).0).status
        ≡ (if ltb 0 max_size && leb max_size size then 507 else 202)
  unfolding save_metrics
  stored now max_size size p db there = elim (Bool-cases (ltb 0 max_size && leb max_size size)) [
    | inl full ↦ rw full refl
    | inr room ↦ rw (room, there) refl
  ]

  -- The store's answer by the key.
  decided :
      (now max_size size : ℕ) (received : Received F) (token : String) (db : Database F)
      (valid : Bool)
      → IsSound db
      → api_key_valid h.hash_api_key received.payload.server_id token db ≡ valid
      → let (response, after) = save_for h c now max_size size received (some token) db in
        (response.status
          ≡ (if valid then if ltb 0 max_size && leb max_size size then 507 else 202 else 401))
        × (after ≡ (if valid then after else db))
  unfolding api_key_valid
  decided now max_size size received token db true sound is =
      let there =
        key_has_server received.payload.server_id (h.hash_api_key token) db.servers db.keys
          sound.keys_refer is in
      rw is (stored now max_size size received.payload db there, refl)
  decided now max_size size received token db false sound is = rw is (refl, refl)

  -- From sound tables, once a user's call to replace the key of a server, or to take it away, is
  -- accepted, and until the user deletes the server or changes its keys again, whatever other users
  -- call: a valid payload for the server is answered with 202, or with 507 where the file has
  -- reached its greatest size, if its token has the hash of the new key, and else with 401, and the
  -- tables are left as they are.
  pub rotated_agent :
      (user_id clock now max_size size : ℕ) (key : Option String) (others : List (Command F))
      (db : Database F) (received : Received F) (header token : String)
      → let hash = h.hash_api_key in
        let server_id = received.payload.server_id in
        let change : Command F = renew now user_id server_id key in
        IsSound db
        → (step hash change db).0 ≡ Answer.accepted
        → All (IsOther user_id server_id) others
        → validate_payload h c clock received ≡ none
        → bearer_token h c header ≡ some token
        → let last = (run hash others (step hash change db).1).1 in
          let (response, after) =
            receive_metrics h c clock now max_size size (decoded received) header last in
          let its = holds (λ k. str_eq (hash k) (hash token)) key in
          (response.status
            ≡ (if its then if ltb 0 max_size && leb max_size size then 507 else 202 else 401))
          × (after ≡ (if its then after else last))
  rotated_agent user_id clock now max_size size key others db received header token sound done other
        valid bearer =
      let hash = h.hash_api_key in
      let server_id = received.payload.server_id in
      let change : Command F = renew now user_id server_id key in
      let next = (step hash change db).1 in
      let last = (run hash others next).1 in
      let sound_last = run-IsSound hash others next (step-IsSound hash change db sound) in
      let is = renewed hash user_id server_id now key others db sound done other token in
      rw (valid_received clock now max_size size received header token last valid bearer)
        (decided now max_size size received token last _ sound_last is)
