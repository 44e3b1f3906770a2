-- ===== src/Core/Store/Keys.antt =====
-- Who can reach a server in the store: its owner and the holders of its keys, whatever others do.
use tarisya.Prelude.{
  ℕ, String, true, false, ◌&&◌, Option, none, some, List, ◌≡◌, refl, sym, ap, ◌∙◌, arith, str_eq,
  Bool-cases, inl, inr, All, eq_refl, ==_iff,
}
use tarisya.Core.Database.{Database}
use tarisya.Core.Store.{is_none, user_owns_server, api_key_valid}
use tarisya.Core.Store.Tables.{holds}
use tarisya.Core.Store.Registry.{
  Command, Answer, KeyState, Registry, owned_by, dropped, step, described, run, described_run,
}
use tarisya.Core.Store.Integrity.{IsSound}
use tarisya.Core.Store.Integrity.Steps.{step-IsSound, run-IsSound}
use tarisya.Core.Store.View.{view}
use tarisya.Core.Store.View.Servers.{owned_lem}
use tarisya.Core.Store.View.Keys.{valid_lem}
use tarisya.Core.Store.Refinement.{step_refines, run_refines}
use tarisya.Core.Store.Others.{IsOther, renew, accepts, renews, others_keep_run}

module _ {F : Type 0} (hash : String → String) (user_id : ℕ) (server_id : String) where
  owns_view :
      (db : Database F)
      → IsSound db
      → user_owns_server user_id server_id db ≡ owned_by user_id server_id (view db)
  unfolding user_owns_server
  owns_view db sound = owned_lem user_id server_id db.servers sound.servers_unique

  valid_view :
      (key : String) (db : Database F)
      → IsSound db
      → api_key_valid hash server_id key db ≡ accepts server_id ((view db).key (hash key))
  unfolding api_key_valid
  valid_view key db sound = valid_lem server_id (hash key) db.keys sound.keys_unique

  -- From sound tables, calls of the store by which the owner of a server neither deletes it nor
  -- changes its keys leave the server to its owner, and the keys that are accepted for it as they
  -- are, whatever other users call.
  pub untouched :
      (commands : List (Command F)) (db : Database F)
      → IsSound db
      → user_owns_server user_id server_id db ≡ true
      → All (IsOther user_id server_id) commands
      → let last = (run hash commands db).1 in
        (user_owns_server user_id server_id last ≡ true)
        × ((key : String)
            → api_key_valid hash server_id key last ≡ api_key_valid hash server_id key db)
  untouched commands db sound mine others =
      let last = (run hash commands db).1 in
      let same : view last ≡ (described_run hash commands (view db)).1 =
        ap (λ (answers, r). r) (run_refines hash commands db sound) in
      let sound_last = run-IsSound hash commands db sound in
      let kept =
        others_keep_run hash user_id server_id commands (view db) (sym (owns_view db sound) ∙ mine)
          others in
      (
        owns_view last sound_last ∙ ap (owned_by user_id server_id) same ∙ kept.owned,
        λ key.
            valid_view key last sound_last
            ∙ ap (λ r. accepts server_id (r.key (hash key))) same
            ∙ kept.keys (hash key)
            ∙ sym (valid_view key db sound),
      )

  -- From sound tables, once a user's call to replace the key of a server, or to take it away, is
  -- accepted, and until the user deletes the server or changes its keys again, whatever other users
  -- call: exactly the keys that have the new key's hash are accepted for the server, or none.
  pub renewed :
      (now : ℕ) (key : Option String) (others : List (Command F)) (db : Database F)
      → IsSound db
      → let c : Command F = renew now user_id server_id key in
        (step hash c db).0 ≡ Answer.accepted
        → All (IsOther user_id server_id) others
        → (tried : String)
        → api_key_valid hash server_id tried (run hash others (step hash c db).1).1
          ≡ holds (λ k. str_eq (hash k) (hash tried)) key
  renewed now key others db sound done other tried =
      let c : Command F = renew now user_id server_id key in
      let next = (step hash c db).1 in
      let same = step_refines hash c db sound in
      let sound_next = step-IsSound hash c db sound in
      let is =
        renews F hash user_id server_id now key (view db)
          (sym (ap (λ (answer, r). answer) same) ∙ done) in
      let shown : view next ≡ (described hash c (view db)).1 = ap (λ (answer, r). r) same in
      let mine = owns_view next sound_next ∙ ap (owned_by user_id server_id) shown ∙ is.0 in
      (untouched others next sound_next mine other).1 tried
      ∙ valid_view tried next sound_next
      ∙ ap (λ r. accepts server_id (r.key (hash tried))) shown
      ∙ is.1 (hash tried)

accepts-gone :
    (server_id : String) (o : Option KeyState) → accepts server_id (dropped server_id o) ≡ false
accepts-gone server_id none = refl
accepts-gone server_id (some k) = ground arith

-- The server that is deleted is nobody's, and no key is accepted for it.
deletes :
    (F : Type 0) (hash : String → String) (user_id : ℕ) (server_id : String) (r : Registry)
    → let c : Command F = Command.delete user_id server_id in
      (described hash c r).0 ≡ Answer.accepted
      → ((u : ℕ) → owned_by u server_id (described hash c r).1 ≡ false)
        × ((h : String) → accepts server_id ((described hash c r).1.key h) ≡ false)
unfolding described
deletes F hash user_id server_id r done = elim (Bool-cases (owned_by user_id server_id r)) [
  | inl mine ↦ rw mine (λ u. rw (eq_refl server_id) refl, λ h. accepts-gone server_id (r.key h))
  | inr other ↦ let wrong = rw other at done in cc
]

creates :
    (F : Type 0) (hash : String → String) (now user_id : ℕ) (server_id name key : String)
    (r : Registry)
    → let c : Command F = Command.create now user_id server_id name key in
      (described hash c r).0 ≡ Answer.accepted
      → (owned_by user_id server_id (described hash c r).1 ≡ true)
        × (accepts server_id ((described hash c r).1.key (hash key)) ≡ true)
unfolding described
creates F hash now user_id server_id name key r done =
    elim (Bool-cases
      (r.has_user user_id && is_none (r.owner server_id) && is_none (r.key (hash key)))) [
        | inl free ↦ rw free (
          rw (eq_refl server_id) ((==_iff user_id user_id).1 refl),
          rw (eq_refl (hash key), eq_refl server_id) refl,
        )
        | inr taken ↦ let wrong = rw taken at done in cc
      ]

module _ {F : Type 0} (hash : String → String) (db : Database F) (sound : IsSound db) where
  -- From sound tables, what a command that is accepted leaves is what the registry describes.
  leaves :
      (c : Command F)
      → (step hash c db).0 ≡ Answer.accepted
      → ((described hash c (view db)).0 ≡ Answer.accepted)
        × (view (step hash c db).1 ≡ (described hash c (view db)).1)
        × IsSound (step hash c db).1
  leaves c done =
      let same = step_refines hash c db sound in
      (
        sym (ap (λ (answer, r). answer) same) ∙ done,
        ap (λ (answer, r). r) same,
        step-IsSound hash c db sound,
      )

  pub deleted :
      (user_id : ℕ) (server_id : String)
      → let c : Command F = Command.delete user_id server_id in
        (step hash c db).0 ≡ Answer.accepted
        → ((u : ℕ) → user_owns_server u server_id (step hash c db).1 ≡ false)
          × ((tried : String) → api_key_valid hash server_id tried (step hash c db).1 ≡ false)
  deleted user_id server_id done =
      let c : Command F = Command.delete user_id server_id in
      let (done_there, shown, sound_next) = leaves c done in
      let is = deletes F hash user_id server_id (view db) done_there in
      (
        λ u.
            owns_view hash u server_id (step hash c db).1 sound_next
            ∙ ap (owned_by u server_id) shown
            ∙ is.0 u,
        λ tried.
            valid_view hash user_id server_id tried (step hash c db).1 sound_next
            ∙ ap (λ r. accepts server_id (r.key (hash tried))) shown
            ∙ is.1 (hash tried),
      )

  pub created_lem :
      (now user_id : ℕ) (server_id name key : String)
      → let c : Command F = Command.create now user_id server_id name key in
        (step hash c db).0 ≡ Answer.accepted
        → (user_owns_server user_id server_id (step hash c db).1 ≡ true)
          × (api_key_valid hash server_id key (step hash c db).1 ≡ true)
  created_lem now user_id server_id name key done =
      let c : Command F = Command.create now user_id server_id name key in
      let (done_there, shown, sound_next) = leaves c done in
      let is = creates F hash now user_id server_id name key (view db) done_there in
      (
        owns_view hash user_id server_id (step hash c db).1 sound_next
            ∙ ap (owned_by user_id server_id) shown
            ∙ is.0,
        valid_view hash user_id server_id key (step hash c db).1 sound_next
            ∙ ap (λ r. accepts server_id (r.key (hash key))) shown
            ∙ is.1,
      )
