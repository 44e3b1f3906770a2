-- ===== src/Core/Store/Others.antt =====
-- A server's owner and keys in the registry, while others call the store and when its owner does.
use tarisya.Prelude.{
  ℕ, String, Bool, true, false, ◌&&◌, Option, none, some, List, [], ◌∷◌, ◌≡◌, refl, sym, ap, ◌∙◌,
  arith, ◌==◌, str_eq, Bool-cases, inl, inr, All, eq_refl, eq_iff, ltb, leb,
}
use tarisya.Core.Store.{is_none}
use tarisya.Core.Store.Tables.{holds, unheld}
use tarisya.Core.Store.Registry.{
  Command, Answer, KeyState, Registry, owned_by, put, retired, dropped, described, described_run,
}

-- Not a deletion of the server by the user, nor a change of its keys by the user.
abbrev pub IsOther : {F : Type 0} → ℕ → String → Command F → Type 0
IsOther user_id server_id (Command.delete u s) = (u == user_id && str_eq s server_id) ≡ false
IsOther user_id server_id (Command.rotate now u s key) =
    (u == user_id && str_eq s server_id) ≡ false
IsOther user_id server_id (Command.revoke now u s) = (u == user_id && str_eq s server_id) ≡ false
IsOther user_id server_id _ = Unit

-- The key with the hash is accepted for the server.
abbrev pub accepts : String → Option KeyState → Bool
accepts server_id = holds λ k. str_eq k.server_id server_id && k.is_active

accepts-dropped :
    (server_id other : String) (o : Option KeyState)
    → str_eq other server_id ≡ false
    → accepts server_id (dropped other o) ≡ accepts server_id o
accepts-dropped server_id other none differs = refl
accepts-dropped server_id other (some k) differs = grind (arith, eq_iff)

accepts-retired :
    (server_id other : String) (o : Option KeyState)
    → str_eq other server_id ≡ false
    → accepts server_id (retired other o) ≡ accepts server_id o
accepts-retired server_id other none differs = refl
accepts-retired server_id other (some k) differs = grind (arith, eq_iff)

accepts-put :
    (server_id other hash at : String) (key : String → Option KeyState)
    → str_eq other server_id ≡ false
    → accepts server_id (key hash) ≡ false
    → accepts server_id (put hash (some record { server_id = other; is_active = true }) key at)
      ≡ accepts server_id (key at)
accepts-put server_id other hash at key differs unused = elim (Bool-cases (str_eq hash at)) [
  | inl same ↦
      let at_hash : accepts server_id (key at) ≡ false =
        ap (λ h. accepts server_id (key h)) (sym ((eq_iff hash at).0 same)) ∙ unused in
      rw (same, differs, at_hash) refl
  | inr apart ↦ rw apart refl
]

one_owner :
    (u v : ℕ) (o : Option ℕ)
    → holds (λ owner. owner == u) o ≡ true
    → holds (λ owner. owner == v) o ≡ true
    → (v == u) ≡ true
one_owner u v none mine theirs = ground arith
one_owner u v (some owner) mine theirs = ground arith

-- A server has one owner.
owners_agree :
    (u v : ℕ) (server_id other : String) (r : Registry)
    → owned_by u server_id r ≡ true
    → owned_by v other r ≡ true
    → (v == u && str_eq other server_id) ≡ false
    → str_eq other server_id ≡ false
owners_agree u v server_id other r mine theirs differs =
    elim (Bool-cases (str_eq other server_id)) [
      | inl same ↦
          let same_server =
            ap (λ s. owned_by v s r) (sym ((eq_iff other server_id).0 same)) ∙ theirs in
          let one = one_owner u v (r.owner server_id) mine same_server in ground arith
      | inr apart ↦ apart
    ]

-- A server that has an owner is not a new one.
known_server :
    (u : ℕ) (server_id new : String) (r : Registry)
    → owned_by u server_id r ≡ true
    → is_none (r.owner new) ≡ true
    → str_eq new server_id ≡ false
known_server u server_id new r mine free = elim (Bool-cases (str_eq new server_id)) [
  | inl same ↦
      let missing = ap (λ s. is_none (r.owner s)) (sym ((eq_iff new server_id).0 same)) ∙ free in
      let gone = unheld (λ owner. owner == u) (r.owner server_id) missing in ground arith
  | inr apart ↦ apart
]

-- The key of a server is replaced, or taken away.
abbrev pub renew : {F : Type 0} → ℕ → ℕ → String → Option String → Command F
renew now user_id server_id none = Command.revoke now user_id server_id
renew now user_id server_id (some key) = Command.rotate now user_id server_id key

accepts-own :
    (server_id : String) (o : Option KeyState) → accepts server_id (retired server_id o) ≡ false
accepts-own server_id none = refl
accepts-own server_id (some k) = ground arith

accepts-new :
    (server_id new h : String) (key : String → Option KeyState)
    → accepts server_id (
        put new
          (some record { server_id = server_id; is_active = true })
          (λ k. retired server_id (key k))
          h)
      ≡ str_eq new h
accepts-new server_id new h key =
    let own = accepts-own server_id (key h) in
    elim (Bool-cases (str_eq new h)) [
      | inl same ↦ rw (same, eq_refl server_id) refl
      | inr apart ↦ rw (apart, own) refl
    ]

-- Commands of others leave the server its owner and its keys.
pub record Kept (user_id : ℕ) (server_id : String) (before after : Registry) : Type 0 where
  pub owned : owned_by user_id server_id after ≡ true
  pub keys : (h : String) → accepts server_id (after.key h) ≡ accepts server_id (before.key h)

pub renews :
    (F : Type 0) (hash : String → String) (user_id : ℕ) (server_id : String) (now : ℕ)
    (key : Option String) (r : Registry)
    → let c : Command F = renew now user_id server_id key in
      (described hash c r).0 ≡ Answer.accepted
      → (owned_by user_id server_id (described hash c r).1 ≡ true)
        × ((h : String)
            → accepts server_id ((described hash c r).1.key h) ≡ holds (λ k. str_eq (hash k) h) key)
unfolding described
renews F hash user_id server_id now none r done = elim (Bool-cases (owned_by user_id server_id r)) [
  | inl mine ↦ rw mine (mine, λ h. accepts-own server_id (r.key h))
  | inr other ↦ let wrong = rw other at done in cc
]
renews F hash user_id server_id now (some key) r done =
    elim (Bool-cases (owned_by user_id server_id r)) [
      | inl mine ↦ elim (Bool-cases (is_none (r.key (hash key)))) [
        | inl free ↦ rw (mine, free) (mine, λ h. accepts-new server_id (hash key) h r.key)
        | inr taken ↦ let wrong = rw (mine, taken) at done in cc
      ]
      | inr other ↦ let wrong = rw other at done in cc
    ]

module _ {F : Type 0} (hash : String → String) (user_id : ℕ) (server_id : String) where
  others_keep :
      (c : Command F) (r : Registry)
      → owned_by user_id server_id r ≡ true
      → IsOther user_id server_id c
      → Kept user_id server_id r (described hash c r).1
  unfolding described
  others_keep (Command.create now u s name key) r mine other =
      elim (Bool-cases (r.has_user u && is_none (r.owner s) && is_none (r.key (hash key)))) [
        | inl free ↦
            let apart = known_server user_id server_id s r mine (ground arith) in
            rw free record {
              owned = rw apart mine;
              keys = λ h. accepts-put server_id s (hash key) h r.key apart (
                  unheld (λ k. str_eq k.server_id server_id && k.is_active) (r.key (hash key))
                    (ground arith));
            }
        | inr taken ↦ rw taken record { owned = mine; keys = λ h. refl }
      ]
  others_keep (Command.delete u s) r mine other = elim (Bool-cases (owned_by u s r)) [
    | inl theirs ↦
        let apart = owners_agree user_id u server_id s r mine theirs other in
        rw theirs
          record { owned = rw apart mine; keys = λ h. accepts-dropped server_id s (r.key h) apart }
    | inr none_of ↦ rw none_of record { owned = mine; keys = λ h. refl }
  ]
  others_keep (Command.rotate now u s key) r mine other = elim (Bool-cases (owned_by u s r)) [
    | inl theirs ↦
        let apart = owners_agree user_id u server_id s r mine theirs other in
        elim (Bool-cases (is_none (r.key (hash key)))) [
          | inl free ↦
              rw (theirs, free)
                record {
                  owned = mine;
                  keys = λ h.
                      accepts-put server_id s (hash key) h (λ k. retired s (r.key k)) apart
                        (accepts-retired server_id s (r.key (hash key)) apart
                          ∙ unheld (λ k. str_eq k.server_id server_id && k.is_active)
                              (r.key (hash key)) free)
                      ∙ accepts-retired server_id s (r.key h) apart;
                }
          | inr taken ↦ rw (theirs, taken) record { owned = mine; keys = λ h. refl }
        ]
    | inr none_of ↦ rw none_of record { owned = mine; keys = λ h. refl }
  ]
  others_keep (Command.revoke now u s) r mine other = elim (Bool-cases (owned_by u s r)) [
    | inl theirs ↦
        let apart = owners_agree user_id u server_id s r mine theirs other in
        rw theirs record { owned = mine; keys = λ h. accepts-retired server_id s (r.key h) apart }
    | inr none_of ↦ rw none_of record { owned = mine; keys = λ h. refl }
  ]
  others_keep (Command.owns u s) r mine other = record { owned = mine; keys = λ h. refl }
  others_keep (Command.authenticate s key) r mine other = record { owned = mine; keys = λ h. refl }
  others_keep (Command.save now max_size size payload) r mine other =
      elim (Bool-cases (ltb 0 max_size && leb max_size size)) [
        | inl full ↦ rw full record { owned = mine; keys = λ h. refl }
        | inr room ↦ rw room record { owned = mine; keys = λ h. refl }
      ]

  pub others_keep_run :
      (commands : List (Command F)) (r : Registry)
      → owned_by user_id server_id r ≡ true
      → All (IsOther user_id server_id) commands
      → Kept user_id server_id r (described_run hash commands r).1
  unfolding described_run
  others_keep_run [] r mine others = record { owned = mine; keys = λ h. refl }
  others_keep_run (c ∷ commands) r mine (other, others) =
      let once = others_keep c r mine other in
      let rest = others_keep_run commands (described hash c r).1 once.owned others in
      record { owned = rest.owned; keys = λ h. rest.keys h ∙ once.keys h }
