-- ===== src/Core/Store/View/Keys.antt =====
-- Which keys are accepted, before and after the statements on the table of keys.
use mathlib.Core.Path.{fun_ext}
use tarisya.Prelude.{
  ℕ, String, true, not, ◌&&◌, Option, none, some, List, [], ◌∷◌, ◌++◌, ◌≡◌, refl, sym, ap, ◌∙◌,
  arith, str_eq, if◌then◌else◌, inl, inr, Option-cases,
}
use tarisya.Core.Sql.{exists, delete, exists_ext, exists-map}
use tarisya.Core.Database.{KeyRow}
use tarisya.Core.Store.{is_none, is_active, revoke_keys, new_key}
use tarisya.Core.Store.Tables.{
  lookup, IsUnique, holds, exists-lookup, exists-is_none, lookup-append, lookup-map, lookup-select,
  change_keeps, holds-map, is_none-map, fresh_lookup,
}
use tarisya.Core.Store.Registry.{KeyState, put, retired, dropped}
use tarisya.Core.Store.Integrity.{hash_of}
use tarisya.Core.Store.View.{key_state, key_in}

pub key_in-delete :
    (server_id : String) (keys : List KeyRow)
    → IsUnique hash_of keys
    → key_in (delete (λ k. str_eq k.server_id server_id) keys)
      ≡ (λ hash. dropped server_id (key_in keys hash))
key_in-delete server_id keys unique = fun_ext λ hash.
    rw (lookup-select hash_of hash (λ k. not (str_eq k.server_id server_id)) keys unique)
      (elim (Option-cases (lookup hash_of hash keys)) [
        | inl missing ↦ rw missing refl
        | inr (k, its) ↦ rw its (ground arith)
      ])

pub key_in-revoke :
    (now : ℕ) (server_id : String) (keys : List KeyRow)
    → key_in (revoke_keys now server_id keys) ≡ (λ hash. retired server_id (key_in keys hash))
key_in-revoke now server_id keys = fun_ext λ hash.
    rw
      (lookup-map hash_of hash
        (λ k. if is_active server_id k then record k { revoked_at = some now } else k) keys
        (λ k.
          change_keeps hash_of (is_active server_id k) (record k { revoked_at = some now }) k refl))
      (elim (Option-cases (lookup hash_of hash keys)) [
        | inl missing ↦ rw missing refl
        | inr (k, its) ↦ rw its (ground arith)
      ])

pub key_in-append :
    (k : KeyRow) (keys : List KeyRow)
    → lookup hash_of k.api_key_hash keys ≡ none
    → key_in (keys ++ k ∷ []) ≡ put k.api_key_hash (some (key_state k)) (key_in keys)
key_in-append k keys fresh =
    fun_ext λ other. rw (lookup-append hash_of other k keys fresh) (ground arith)

-- A key that is accepted.
pub valid_lem :
    (server_id hash : String) (keys : List KeyRow)
    → IsUnique hash_of keys
    → exists
        (λ k. str_eq k.server_id server_id && str_eq k.api_key_hash hash && is_none k.revoked_at)
        keys
      ≡ holds (λ k. str_eq k.server_id server_id && k.is_active) (key_in keys hash)
valid_lem server_id hash keys unique =
    exists_ext _
      (λ k. str_eq k.api_key_hash hash && (str_eq k.server_id server_id && is_none k.revoked_at))
      keys (λ k. ground arith)
    ∙ exists-lookup hash_of hash (λ k. str_eq k.server_id server_id && is_none k.revoked_at) keys
        unique
    ∙ sym (
        holds-map (λ k. str_eq k.server_id server_id && k.is_active) key_state
          (lookup hash_of hash keys))

pub free_key :
    (hash : String) (keys : List KeyRow)
    → not (exists (λ k. str_eq k.api_key_hash hash) keys) ≡ is_none (key_in keys hash)
free_key hash keys =
    rw (exists-is_none hash_of hash keys)
      (ground (arith, is_none-map key_state (lookup hash_of hash keys)))

pub free_revoked :
    (now : ℕ) (server_id hash : String) (keys : List KeyRow)
    → exists (λ k. str_eq k.api_key_hash hash) (revoke_keys now server_id keys)
      ≡ exists (λ k. str_eq k.api_key_hash hash) keys
free_revoked now server_id hash keys =
    exists-map _ _ keys
    ∙ exists_ext _ (λ k. str_eq k.api_key_hash hash) keys
        λ k.
          ap (λ h. str_eq h hash)
            (change_keeps hash_of (is_active server_id k) (record k { revoked_at = some now }) k
              refl)

pub retired_free :
    (server_id : String) (o : Option KeyState) → is_none (retired server_id o) ≡ is_none o
retired_free server_id none = refl
retired_free server_id (some k) = refl

pub key_in-rotate :
    (now : ℕ) (server_id hash : String) (keys : List KeyRow)
    → is_none (key_in keys hash) ≡ true
    → key_in (revoke_keys now server_id keys ++ new_key server_id hash now ∷ [])
      ≡ put hash
          (some record { server_id = server_id; is_active = true })
          (λ k. retired server_id (key_in keys k))
key_in-rotate now server_id hash keys fresh =
    let revoked = key_in-revoke now server_id keys in
    let free : is_none (key_in (revoke_keys now server_id keys) hash) ≡ true =
      ap (λ f. is_none (f hash)) revoked ∙ retired_free server_id (key_in keys hash) ∙ fresh in
    key_in-append (new_key server_id hash now) (revoke_keys now server_id keys)
      (fresh_lookup hash_of key_state hash _ free)
    ∙ ap (put hash (some record { server_id = server_id; is_active = true })) revoked
