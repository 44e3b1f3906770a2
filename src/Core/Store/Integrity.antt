-- ===== src/Core/Store/Integrity.antt =====
-- What holds of the store's tables at any time: a server's identifier and a key's hash are unique,
-- and every server, key and metric belongs to a row that is there.
pub mod Steps
use tarisya.Prelude.{
  ℕ, ◌+◌, String, Bool, true, false, not, ◌&&◌, ◌||◌, Option, none, some, List, [], ◌∷◌, ◌++◌, map,
  ◌≡◌, refl, sym, ap, ◌∙◌, arith, ◌==◌, str_eq, if◌then◌else◌, Bool-cases, inl, inr, All, eq_iff,
  ==_iff, ltb, leb,
}
use tarisya.Core.Sql.{
  exists, select, exists-map, exists-append, exists_ext, exists-select, All-append, All-map,
  All-imp, All-select, delete,
}
use tarisya.Core.Database.{UserRow, ServerRow, KeyRow, MetricRow, Database}
use tarisya.Core.Store.{
  is_owned, user_owns_server, delete_server, revoke_api_key, save_metrics, create_server,
  rotate_api_key, api_key_valid, revoke_keys, MetricsPayload, last_id, new_key, key_accepted,
  is_active, server_accepted,
}
use tarisya.Core.Store.Tables.{
  lookup, IsUnique, lookup-append, append-IsUnique, lookup-map, exists-is_none, is_none_lem,
  change_keeps, map-IsUnique, select-IsUnique,
}
use tarisya.Core.Store.Registry.{Command, step, run}

abbrev pub server_id_of : ServerRow → String
server_id_of s = s.id

abbrev pub hash_of : KeyRow → String
hash_of k = k.api_key_hash

-- A row of another table that refers to a server refers to one of these.
module _ {A : Type 0} (server_id : A → String) where
  abbrev pub Refer : List ServerRow → List A → Type 0
  Refer servers = All (λ a. exists (λ s. str_eq s.id (server_id a)) servers ≡ true)

abbrev pub HaveUsers : List UserRow → List ServerRow → Type 0
HaveUsers users = All (λ s. exists (λ u. u.id == s.user_id) users ≡ true)

pub record IsSound {F : Type 0} (db : Database F) : Type 0 where
  pub servers_unique : IsUnique server_id_of db.servers
  pub keys_unique : IsUnique hash_of db.keys
  pub have_users : HaveUsers db.users db.servers
  pub keys_refer : Refer (λ k. k.server_id) db.servers db.keys
  pub metrics_refer : Refer (λ m. m.server_id) db.servers db.metrics

module _ (user_id : ℕ) (server_id : String) (servers : List ServerRow) where
  -- Deleting a server leaves the others.
  pub others_left :
      (other : String)
      → str_eq other server_id ≡ false
      → exists (λ s. str_eq s.id other) servers ≡ true
      → exists (λ s. str_eq s.id other) (delete (is_owned user_id server_id) servers) ≡ true
  others_left other differs there =
      exists-select _ _ servers
      ∙ exists_ext (λ s. not (is_owned user_id server_id s) && str_eq s.id other) _ servers
          (λ s. grind (arith, eq_iff))
      ∙ there

  pub Refer-delete :
      {A : Type 0} (of : A → String) (rows : List A)
      → Refer of servers rows
      → Refer of
          (delete (is_owned user_id server_id) servers)
          (delete (λ a. str_eq (of a) server_id) rows)
  Refer-delete of [] refer = tt
  Refer-delete of (row ∷ rows) (there, refer) = elim (Bool-cases (str_eq (of row) server_id)) [
    | inl its ↦ rw its (Refer-delete of rows refer)
    | inr other ↦ rw other (others_left (of row) other there, Refer-delete of rows refer)
  ]

pub Refer-append :
    {A : Type 0} (of : A → String) (servers : List ServerRow) (s : ServerRow) (rows : List A)
    → Refer of servers rows
    → Refer of (servers ++ s ∷ []) rows
Refer-append of servers s rows =
    All-imp _ _ rows λ row there. exists-append _ servers (s ∷ []) ∙ rw there refl

pub Refer-map :
    {A : Type 0} (f : ServerRow → ServerRow) (of : A → String) (servers : List ServerRow)
    (rows : List A)
    → ((s : ServerRow) → (f s).id ≡ s.id)
    → Refer of servers rows
    → Refer of (map f servers) rows
Refer-map f of servers rows same = All-imp _ _ rows λ row there.
    exists-map _ _ servers
    ∙ exists_ext _ _ servers (λ s. ap (λ id. str_eq id (of row)) (same s))
    ∙ there

-- A table keeps its unique column when a row is added whose value is new.
pub fresh-IsUnique :
    {A : Type 0} (key : A → String) (row : A) (rows : List A)
    → exists (λ r. str_eq (key r) (key row)) rows ≡ false
    → IsUnique key rows
    → IsUnique key (rows ++ row ∷ [])
fresh-IsUnique key row rows fresh = append-IsUnique key row rows (
    is_none_lem (lookup key (key row) rows)
      (let is = exists-is_none key (key row) rows in ground arith))

pub revoked-Refer :
    (now : ℕ) (server_id : String) (servers : List ServerRow) (keys : List KeyRow)
    → Refer (λ k. k.server_id) servers keys
    → Refer (λ k. k.server_id) servers (revoke_keys now server_id keys)
revoked-Refer now server_id servers keys = All-map _ _ keys λ k there.
    rw
      (change_keeps (λ k. k.server_id) (is_active server_id k) (record k { revoked_at = some now })
        k refl)
      there

pub revoked-IsUnique :
    (now : ℕ) (server_id : String) (keys : List KeyRow)
    → IsUnique hash_of keys
    → IsUnique hash_of (revoke_keys now server_id keys)
revoked-IsUnique now server_id keys =
    map-IsUnique hash_of _ keys
      λ k. change_keeps hash_of (is_active server_id k) (record k { revoked_at = some now }) k refl
