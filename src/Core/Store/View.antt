-- ===== src/Core/Store/View.antt =====
-- What the tables say of users, servers and keys: the registry that they stand for.
pub mod Servers
pub mod Keys
use mathlib.Core.Path.{fun_ext}
use mathlib.Core.Option
use tarisya.Prelude.{
  ℕ, ◌+◌, String, Bool, true, false, not, ◌&&◌, ◌||◌, Option, none, some, List, [], ◌∷◌, ◌++◌, map,
  ◌≡◌, refl, sym, ap, ◌∙◌, arith, ◌==◌, str_eq, if◌then◌else◌, Bool-cases, inl, inr, All, eq_refl,
  eq_iff, ==_iff, ltb, leb, Option-cases,
}
use tarisya.Core.Sql.{exists, select, delete, update, exists_ext, exists-map, exists-append}
use tarisya.Core.Database.{UserRow, ServerRow, KeyRow, MetricRow, Database}
use tarisya.Core.Store.{
  is_none, is_owned, is_active, user_owns_server, delete_server, revoke_api_key, save_metrics,
  create_server, rotate_api_key, api_key_valid, revoke_keys, MetricsPayload, new_key, key_accepted,
  server_accepted,
}
use tarisya.Core.Store.Tables.{
  lookup, IsUnique, holds, kept, exists-lookup, exists-is_none, lookup-append, lookup-map,
  lookup-select, is_none_lem, lookup-key, change_keeps, holds-map, is_none-map, fresh_lookup,
}
use tarisya.Core.Store.Registry.{
  Command, Answer, asked, changed, created, saved, KeyState, Registry, owned_by, put, retired,
  dropped, step, described, run, described_run,
}
use tarisya.Core.Store.Integrity.{server_id_of, hash_of, IsSound}

abbrev pub key_state : KeyRow → KeyState
key_state k = record { server_id = k.server_id; is_active = is_none k.revoked_at }

abbrev pub owner_in : List ServerRow → String → Option ℕ
owner_in servers server_id = Option.map (λ s. s.user_id) (lookup server_id_of server_id servers)

abbrev pub key_in : List KeyRow → String → Option KeyState
key_in keys hash = Option.map key_state (lookup hash_of hash keys)

-- What the tables say of users, servers and keys.
abbrev pub view : {F : Type 0} → Database F → Registry
view db = record {
  has_user = λ user_id. exists (λ u. u.id == user_id) db.users;
  owner = owner_in db.servers;
  key = key_in db.keys;
}
