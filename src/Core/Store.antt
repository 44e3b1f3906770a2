-- ===== src/Core/Store.antt =====
-- internal/core/store.go: the operations on users' servers, their API keys and metrics, as what
-- their statements of SQL do to the tables, in a transaction where the source opens one: an
-- operation that fails answers `none` and leaves the database as it was. A failure is a constraint
-- of the tables that does not hold; the failures of the file, of the connection and of the driver
-- are left out. The hash of a key is a parameter, and so are the time, the size of the file and the
-- random identifiers, which the source reads or draws elsewhere.
pub mod Tables
pub mod Registry
pub mod Integrity
pub mod View
pub mod Refinement
pub mod Others
pub mod Keys
pub mod Pages
pub mod Servers
mod Examples
use tarisya.Prelude.{
  ℕ, ◌+◌, String, Bool, true, false, not, ◌&&◌, ◌||◌, Option, none, some, List, [], ◌∷◌, ◌++◌, take,
  ltb, leb, ◌==◌, str_eq, if◌then◌else◌,
}
use tarisya.Core.Sql.{exists, select, delete, update}
use tarisya.Core.Database.{UserRow, ServerRow, KeyRow, Values, MetricRow, Database}

pub record ServerRecord : Type 0 where
  pub id : String
  pub name : String
  pub overall_status : String
  pub connectivity_status : String
  pub health_status : String
  pub last_seen_at : Option ℕ
  pub created_at : ℕ

pub record MetricsPayload (F : Type 0) : Type 0 where
  pub server_id : String
  pub hostname : String
  pub timestamp : ℕ
  pub metrics : Values F
  pub agent_version : String

pub data SaveError : Type 0 where
  database_full : SaveError
  constraint : SaveError

abbrev pub is_none {ℓ} : {A : Type ℓ} → Option A → Bool
is_none none = true
is_none (some a) = false

-- `WHERE id=? AND user_id=?`
abbrev pub is_owned : ℕ → String → ServerRow → Bool
is_owned user_id server_id s = str_eq s.id server_id && (s.user_id == user_id)

-- `WHERE server_id=? AND revoked_at IS NULL`
abbrev pub is_active : String → KeyRow → Bool
is_active server_id k = str_eq k.server_id server_id && is_none k.revoked_at

-- `servers.id` is the primary key, and `servers.user_id` refers to a user.
abbrev pub server_accepted : {F : Type 0} → ServerRow → Database F → Bool
server_accepted row db =
    not (exists (λ s. str_eq s.id row.id) db.servers) && exists (λ u. u.id == row.user_id) db.users

-- `server_api_keys.api_key_hash` is unique, and `server_api_keys.server_id` refers to a server.
abbrev pub key_accepted : KeyRow → List ServerRow → List KeyRow → Bool
key_accepted row servers keys =
    not (exists (λ k. str_eq k.api_key_hash row.api_key_hash) keys)
    && exists (λ s. str_eq s.id row.server_id) servers

abbrev pub new_key : String → String → ℕ → KeyRow
new_key server_id hash now = record {
  server_id = server_id;
  api_key_hash = hash;
  created_at = now;
  revoked_at = none;
}

-- `UPDATE server_api_keys SET revoked_at=? WHERE server_id=? AND revoked_at IS NULL`
abbrev pub revoke_keys : ℕ → String → List KeyRow → List KeyRow
revoke_keys now server_id = update (is_active server_id) λ k. record k { revoked_at = some now }

-- Rows of a server's own that go with it: `ON DELETE CASCADE`.
abbrev pub cascade : {F : Type 0} → String → Database F → Database F
cascade server_id db = record db {
  keys = delete (λ k. str_eq k.server_id server_id) db.keys;
  metrics = delete (λ m. str_eq m.server_id server_id) db.metrics;
}

module _ {F : Type 0} where
  unfoldable pub user_owns_server : ℕ → String → Database F → Bool
  user_owns_server user_id server_id db = exists (is_owned user_id server_id) db.servers

  unfoldable pub delete_server : ℕ → String → Database F → Option Bool × Database F
  delete_server user_id server_id db =
      let gone = exists (is_owned user_id server_id) db.servers in
      (
        some gone,
        if gone
            then record (cascade server_id db) {
              servers = delete (is_owned user_id server_id) db.servers;
            }
            else db,
      )

  unfoldable pub revoke_api_key : ℕ → ℕ → String → Database F → Option Bool × Database F
  revoke_api_key now user_id server_id db =
      if user_owns_server user_id server_id db
      then (some true, record db { keys = revoke_keys now server_id db.keys })
      else (some false, db)

  -- `INTEGER PRIMARY KEY`: one more than the largest.
  abbrev pub last_id : List (MetricRow F) → ℕ
  last_id [] = 0
  last_id (m ∷ rest) = let last = last_id rest in if leb m.id last then last else m.id

  -- `max_size` is 0 where there is no limit; `size` is that of the file.
  unfoldable pub save_metrics :
      ℕ → ℕ → ℕ → MetricsPayload F → Database F → Option SaveError × Database F
  save_metrics now max_size size p db =
      if ltb 0 max_size && leb max_size size
      then (some SaveError.database_full, db)
      else if exists (λ s. str_eq s.id p.server_id) db.servers
      then (
        none,
        record db {
          metrics =
              db.metrics
              ++ record {
                id = last_id db.metrics + 1;
                server_id = p.server_id;
                values = p.metrics;
                collected_at = p.timestamp;
              }
                ∷ [];
          servers =
              update (λ s. str_eq s.id p.server_id)
                (λ s. record s {
                  hostname = some p.hostname;
                  agent_version = some p.agent_version;
                  last_seen_at = some now;
                })
                db.servers;
        },
      )
      else (some SaveError.constraint, db)

  module _ (hash_api_key : String → String) where
    unfoldable pub create_server :
        ℕ → ℕ → String → String → String → Database F → Option ServerRecord × Database F
    create_server now user_id server_id name api_key db =
        let row : ServerRow = record {
          id = server_id;
          user_id = user_id;
          name = name;
          hostname = none;
          agent_version = none;
          last_seen_at = none;
          created_at = now;
        } in
        let key = new_key server_id (hash_api_key api_key) now in
        let servers = db.servers ++ row ∷ [] in
        if server_accepted row db && key_accepted key servers db.keys
        then (
          some record {
            id = server_id;
            name = name;
            overall_status = "pending";
            connectivity_status = "pending";
            health_status = "unknown";
            last_seen_at = none;
            created_at = now;
          },
          record db { servers = servers; keys = db.keys ++ key ∷ [] },
        )
        else (none, db)

    unfoldable pub rotate_api_key : ℕ → ℕ → String → String → Database F → Option Bool × Database F
    rotate_api_key now user_id server_id api_key db =
        let key = new_key server_id (hash_api_key api_key) now in
        let keys = revoke_keys now server_id db.keys in
        if user_owns_server user_id server_id db
        then if key_accepted key db.servers keys
          then (some true, record db { keys = keys ++ key ∷ [] })
          else (none, db)
        else (some false, db)

    unfoldable pub api_key_valid : String → String → Database F → Bool
    api_key_valid server_id api_key db =
        exists
          (λ k.
            str_eq k.server_id server_id
            && str_eq k.api_key_hash (hash_api_key api_key)
            && is_none k.revoked_at)
          db.keys
