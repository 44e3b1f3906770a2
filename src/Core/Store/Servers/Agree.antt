-- ===== src/Core/Store/Servers/Agree.antt =====
-- That the list and the details of a user's servers agree.
use mathlib.Core.Option
use tarisya.Prelude.{
  ℕ, Bool, String, Option, none, some, List, [], ◌∷◌, map, ◌≡◌, refl, sym, ap, ◌∙◌, arith, ◌==◌,
  str_eq, eq_iff, if◌then◌else◌, Bool-cases, inl, inr,
}
use tarisya.Core.Sql.{select}
use tarisya.Core.Database.{ServerRow, Database}
use tarisya.Core.Store.{ServerRecord, is_owned}
use tarisya.Core.Store.Tables.{lookup, IsUnique, kept, lookup-select, select-IsUnique}
use tarisya.Core.Store.Integrity.{IsSound, server_id_of}
use tarisya.Core.Store.Servers.{
  ServerDetail, Thresholds, first_row, insert_server, by_created, latest_metrics, scan_record,
  scan_detail, servers_by_user, server_by_user,
}

-- What the list shows of a server.
abbrev pub summary : ServerDetail → ServerRecord
summary d = record {
  id = d.id;
  name = d.name;
  overall_status = d.overall_status;
  connectivity_status = d.connectivity_status;
  health_status = d.health_status;
  last_seen_at = d.last_seen_at;
  created_at = d.created_at;
}

abbrev pub record_id : ServerRecord → String
record_id r = r.id

lookup-insert_server :
    (id : String) (s : ServerRow) (rows : List ServerRow)
    → lookup server_id_of s.id rows ≡ none
    → lookup server_id_of id (insert_server s rows)
      ≡ (if str_eq s.id id then some s else lookup server_id_of id rows)
lookup-insert_server id s [] fresh = refl
lookup-insert_server id s (first ∷ rest) fresh =
    grind (arith, eq_iff, lookup-insert_server id s rest)

lookup-by_created :
    (id : String) (rows : List ServerRow)
    → IsUnique server_id_of rows
    → lookup server_id_of id (by_created rows) ≡ lookup server_id_of id rows
lookup-by_created id [] unique = refl
lookup-by_created id (s ∷ rest) (fresh, unique) =
    lookup-insert_server id s (by_created rest) (lookup-by_created s.id rest unique ∙ fresh)
    ∙ rw (lookup-by_created id rest unique) refl

lookup-records :
    (f : ServerRow → ServerRecord) (id : String) (rows : List ServerRow)
    → ((s : ServerRow) → (f s).id ≡ s.id)
    → lookup record_id id (map f rows) ≡ Option.map f (lookup server_id_of id rows)
lookup-records f id [] same = refl
lookup-records f id (s ∷ rows) same =
    let key = ap (λ other. str_eq other id) (same s) in
    elim (Bool-cases (str_eq s.id id)) [
      | inl its ↦ rw (key ∙ its, its) refl
      | inr other ↦ rw (key ∙ other, other) (lookup-records f id rows same)
    ]

-- The one row with the identifier, if it is the user's.
first-select :
    (user_id : ℕ) (server_id : String) (rows : List ServerRow)
    → IsUnique server_id_of rows
    → first_row (select (is_owned user_id server_id) rows)
      ≡ kept (λ s. s.user_id == user_id) (lookup server_id_of server_id rows)
first-select user_id server_id [] unique = refl
first-select user_id server_id (s ∷ rows) (fresh, unique) =
    grind (arith, eq_iff, first-select user_id server_id rows unique)

map-map :
    {A B C : Type 0} (f : B → C) (g : A → B) (o : Option A)
    → Option.map f (Option.map g o) ≡ Option.map (λ a. f (g a)) o
map-map f g none = refl
map-map f g (some a) = refl

module _ {F : Type 0} (t : Thresholds F) where
  -- Where the tables are sound: what the details of a user's server say of its names, statuses and
  -- times is what the list of the user's servers says under its identifier, and there are no details
  -- where it is not in the list.
  pub details_agree :
      (user_id : ℕ) (server_id : String) (db : Database F)
      → IsSound db
      → Option.map summary (server_by_user t user_id server_id db)
        ≡ lookup record_id server_id (servers_by_user t user_id db)
  unfolding servers_by_user server_by_user
  details_agree user_id server_id db sound =
      let mine : ServerRow → Bool = λ s. s.user_id == user_id in
      let row : ServerRow → ServerRecord = λ s. scan_record t s (latest_metrics s.id db) in
      let unique = select-IsUnique server_id_of mine db.servers sound.servers_unique in
      let chosen = kept mine (lookup server_id_of server_id db.servers) in
      let listed : lookup record_id server_id (map row (by_created (select mine db.servers)))
          ≡ Option.map row chosen =
        lookup-records row server_id (by_created (select mine db.servers)) (λ s. refl)
        ∙ ap (Option.map row) (
            lookup-by_created server_id (select mine db.servers) unique
            ∙ lookup-select server_id_of server_id mine db.servers sound.servers_unique) in
      map-map summary (λ s. scan_detail t s (latest_metrics s.id db))
        (first_row (select (is_owned user_id server_id) db.servers))
      ∙ ap (Option.map row) (first-select user_id server_id db.servers sound.servers_unique)
      ∙ sym listed
