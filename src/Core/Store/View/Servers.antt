-- ===== src/Core/Store/View/Servers.antt =====
-- Whose a server is, before and after the statements on the table of servers.
use mathlib.Core.Path.{fun_ext}
use mathlib.Core.Option
use tarisya.Prelude.{
  ℕ, String, Bool, true, not, none, some, List, [], ◌∷◌, ◌++◌, ◌≡◌, refl, sym, ap, ◌∙◌, arith, ◌==◌,
  str_eq, if◌then◌else◌, inl, inr, eq_iff, Option-cases,
}
use tarisya.Core.Sql.{exists, delete, update}
use tarisya.Core.Database.{ServerRow}
use tarisya.Core.Store.{is_none, is_owned, MetricsPayload}
use tarisya.Core.Store.Tables.{
  lookup, IsUnique, holds, exists-lookup, exists-is_none, lookup-append, lookup-map, lookup-select,
  lookup-key, change_keeps, holds-map, is_none-map,
}
use tarisya.Core.Store.Registry.{put}
use tarisya.Core.Store.Integrity.{server_id_of}
use tarisya.Core.Store.View.{owner_in}

-- Ownership, as the store asks for it.
pub owned_lem :
    (user_id : ℕ) (server_id : String) (servers : List ServerRow)
    → IsUnique server_id_of servers
    → exists (is_owned user_id server_id) servers
      ≡ holds (λ owner. owner == user_id) (owner_in servers server_id)
owned_lem user_id server_id servers unique =
    exists-lookup server_id_of server_id (λ s. s.user_id == user_id) servers unique
    ∙ sym (
        holds-map (λ owner. owner == user_id) (λ s. s.user_id)
          (lookup server_id_of server_id servers))

-- A server goes when it is the one that is deleted.
pub owner_left :
    (user_id : ℕ) (server_id other : String) (s : ServerRow)
    → s.id ≡ other
    → (server_id ≡ other → (s.user_id == user_id) ≡ true)
    → Option.map (λ s. s.user_id) (if not (is_owned user_id server_id s) then some s else none)
      ≡ (if str_eq server_id other then none else some s.user_id)
owner_left user_id server_id other s key owned =
    let same = eq_iff server_id other in let is = eq_iff s.id server_id in grind (arith, eq_iff)

pub owner_in-delete :
    (user_id : ℕ) (server_id : String) (servers : List ServerRow)
    → IsUnique server_id_of servers
    → exists (is_owned user_id server_id) servers ≡ true
    → owner_in (delete (is_owned user_id server_id) servers) ≡ put server_id none (owner_in servers)
owner_in-delete user_id server_id servers unique owned = fun_ext λ other.
    let found = lookup server_id_of other servers in
    rw (lookup-select server_id_of other (λ s. not (is_owned user_id server_id s)) servers unique)
      (elim (Option-cases found) [
        | inl missing ↦ rw missing (ground arith)
        | inr (s, its) ↦
            let there =
              exists-lookup server_id_of server_id (λ s. s.user_id == user_id) servers unique in
            let key = lookup-key server_id_of other servers s its in
            rw its (
              owner_left user_id server_id other s key λ same.
                sym (
                  ap (holds (λ s. s.user_id == user_id))
                    (ap (λ id. lookup server_id_of id servers) same ∙ its))
                ∙ sym there
                ∙ owned)
      ])

pub owner_in-append :
    (s : ServerRow) (servers : List ServerRow)
    → lookup server_id_of s.id servers ≡ none
    → owner_in (servers ++ s ∷ []) ≡ put s.id (some s.user_id) (owner_in servers)
owner_in-append s servers fresh =
    fun_ext λ other. rw (lookup-append server_id_of other s servers fresh) (ground arith)

-- A row can be added under a value that is not taken.
pub free_server :
    (server_id : String) (servers : List ServerRow)
    → not (exists (λ s. str_eq s.id server_id) servers) ≡ is_none (owner_in servers server_id)
free_server server_id servers =
    rw (exists-is_none server_id_of server_id servers)
      (ground (arith, is_none-map (λ s. s.user_id) (lookup server_id_of server_id servers)))

pub owned_exists :
    (user_id : ℕ) (server_id : String) (servers : List ServerRow)
    → exists (is_owned user_id server_id) servers ≡ true
    → exists (λ s. str_eq s.id server_id) servers ≡ true
owned_exists user_id server_id (s ∷ servers) owned =
    ground (arith, owned_exists user_id server_id servers)
owned_exists user_id server_id [] owned = owned

pub owner_in-update :
    {F : Type 0} (now : ℕ) (p : MetricsPayload F) (servers : List ServerRow)
    → owner_in (
        update
          (λ s. str_eq s.id p.server_id)
          (λ s. record s {
            hostname = some p.hostname;
            agent_version = some p.agent_version;
            last_seen_at = some now;
          })
          servers)
      ≡ owner_in servers
owner_in-update now p servers = fun_ext λ id.
    let its : ServerRow → Bool = λ s. str_eq s.id p.server_id in
    let seen : ServerRow → ServerRow = λ s. record s {
      hostname = some p.hostname;
      agent_version = some p.agent_version;
      last_seen_at = some now;
    } in
    rw
      (lookup-map server_id_of id (λ s. if its s then seen s else s) servers
        (λ s. change_keeps server_id_of (its s) (seen s) s refl))
      (elim (Option-cases (lookup server_id_of id servers)) [
        | inl missing ↦ rw missing refl
        | inr (s, found) ↦
            rw found (ap some (change_keeps (λ s. s.user_id) (its s) (seen s) s refl))
      ])
