-- ===== src/Servers/Table/Rows.antt =====
-- The rows of the table are the servers.
use tarisya.Prelude.{String, true, false, Option, some, List, [], ◌∷◌, ◌++◌, map, ◌≡◌, refl, ap}
use mathlib.Core.Path.{ap₂}
use tarisya.Prelude.Int.{ℤ}
use tarisya.Jsx.{texts, texts_of, keys, each}
use tarisya.Types.{Server}
use tarisya.Dashboard.Badges.{
  connectivity_status_badge, health_status_badge, connectivity_meta, health_meta,
}
use tarisya.Servers.Table.{server_row, table_rows, last_seen_text}

-- What a row shows: the server's name, the labels of its statuses and when it was last seen.
abbrev pub row_texts : (String → Option ℤ) → ℤ → Server → List String
row_texts get_time now server =
    server.name
    ∷ (connectivity_meta server.connectivity_status).label
    ∷ (health_meta server.health_status).label
    ∷ last_seen_text get_time now server.last_seen_at
    ∷ []

-- All the texts of the rows, one row after the other.
abbrev pub all_texts : (String → Option ℤ) → ℤ → List Server → List String
all_texts get_time now [] = []
all_texts get_time now (server ∷ servers) =
    row_texts get_time now server ++ all_texts get_time now servers

module _ (get_time : String → Option ℤ) (now : ℤ) where
  server_row-texts :
      (A : Type 0) (server : Server)
      → texts (server_row get_time now {A = A} server) ≡ row_texts get_time now server
  unfolding texts server_row connectivity_status_badge health_status_badge
  server_row-texts A server = refl

  each-texts :
      (A : Type 0) (servers : List Server)
      → texts_of (each (server_row get_time now {A = A}) servers) ≡ all_texts get_time now servers
  unfolding texts each
  each-texts A [] = refl
  each-texts A (server ∷ servers) = ap₂ ◌++◌ (server_row-texts A server) (each-texts A servers)

  each-keys :
      (A : Type 0) (servers : List Server)
      → keys (each (server_row get_time now {A = A}) servers)
        ≡ map (λ server. some server.id) servers
  unfolding keys each server_row
  each-keys A [] = refl
  each-keys A (server ∷ servers) = ap (◌∷◌ (some server.id)) (each-keys A servers)

  -- Once the list has loaded, the table has a row for each server of the list, in its order and
  -- under the server's id as its key, and the rows show the names, the labels of the two statuses
  -- and the times last seen of the servers, in that order, and nothing else. While it loads, no text.
  pub table_rows_lem :
      (A : Type 0) (servers : List Server)
      → (keys (table_rows get_time now {A = A} servers false)
          ≡ map (λ server. some server.id) servers)
        × (texts_of (table_rows get_time now {A = A} servers false)
            ≡ all_texts get_time now servers)
        × (texts_of (table_rows get_time now {A = A} servers true) ≡ [])
  unfolding table_rows texts each
  table_rows_lem A servers = (each-keys A servers, each-texts A servers, refl)
