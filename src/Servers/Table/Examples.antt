-- ===== src/Servers/Table/Examples.antt =====
-- The table at two concrete servers.
use tarisya.Prelude.{String, true, false, Option, none, some, [], ◌∷◌, ◌≡◌, refl}
use tarisya.Prelude.Int.{ℤ, pos}
use tarisya.Jsx.{texts, texts_of, keys}
use tarisya.Types.{Server, OverallStatus, ConnectivityStatus, HealthStatus}
use tarisya.Servers.Table.{table_rows, servers_page}
use tarisya.Servers.Table.Rows.{all_texts, table_rows_lem}

abbrev web : Server
web = record {
  id = "srv_1";
  name = "web";
  overall_status = OverallStatus.pending;
  connectivity_status = ConnectivityStatus.pending;
  health_status = HealthStatus.unknown;
  last_seen_at = none;
  created_at = "2026-01-01T00:00:00Z";
}

abbrev mail : Server
mail = record {
  id = "srv_2";
  name = "mail";
  overall_status = OverallStatus.healthy;
  connectivity_status = ConnectivityStatus.online;
  health_status = HealthStatus.healthy;
  last_seen_at = some "2026-01-01T00:00:00Z";
  created_at = "2026-01-01T00:00:00Z";
}

abbrev get_time : String → Option ℤ
get_time iso = some (pos 1_000)

runs :
    texts (servers_page get_time (pos 9_000) {A = String} none false true)
    ≡ "Gagal memuat daftar server. Coba muat ulang halaman." ∷ []
unfolding texts servers_page
runs = refl

table_rows_lem_example :
    let listed = web ∷ mail ∷ [] in
    (keys (table_rows get_time (pos 9_000) {A = String} listed false)
      ≡ some "srv_1" ∷ some "srv_2" ∷ [])
    × (texts_of (table_rows get_time (pos 9_000) {A = String} listed false)
        ≡ all_texts get_time (pos 9_000) listed)
    × (texts_of (table_rows get_time (pos 9_000) {A = String} listed true) ≡ [])
table_rows_lem_example = table_rows_lem get_time (pos 9_000) String (web ∷ mail ∷ [])
