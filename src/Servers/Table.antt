-- ===== src/Servers/Table.antt =====
-- servers-table.tsx, and console/src/pages/servers-page.tsx. The dialogs of a row keep state of their
-- own and stand as elements with their props. `now` is the time of the render.
pub mod Rows
mod Examples
use tarisya.Prelude.{
  ℕ, String, Bool, true, false, Option, none, some, List, [], ◌∷◌, ◌<>◌, show, str_eq,
  if◌then◌else◌,
}
use tarisya.Prelude.Int.{ℤ}
use tarisya.Jsx.{Attr, str, num, class, Node, Nodes, text, tag, component, end, ◌▸◌, each}
use tarisya.Types.{Server}
use tarisya.Format.{format_relative_time}
use tarisya.Dashboard.Badges.{connectivity_status_badge, health_status_badge}

-- The target of a server's link.
unfoldable pub server_link : Server → String
server_link server = "/?server=" <> server.id

module _ {A : Type 0} where
  abbrev dialog : String → Server → Node A
  dialog name server = tag name (str "serverId" server.id ∷ str "serverName" server.name ∷ []) end

  abbrev loading_rows : Nodes A
  loading_rows =
      each
        (λ (index : ℕ). component "TableRow" (some (show index)) (
          tag "TableRow" [] (
            tag "TableCell" (num "colSpan" 5 ∷ [])
              (tag "Skeleton" (class "h-8 w-full" ∷ []) end ▸ end)
            ▸ end)))
        (0 ∷ 1 ∷ 2 ∷ [])

  abbrev header_row : Node A
  header_row = tag "TableRow" [] (
      tag "TableHead" [] (text "Name" ▸ end)
      ▸ tag "TableHead" [] (text "Connectivity" ▸ end)
      ▸ tag "TableHead" [] (text "Health" ▸ end)
      ▸ tag "TableHead" [] (text "Last Seen" ▸ end)
      ▸ tag "TableHead" (class "text-right" ∷ []) (text "Actions" ▸ end)
      ▸ end)

module _ (get_time : String → Option ℤ) (now : ℤ) where
  -- `server.last_seen_at ? formatRelativeTime(server.last_seen_at) : "Never"`
  unfoldable pub last_seen_text : Option String → String
  last_seen_text none = "Never"
  last_seen_text (some iso_date) =
      if str_eq iso_date "" then "Never" else format_relative_time get_time iso_date now

  unfoldable pub server_row : {A : Type 0} → Server → Node A
  server_row server = component "TableRow" (some server.id) (
      tag "TableRow" [] (
        tag "TableCell" (class "font-medium" ∷ []) (
          tag "Link" (str "to" (server_link server) ∷ class "hover:underline" ∷ [])
            (text server.name ▸ end)
          ▸ end)
        ▸ tag "TableCell" [] (connectivity_status_badge server.connectivity_status ▸ end)
        ▸ tag "TableCell" [] (health_status_badge server.health_status ▸ end)
        ▸ tag "TableCell" (class "text-muted-foreground" ∷ [])
            (text (last_seen_text server.last_seen_at) ▸ end)
        ▸ tag "TableCell" [] (
            tag "div" (class "flex items-center justify-end gap-2" ∷ [])
              (dialog "RotateApiKeyDialog" server ▸ dialog "DeleteServerDialog" server ▸ end)
            ▸ end)
        ▸ end))

  -- The children of `TableBody`.
  unfoldable pub table_rows : {A : Type 0} → List Server → Bool → Nodes A
  table_rows servers true = loading_rows
  table_rows servers false = each server_row servers

  unfoldable pub servers_table : {A : Type 0} → List Server → Bool → Node A
  servers_table servers is_loading = tag "Table" [] (
      tag "TableHeader" [] (header_row ▸ end)
      ▸ tag "TableBody" [] (table_rows servers is_loading)
      ▸ end)

  -- `servers` is what the query holds; `data: servers = []`.
  unfoldable pub servers_page : {A : Type 0} → Option (List Server) → Bool → Bool → Node A
  servers_page servers is_loading is_error = tag "div" (class "space-y-4" ∷ []) (
      tag "div" (class "flex items-center justify-end" ∷ []) (tag "CreateServerDialog" [] end ▸ end)
      ▸ (if is_error
          then tag "p" (class "text-sm text-destructive" ∷ [])
              (text "Gagal memuat daftar server. Coba muat ulang halaman." ▸ end)
          else component "ServersTable" none
              (servers_table (elim servers [ none ↦ [] | some listed ↦ listed ]) is_loading))
      ▸ end)
