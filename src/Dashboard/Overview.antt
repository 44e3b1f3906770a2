-- ===== src/Dashboard/Overview.antt =====
-- server-overview-section.tsx. `last_seen` is what `useRelativeTime` returns for the server.
pub mod Shown
mod Examples
use tarisya.Prelude.{ℕ, String, Bool, true, false, Option, none, some, [], ◌∷◌, or_else, show}
use tarisya.Jsx.{class, Node, text, tag, component, end, ◌▸◌, each}
use tarisya.Types.{ServerDetail}
use tarisya.Format.{format_uptime}
use tarisya.Dashboard.Badges.{connectivity_status_badge, health_status_badge}

module _ {A : Type 0} where
  unfoldable pub overview_item : String → Node A → Node A
  overview_item label child = component "OverviewItem" none (
      tag "div" (class "space-y-1" ∷ []) (
        tag "dt" (class "text-xs text-muted-foreground" ∷ []) (text label ▸ end)
        ▸ tag "dd" (class "text-sm font-medium" ∷ []) (child ▸ end)
        ▸ end))

  abbrev skeletons : Node A
  skeletons = tag "div" (class "grid gap-4 sm:grid-cols-2 xl:grid-cols-3" ∷ []) (
      each
        (λ (index : ℕ).
          component "Skeleton" (some (show index)) (tag "Skeleton" (class "h-10 w-full" ∷ []) end))
        (0 ∷ 1 ∷ 2 ∷ 3 ∷ 4 ∷ 5 ∷ []))

  abbrev items : ServerDetail → Option String → Node A
  items server last_seen = tag "dl" (class "grid gap-4 sm:grid-cols-2 xl:grid-cols-3" ∷ []) (
      overview_item "Connectivity" (connectivity_status_badge server.connectivity_status)
      ▸ overview_item "Health" (health_status_badge server.health_status)
      ▸ overview_item "Last Seen" (text (or_else last_seen "Never"))
      ▸ overview_item "Uptime" (text (format_uptime server.uptime_seconds))
      ▸ overview_item "Hostname" (text server.hostname)
      ▸ overview_item "Agent Version" (text server.agent_version)
      ▸ end)

  -- `isLoading || !server`
  abbrev body : Option ServerDetail → Option String → Bool → Node A
  body server last_seen true = skeletons
  body none last_seen false = skeletons
  body (some server) last_seen false = items server last_seen

  unfoldable pub server_overview_section : Option ServerDetail → Option String → Bool → Node A
  server_overview_section server last_seen is_loading = tag "Card" [] (
      tag "CardHeader" []
        (tag "CardTitle" (class "text-sm font-medium" ∷ []) (text "Server Overview" ▸ end) ▸ end)
      ▸ tag "CardContent" [] (body server last_seen is_loading ▸ end)
      ▸ end)
