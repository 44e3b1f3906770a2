-- ===== src/Dashboard/Badges.antt =====
-- server-status-badge.tsx, status-badge.tsx and active-alerts-section.tsx.
use tarisya.Prelude.{String, [], ◌∷◌, ◌<>◌}
use tarisya.Jsx.{str, obj, class, Node, text, tag, component, end, ◌▸◌}
use tarisya.Prelude.{none}
use tarisya.Types.{ConnectivityStatus, HealthStatus}
use tarisya.Metrics.{Status, status_color}

-- A label and a class name, or a label and an icon.
pub record Meta : Type 0 where
  pub label : String
  pub look : String

unfoldable pub connectivity_meta : ConnectivityStatus → Meta
connectivity_meta ConnectivityStatus.online = record {
  label = "Online";
  look = "bg-[#0ca30c]/10 text-[#0ca30c]";
}
connectivity_meta ConnectivityStatus.offline = record {
  label = "Offline";
  look = "bg-[#d03b3b]/10 text-[#d03b3b]";
}
connectivity_meta ConnectivityStatus.pending = record {
  label = "Pending";
  look = "bg-muted text-muted-foreground";
}

unfoldable pub health_meta : HealthStatus → Meta
health_meta HealthStatus.healthy = record {
  label = "Healthy";
  look = "bg-[#0ca30c]/10 text-[#0ca30c]";
}
health_meta HealthStatus.warning = record {
  label = "Warning";
  look = "bg-[#fab219]/15 text-[#a66600]";
}
health_meta HealthStatus.critical = record {
  label = "Critical";
  look = "bg-[#d03b3b]/10 text-[#d03b3b]";
}
health_meta HealthStatus.unknown = record {
  label = "Unknown";
  look = "bg-muted text-muted-foreground";
}

unfoldable pub status_meta : Status → Meta
status_meta Status.good = record { label = "Normal"; look = "CheckCircle2" }
status_meta Status.warning = record { label = "Elevated"; look = "AlertTriangle" }
status_meta Status.critical = record { label = "Critical"; look = "XCircle" }

module _ {A : Type 0} where
  abbrev badge : Meta → Node A
  badge m =
      tag "Badge" (str "variant" "outline" ∷ class ("border-transparent " <> m.look) ∷ [])
        (text m.label ▸ end)

  unfoldable pub connectivity_status_badge : ConnectivityStatus → Node A
  unfolding connectivity_meta
  connectivity_status_badge status =
      component "ConnectivityStatusBadge" none (badge (connectivity_meta status))

  unfoldable pub health_status_badge : HealthStatus → Node A
  unfolding health_meta
  health_status_badge status = component "HealthStatusBadge" none (badge (health_meta status))

  unfoldable pub status_badge : Status → Node A
  unfolding status_meta
  status_badge status =
      let m = status_meta status in
      component "StatusBadge" none (
        tag "span"
          (class "inline-flex items-center gap-1 rounded-full px-2 py-0.5 text-xs font-medium"
            ∷ obj "style" (
                ("color", status_color status)
                ∷ ("backgroundColor", status_color status <> "1a")
                ∷ [])
            ∷ [])
          (tag m.look (class "size-3.5" ∷ []) end ▸ text m.label ▸ end))

  unfoldable pub active_alerts_section : Node A
  active_alerts_section = tag "Card" [] (
      tag "CardHeader" []
        (tag "CardTitle" (class "text-sm font-medium" ∷ []) (text "Active Alerts" ▸ end) ▸ end)
      ▸ tag "CardContent" [] (
          tag "div" (class "flex flex-col items-center gap-2 py-8 text-center" ∷ []) (
            tag "ShieldCheck" (class "size-8 text-muted-foreground/50" ∷ []) end
            ▸ tag "p" (class "text-sm text-muted-foreground" ∷ []) (text "No active alerts" ▸ end)
            ▸ end)
          ▸ end)
      ▸ end)
