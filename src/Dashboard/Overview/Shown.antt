-- ===== src/Dashboard/Overview/Shown.antt =====
-- What the overview of a server tells.
use tarisya.Prelude.{
  String, Bool, true, false, Option, none, some, List, [], ◌∷◌, ◌≡◌, refl, or_else,
}
use tarisya.Jsx.{texts, each}
use tarisya.Types.{ServerDetail}
use tarisya.Format.{format_uptime}
use tarisya.Dashboard.Badges.{
  connectivity_status_badge, health_status_badge, connectivity_meta, health_meta,
}
use tarisya.Dashboard.Overview.{overview_item, server_overview_section}

-- The labels and the values of the items.
abbrev pub item_texts : ServerDetail → Option String → List String
item_texts server last_seen =
    "Connectivity"
    ∷ (connectivity_meta server.connectivity_status).label
    ∷ "Health"
    ∷ (health_meta server.health_status).label
    ∷ "Last Seen"
    ∷ or_else last_seen "Never"
    ∷ "Uptime"
    ∷ format_uptime server.uptime_seconds
    ∷ "Hostname"
    ∷ server.hostname
    ∷ "Agent Version"
    ∷ server.agent_version
    ∷ []

abbrev pub overview_texts : Option ServerDetail → Option String → Bool → List String
overview_texts (some server) last_seen false = item_texts server last_seen
overview_texts server last_seen is_loading = []

-- The overview shows its title, and each item of the server with its value once the server is
-- loaded; while it loads and without a server, no item.
pub server_overview_section_lem :
    (A : Type 0) (server : Option ServerDetail) (last_seen : Option String) (is_loading : Bool)
    → texts {A = A} (server_overview_section server last_seen is_loading)
      ≡ "Server Overview" ∷ overview_texts server last_seen is_loading
unfolding server_overview_section overview_item connectivity_status_badge health_status_badge texts
    each
server_overview_section_lem A none last_seen true = refl
server_overview_section_lem A none last_seen false = refl
server_overview_section_lem A (some server) last_seen true = refl
server_overview_section_lem A (some server) last_seen false = refl
