-- ===== src/Dashboard/Page/Chosen.antt =====
-- The dashboard after the choice of a server and a range.
use tarisya.Prelude.{
  String, Bool, true, false, not, ◌&&◌, Option, none, some, List, ◌∷◌, ◌≡◌, refl, ap, ◌∙◌,
}
use tarisya.Jsx.{texts}
use tarisya.Types.{Server, MetricsRange}
use tarisya.Double.{Double}
use tarisya.Api.{range_text}
use tarisya.Dashboard.Page.{
  SearchParams, PageState, Results, Clock, listed, is_empty, server_id, handle_server_change,
  set_range, dashboard_page,
}
use tarisya.Dashboard.Page.Content.{loaded_texts, loaded_lem}
use tarisya.Dashboard.Page.Selection.{IsSearchParams, server_id-change, set_range_lem}

module _ {F : Type 0} ⦃d : Double F⦄ (url : SearchParams) (clock : Clock) (theme : String)
    (q : Results F) where
  -- The texts of the page about one server and one range.
  abbrev pub texts_about : Option String → MetricsRange → List String
  texts_about id range =
      loaded_texts url clock theme q.use_servers (q.use_server_metrics id) (q.use_server id)
        (q.use_metrics_range id range)

  and-false : (b : Bool) → (not b && false) ≡ false
  and-false true = refl
  and-false false = refl

  server_id-first :
      (s : PageState url) (server : Server) (servers : List Server)
      → url.get "server" s.params ≡ none
      → server_id url s (server ∷ servers) ≡ some server.id
  unfolding server_id
  server_id-first s server servers unnamed = rw (unnamed, server_id)

  shown_lem :
      (s : PageState url) (id : Option String) (range : MetricsRange)
      → q.use_servers.is_error ≡ false
      → (not q.use_servers.is_loading && is_empty (listed q.use_servers)) ≡ false
      → server_id url s (listed q.use_servers) ≡ id
      → s.range ≡ range
      → texts (dashboard_page url clock theme s q) ≡ texts_about id range
  unfolding dashboard_page
  shown_lem s id range no_error some_server chosen ranged =
      loaded_lem url clock theme s q.use_servers _ _ _ no_error some_server ∙ λ i.
      texts_about (chosen i) (ranged i)

  -- Where the list of the servers has not failed: once a server and then a range are chosen, and the
  -- list is loading or holds a server, the page shows the names of the servers, the overview and the
  -- latest measurements of that server, the ranges, its history over that range or a message if that
  -- cannot be fetched, and the alerts. Where the address names no server, it shows the same of the
  -- first one in the list, and the range that is on.
  pub chosen_shown :
      IsSearchParams url
      → q.use_servers.is_error ≡ false
      → (s : PageState url)
      → ((id : String) (range : MetricsRange)
          → (not q.use_servers.is_loading && is_empty (listed q.use_servers)) ≡ false
          → texts (
              dashboard_page url clock theme
                (set_range url (range_text range) (handle_server_change url id s))
                q)
            ≡ texts_about (some id) range)
        × ((server : Server) (servers : List Server)
            → url.get "server" s.params ≡ none
            → listed q.use_servers ≡ server ∷ servers
            → texts (dashboard_page url clock theme s q) ≡ texts_about (some server.id) s.range)
  unfolding server_id
  chosen_shown laws no_error s = (
    λ id range some_server.
        let chosen = handle_server_change url id s in
        let (ranged, _, kept) = set_range_lem url chosen range in
        shown_lem (set_range url (range_text range) chosen) (some id) range no_error some_server
          (ap (λ params. server_id url (record chosen { params = params }) (listed q.use_servers))
              kept
            ∙ server_id-change url laws s id (listed q.use_servers))
          ranged,
    λ server servers unnamed loaded.
        shown_lem s (some server.id) s.range no_error
          (rw loaded (and-false q.use_servers.is_loading))
          (ap (server_id url s) loaded ∙ server_id-first s server servers unnamed) refl,
  )
