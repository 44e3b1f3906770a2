-- ===== src/Dashboard/Page/Selection.antt =====
-- Which server the dashboard shows.
use tarisya.Prelude.{String, true, some, List, [], ◌∷◌, ◌≡◌, ◌≢◌, refl, arith, eq_iff, not, str_eq}
use tarisya.Types.{Server, MetricsRange, 15m, 1h, 6h, 24h}
use tarisya.Api.{range_text}
use tarisya.Queries.{
  servers, latest_metrics, server, metrics_range, IsEnabled, use_servers, use_server,
  use_latest_metrics, use_metrics_range,
}
use tarisya.Prelude.{All}
use tarisya.Dict.{Dict, lookup, assign, lookup-assign}
use tarisya.Dashboard.Selectors.{range_of_text, range_changed}
use tarisya.Dashboard.Page.{
  SearchParams, PageState, server_id, handle_server_change, set_range, queries,
}

-- The behaviour of `URLSearchParams`.
pub record IsSearchParams (url : SearchParams) : Type 0 where
  pub get-set_self : (k v : String) (p : url.Params) → url.get k (url.set k v p) ≡ some v
  pub get-set_ne :
      (k j v : String) (p : url.Params) → k ≢ j → url.get j (url.set k v p) ≡ url.get j p

-- The laws can be met: a query string as a dictionary.
abbrev pub dict_params : SearchParams
dict_params = record { Params = Dict String; get = lookup; set = assign }

pub dict_params-IsSearchParams : IsSearchParams dict_params
dict_params-IsSearchParams = record {
  get-set_self = λ k v p. rw lookup-assign (ground (arith, eq_iff k k));
  get-set_ne = λ k j v p other. rw lookup-assign (ground (arith, eq_iff k j));
}

named-IsEnabled :
    (id : String) (range : MetricsRange)
    → id ≢ ""
    → All IsEnabled
        (servers ∷ latest_metrics (some id) ∷ server (some id) ∷ metrics_range (some id) range ∷ [])
unfolding use_servers use_server use_latest_metrics use_metrics_range
named-IsEnabled id range named =
    let test : not (str_eq id "") ≡ true = ground (arith, eq_iff id "") in
    (refl, (test, (test, (test, tt))))

queries_at :
    {url : SearchParams} {id : String} (s : PageState url) (loaded : List Server)
    → server_id url s loaded ≡ some id
    → queries url s loaded
      ≡ servers ∷ latest_metrics (some id) ∷ server (some id) ∷ metrics_range (some id) s.range ∷ []
unfolding queries
queries_at s loaded e = rw e

module _ (url : SearchParams) (laws : IsSearchParams url) where
  pub server_id-change :
      (s : PageState url) (id : String) (loaded : List Server)
      → server_id url (handle_server_change url id s) loaded ≡ some id
  unfolding handle_server_change server_id
  server_id-change s id loaded = rw (laws.get-set_self "server" id s.params, server_id)

  -- Once a server is chosen, the page shows that server whatever list is loaded, the address names
  -- it and is otherwise as before, and the range stays. If its id is not empty, every query that
  -- the page makes is enabled and, but for the list, about that server.
  pub handle_server_change_lem :
      (s : PageState url) (id : String) (loaded : List Server)
      → id ≢ ""
      → let t = handle_server_change url id s in
        (server_id url t loaded ≡ some id)
        × (t.range ≡ s.range)
        × ((k : String) → "server" ≢ k → url.get k t.params ≡ url.get k s.params)
        × (queries url t loaded
            ≡ servers
              ∷ latest_metrics (some id)
              ∷ server (some id)
              ∷ metrics_range (some id) s.range
              ∷ [])
        × All IsEnabled (queries url t loaded)
  unfolding handle_server_change
  handle_server_change_lem s id loaded named =
      let now = server_id-change s id loaded in
      let same = queries_at (handle_server_change url id s) loaded now in
      (
        now,
        refl,
        λ k other. laws.get-set_ne "server" k id s.params other,
        same,
        rw same (named-IsEnabled id s.range named),
      )

-- The range of the page changes to the one whose entry is clicked, and a click on the entry that
-- is on, which the group reports as the empty text, leaves it.
pub set_range_lem :
    (url : SearchParams) (s : PageState url) (range : MetricsRange)
    → ((set_range url (range_text range) s).range ≡ range)
      × ((set_range url "" s).range ≡ s.range)
      × ((set_range url (range_text range) s).params ≡ s.params)
unfolding set_range range_changed range_of_text
set_range_lem url s 15m = (refl, refl, refl)
set_range_lem url s 1h = (refl, refl, refl)
set_range_lem url s 6h = (refl, refl, refl)
set_range_lem url s 24h = (refl, refl, refl)
