-- ===== src/Routes/Examples.antt =====
-- The routes at concrete sessions.
use tarisya.Prelude.{String, true, false, none, some, [], ◌≡◌, ◌⊎◌, refl}
use tarisya.Jsx.{Node, tag, end}
use tarisya.Types.{LoginResponse}
use tarisya.ApiClient.{Failure, network, api_error}
use tarisya.Mutations.Reference.{counting}
use tarisya.Login.{LoginState}
use tarisya.Layout.{dashboard_layout}
use tarisya.Routes.{Me, navigate, throws, thrown, protected_route, app, routes}
use tarisya.Routes.Redirects.{Fails, Shows, Redirects, app_settles}

-- The core cannot be reached.
abbrev unreachable : Me
unreachable = record { user = none; is_pending = false; error = some network }

app_settles_example :
    ((e : Failure)
      → Fails unreachable e
      → app {A = String} "/servers" unreachable ≡ some (throws e))
    × (((e : Failure) → ¬ Fails unreachable e)
        → Shows String "/servers" unreachable ⊎ Redirects String "/servers" unreachable)
unfolding app routes
app_settles_example = app_settles String "/servers" unreachable (λ e. cc)

abbrev expired : Me
expired = record { user = none; is_pending = false; error = some (api_error 401 "expired") }

runs :
    (app {A = String} "/servers" unreachable ≡ some (throws network))
    × (app {A = String} "/servers" expired ≡ some (navigate "/login" true (some "/servers")))
    × (app {A = String} "/nowhere" expired ≡ none)
unfolding app routes protected_route thrown
runs = (refl, refl, refl)

abbrev content : Node String
content = dashboard_layout "Servers" (some "Manage monitored servers") (tag "ServersPage" [] end)

abbrev ana : LoginResponse
ana = record {
  access_token = "t";
  user = record {
    id = 1;
    name = "Ana";
    email = "ana@tarisya.local";
    role = "admin";
    created_at = "2026-01-01";
  };
}

abbrev blank : LoginState counting
blank = record { email = "ana@tarisya.local"; password = "secret"; mutation = counting.initial }
