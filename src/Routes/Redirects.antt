-- ===== src/Routes/Redirects.antt =====
-- Where the paths of the application lead, by the session.
use tarisya.Prelude.{
  String, Bool, true, false, Option, none, some, [], ◌≡◌, ◌≢◌, ◌⊎◌, inl, inr, refl, str_eq, arith,
  Bool-cases, eq_iff,
}
use tarisya.Jsx.{Node, tag, end}
use tarisya.Types.{User}
use tarisya.ApiClient.{Failure, api_error}
use tarisya.Queries.{is_unauthorized}
use tarisya.Queries.Unauthorized.{unauthorized_iff}
use tarisya.Layout.{dashboard_layout}
use tarisya.Routes.{
  Me, page, navigate, throws, thrown, protected_route, login_page, login_view, waiting, routes, app,
}

-- The session could not be read for another reason than that nobody is signed in.
abbrev pub Fails : Me → Failure → Type 0
Fails m e = (m.error ≡ some e) × ((message : String) → e ≢ api_error 401 message)

thrown_failure :
    (e : Failure) → ((message : String) → e ≢ api_error 401 message) → thrown (some e) ≡ some e
unfolding thrown
thrown_failure e other = elim (Bool-cases (is_unauthorized e)) [
  | inl unauthorized ↦
      let (message, is) = (unauthorized_iff e).0 (rw unauthorized refl) in absurd (other message is)
  | inr h ↦ rw h refl
]

thrown-none :
    (user : Option User) (is_pending : Bool) (error : Option Failure)
    → ((e : Failure) → ¬ Fails (record { user = user; is_pending = is_pending; error = error }) e)
    → thrown error ≡ none
unfolding thrown
thrown-none user is_pending none fine = refl
thrown-none user is_pending (some e) fine = elim (Bool-cases (is_unauthorized e)) [
  | inl h ↦ rw h refl
  | inr h ↦
      absurd
        (fine e (refl, λ message is. let t = (unauthorized_iff e).1 (message, is) in ground arith))
]

module _ (A : Type 0) where
  -- The path shows a tree.
  abbrev pub Shows : String → Me → Type 0
  Shows path m = (node : Node A) × (app path m ≡ some (page node))

  -- The path redirects to one that shows a tree.
  abbrev pub Redirects : String → Me → Type 0
  Redirects path m =
      (to : String) × (from : Option String) × (app {A = A} path m ≡ some (navigate to true from))
      × Shows to m

  -- The two pages behind the session, by their path and content.
  abbrev pub home : Node A
  home =
      dashboard_layout "Dashboard" (some "Realtime system resource monitoring")
        (tag "DashboardPage" [] end)

  abbrev pub servers : Node A
  servers = dashboard_layout "Servers" (some "Manage monitored servers") (tag "ServersPage" [] end)

  -- The same at a session given by its parts.
  abbrev Settles : String → Option User → Bool → Option Failure → Type 0
  Settles path user is_pending error =
      let m : Me = record { user = user; is_pending = is_pending; error = error } in
      thrown error ≡ none → Shows path m ⊎ Redirects path m

  login-Settles :
      (user : Option User) (is_pending : Bool) (error : Option Failure)
      → Settles "/login" user is_pending error
  unfolding app routes login_page protected_route thrown login_view
  login-Settles user true error quiet = inl (login_view, rw quiet refl)
  login-Settles none false error quiet = inl (login_view, rw quiet refl)
  login-Settles (some user) false error quiet =
      inr ("/", none, rw quiet refl, (home, rw quiet refl))

  home-Settles :
      (user : Option User) (is_pending : Bool) (error : Option Failure)
      → Settles "/" user is_pending error
  unfolding app routes login_page protected_route thrown
  home-Settles user true error quiet = inl (waiting, rw quiet refl)
  home-Settles none false error quiet =
      inr ("/login", some "/", rw quiet refl, (login_view, rw quiet refl))
  home-Settles (some user) false error quiet = inl (home, rw quiet refl)

  servers-Settles :
      (user : Option User) (is_pending : Bool) (error : Option Failure)
      → Settles "/servers" user is_pending error
  unfolding app routes login_page protected_route thrown
  servers-Settles user true error quiet = inl (waiting, rw quiet refl)
  servers-Settles none false error quiet =
      inr ("/login", some "/servers", rw quiet refl, (login_view, rw quiet refl))
  servers-Settles (some user) false error quiet = inl (servers, rw quiet refl)

  -- The paths of the table.
  data IsKnown : String → Type 0 where
    at_login : IsKnown "/login"
    at_home : IsKnown "/"
    at_servers : IsKnown "/servers"

  IsKnown-path : (path : String) (m : Me) → app {A = A} path m ≢ none → IsKnown path
  unfolding app routes
  IsKnown-path path m known = elim (Bool-cases (str_eq "/login" path)) [
    | inl e ↦ rw (← ((eq_iff "/login" path).0 e)) at_login
    | inr no_login ↦ elim (Bool-cases (str_eq "/" path)) [
      | inl e ↦ rw (← ((eq_iff "/" path).0 e)) at_home
      | inr no_home ↦ elim (Bool-cases (str_eq "/servers" path)) [
        | inl e ↦ rw (← ((eq_iff "/servers" path).0 e)) at_servers
        | inr no_servers ↦ absurd (known (ground arith))
      ]
    ]
  ]

  known_throws :
      (path : String) (m : Me) (e : Failure)
      → IsKnown path
      → thrown m.error ≡ some e
      → app {A = A} path m ≡ some (throws e)
  unfolding app routes login_page protected_route thrown
  known_throws path m e at_login h = rw h refl
  known_throws path m e at_home h = rw h refl
  known_throws path m e at_servers h = rw h refl

  known_settles :
      (path : String) (m : Me)
      → IsKnown path
      → thrown m.error ≡ none
      → Shows path m ⊎ Redirects path m
  known_settles path m at_login h = login-Settles m.user m.is_pending m.error h
  known_settles path m at_home h = home-Settles m.user m.is_pending m.error h
  known_settles path m at_servers h = servers-Settles m.user m.is_pending m.error h

  -- At every path that the application knows: where the session could not be read, for another
  -- reason than a 401, the application throws that failure and shows nothing. Otherwise, whatever
  -- the session, it shows a page at once or after one redirect.
  pub app_settles :
      (path : String) (m : Me)
      → app {A = A} path m ≢ none
      → ((e : Failure) → Fails m e → app {A = A} path m ≡ some (throws e))
        × (((e : Failure) → ¬ Fails m e) → Shows path m ⊎ Redirects path m)
  app_settles path m known =
      let is = IsKnown-path path m known in
      (
        λ e (found, other). known_throws path m e is (rw found (thrown_failure e other)),
        λ fine. known_settles path m is (thrown-none m.user m.is_pending m.error fine),
      )
