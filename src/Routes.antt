-- ===== src/Routes.antt =====
-- console/src/App.tsx, console/src/features/auth/protected-route.tsx and console/src/pages/login-page.tsx.
-- `useMe` is the result of its query. A path of the table matches itself: the router's other matches, such as
-- that of a path with a slash at its end, are left out.
pub mod Redirects
pub mod SignIn
mod Examples
use tarisya.Prelude.{
  String, Bool, true, false, Option, none, some, List, [], ◌∷◌, str_eq, if◌then◌else◌,
}
use tarisya.Jsx.{Attr, class, Node, Nodes, text, tag, component, end, ◌▸◌}
use tarisya.Types.{User}
use tarisya.ApiClient.{Failure}
use tarisya.Queries.{use_me}
use tarisya.Layout.{dashboard_layout}

-- The result of the query of `useMe`: `data: user`, null or undefined where it is `none`,
-- `isPending`, and the error of a query that has failed and is not being asked again.
pub record Me : Type 0 where
  pub user : Option User
  pub is_pending : Bool
  pub error : Option Failure

-- What the query library throws where it renders, by `throwOnError` of the query.
abbrev thrown_of : Option (Failure → Bool) → Option Failure → Option Failure
thrown_of (some throws_on) (some e) = if throws_on e then some e else none
thrown_of _ _ = none

unfoldable pub thrown : Option Failure → Option Failure
unfolding use_me
thrown error = thrown_of use_me.throw_on_error error

-- What a route renders: a tree, or `<Navigate to replace state={{ from }} />`, or it throws; the
-- application has no error boundary, so nothing is then shown.
pub data Rendered (A : Type 0) : Type 0 where
  page : Node A → Rendered A
  navigate : (to : String) (replace : Bool) (from : Option String) → Rendered A
  throws : Failure → Rendered A

-- A route of the table, and what its element renders.
pub record Route (A : Type 0) : Type 0 where
  pub path : String
  pub element : Me → Rendered A

module _ {A : Type 0} where
  abbrev pub waiting : Node A
  waiting =
      tag "div" (class "flex h-svh items-center justify-center" ∷ [])
        (tag "Skeleton" (class "size-10 rounded-full" ∷ []) end ▸ end)

  -- A component that calls `useMe`, by what it renders where the hook returns.
  abbrev pub with_me : Me → Rendered A → Rendered A
  with_me m rendered = elim (thrown m.error) [ none ↦ rendered | some e ↦ throws e ]

  -- `location` is the pathname of the current location.
  unfoldable pub protected_route : Me → String → Node A → Rendered A
  protected_route m location children = with_me m (
      if m.is_pending then page waiting else elim m.user [
        | none ↦ navigate "/login" true (some location)
        | some user ↦ page children
      ])

  unfoldable pub login_view : Node A
  login_view = tag "div" (class "flex min-h-svh items-center justify-center bg-muted/30 p-4" ∷ []) (
      tag "div" (class "w-full max-w-sm space-y-6" ∷ []) (
        tag "div" (class "flex flex-col items-center gap-2 text-center" ∷ []) (
          tag "div"
            (class
                "flex size-10 items-center justify-center rounded-lg bg-primary text-primary-foreground"
              ∷ [])
            (tag "Activity" (class "size-5" ∷ []) end ▸ end)
          ▸ tag "h1" (class "text-lg font-semibold" ∷ []) (text "Tarisya Console" ▸ end)
          ▸ end)
        ▸ tag "Card" [] (
            tag "CardHeader" [] (
              tag "CardTitle" [] (text "Sign in" ▸ end)
              ▸ tag "CardDescription" []
                  (text "Enter your credentials to access the dashboard." ▸ end)
              ▸ end)
            ▸ tag "CardContent" [] (tag "LoginForm" [] end ▸ end)
            ▸ end)
        ▸ end)
      ▸ end)

  unfoldable pub login_page : Me → Rendered A
  login_page m = with_me m (
      if m.is_pending
      then page login_view
      else elim m.user [ none ↦ page login_view | some user ↦ navigate "/" true none ])

  -- A page behind the session; `name` is its component.
  abbrev pub guarded : String → String → String → String → Me → Rendered A
  guarded path title description name m =
      protected_route m path (dashboard_layout title (some description) (tag name [] end))

  unfoldable pub routes : List (Route A)
  routes =
      record { path = "/login"; element = login_page }
      ∷ record {
        path = "/";
        element = guarded "/" "Dashboard" "Realtime system resource monitoring" "DashboardPage";
      }
      ∷ record {
        path = "/servers";
        element = guarded "/servers" "Servers" "Manage monitored servers" "ServersPage";
      }
      ∷ []

  find_route : String → List (Route A) → Option (Route A)
  find_route path [] = none
  find_route path (r ∷ rs) = if str_eq r.path path then some r else find_route path rs

  -- What the application renders at a path; `none` where no route matches.
  unfoldable pub app : String → Me → Option (Rendered A)
  unfolding find_route
  app path m = elim (find_route path routes) [ none ↦ none | some r ↦ some (r.element m) ]
