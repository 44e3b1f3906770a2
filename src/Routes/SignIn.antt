-- ===== src/Routes/SignIn.antt =====
-- Signing in on the way to a page: the guard, the login form and the navigation after the answer.
use tarisya.Prelude.{String, false, Option, none, some}
use tarisya.Jsx.{Node}
use tarisya.Types.{User}
use tarisya.Login.{Navigation}
use tarisya.Routes.{Me, Rendered, navigate}
use tarisya.Routes.Redirects.{home, servers}

abbrev pub nobody : Me
nobody = record { user = none; is_pending = false; error = none }

abbrev pub signed_in : User → Me
signed_in user = record { user = some user; is_pending = false; error = none }

-- A place in the history: a path, and the pathname that its state names.
pub record Location : Type 0 where
  pub pathname : String
  pub from : Option String

-- Where a visitor is after what a place renders, and after a navigation of the login form.
abbrev pub follow : {A : Type 0} → Location → Option (Rendered A) → Location
follow at (some (navigate to replace from)) = record { pathname = to; from = from }
follow at _ = at

abbrev pub moved : Location → Option Navigation → Location
moved at none = at
moved at (some n) = record { pathname = n.to; from = none }

module _ (A : Type 0) where
  -- The two pages behind the session, by their path and content.
  pub data IsGuarded : String → Node A → Type 0 where
    at_home : IsGuarded "/" (home A)
    at_servers : IsGuarded "/servers" (servers A)
