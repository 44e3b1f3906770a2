-- ===== src/Login.antt =====
-- console/src/features/auth/login-form.tsx.
pub mod View
pub mod Laws
mod Examples
use tarisya.Prelude.{ℕ, String, Bool, true, Option, none, some, ◌==◌, or_else, if◌then◌else◌}
use tarisya.Types.{LoginPayload, LoginResponse}
use tarisya.ApiClient.{Failure, api_error}
use tarisya.Api.{Call, login}
use tarisya.Mutations.{Observer, Answer, success, failure, failure_of}

abbrev pub dev_account : LoginPayload
dev_account = record { email = "dev@tarisya.local"; password = "development-password" }

-- A navigation, `navigate(to, { replace })`.
pub record Navigation : Type 0 where
  pub to : String
  pub replace : Bool

-- `location.state?.from?.pathname ?? "/"`; the argument is the pathname, if there is one.
unfoldable pub redirect_to : Option String → String
redirect_to from = or_else from "/"

-- What the form says about the error of the mutation.
unfoldable pub error_message : Option Failure → Option String
error_message none = none
error_message (some (api_error status message)) =
    some (if status == 401 then "Email atau password salah." else message)
error_message (some _) = some "Terjadi kesalahan. Silakan coba lagi."

module _ (o : Observer) where
  pub record LoginState : Type 0 where
    pub email : String
    pub password : String
    pub mutation : o.State

  unfoldable pub initial : LoginState
  initial = record { email = ""; password = ""; mutation = o.initial }

  -- `onChange` of the two inputs
  unfoldable pub set_email : String → LoginState → LoginState
  set_email email s = record s { email = email }

  unfoldable pub set_password : String → LoginState → LoginState
  set_password password s = record s { password = password }

  -- The new state, the number of the call, and the call.
  unfoldable pub submit : LoginPayload → LoginState → LoginState × ℕ × Call
  submit payload s =
      let (mutation, id) = o.mutate s.mutation in
      (record s { mutation = mutation }, id, login payload)

  unfoldable pub handle_submit : LoginState → LoginState × ℕ × Call
  handle_submit s = submit (record { email = s.email; password = s.password }) s

  unfoldable pub handle_dev_login : LoginState → LoginState × ℕ × Call
  handle_dev_login s =
      submit dev_account (record s { email = dev_account.email; password = dev_account.password })

  -- `onSuccess`, `navigate(redirectTo, { replace: true })`
  abbrev on_success : Option String → Answer LoginResponse → Option Navigation
  on_success from (success response) = some (record { to = redirect_to from; replace = true })
  on_success from (failure e) = none

  -- The answer to a call arrives: the new state, and the navigation that it causes. `from` is the
  -- pathname that the location's state names.
  unfoldable pub answered :
      Option String → ℕ → Answer LoginResponse → LoginState → LoginState × Option Navigation
  answered from id answer s =
      let (mutation, runs) = o.settle id (failure_of answer) s.mutation in
      (record s { mutation = mutation }, if runs then on_success from answer else none)
