-- ===== src/Login/Examples.antt =====
-- The login form at a concrete attempt.
use tarisya.Prelude.{String, true, false, none, some, [], ◌∷◌, ◌++◌, ◌≡◌, refl, or_else}
use tarisya.Jsx.{texts}
use tarisya.Types.{LoginResponse}
use tarisya.ApiClient.{Failure, api_error}
use tarisya.Api.{login}
use tarisya.Mutations.{success, failure}
use tarisya.Mutations.Reference.{counting, counting-IsObserver}
use tarisya.Login.{
  LoginState, handle_submit, handle_dev_login, submit, answered, error_message, dev_account,
}
use tarisya.Login.View.{view}
use tarisya.Login.Laws.{Says, said_of, handle_submit_lem}

abbrev typed_in : LoginState counting
typed_in = record {
  email = "ann@example.com";
  password = "secret";
  mutation = record { next = 4; current = none; error = some (api_error 401 "no") };
}

runs :
    (error_message (some (api_error 429 "too many requests")) ≡ some "too many requests")
    × ((handle_dev_login counting typed_in).2 ≡ login dev_account)
unfolding error_message handle_dev_login submit
runs = (refl, refl)

handle_submit_lem_example :
    let (sent, id, c) = handle_submit counting typed_in in
    (c ≡ login (record { email = "ann@example.com"; password = "secret" }))
    × (counting.is_pending sent.mutation ≡ true)
    × (error_message (counting.error sent.mutation) ≡ none)
    × ((response : LoginResponse)
        → (answered counting (some "/servers") id (success response) sent).1
          ≡ some (record { to = or_else (some "/servers") "/"; replace = true }))
    × ((e : Failure) (message : String)
        → Says e message
        → let (t, navigation) = answered counting (some "/servers") id (failure e) sent in
          (navigation ≡ none)
          × (t.email ≡ "ann@example.com")
          × (t.password ≡ "secret")
          × (counting.is_pending t.mutation ≡ false)
          × (texts (view counting false t)
              ≡ "Email" ∷ "Password" ∷ said_of message ++ "Sign in" ∷ []))
handle_submit_lem_example =
    handle_submit_lem counting counting-IsObserver typed_in (some "/servers")
