-- ===== src/Login/Laws.antt =====
-- Signing in.
use tarisya.Prelude.{
  ℕ, String, true, false, Option, none, some, List, [], ◌∷◌, ◌++◌, ◌≡◌, str_eq, if◌then◌else◌,
  Bool-cases, inl, inr, ◌≢◌, refl, ap, ◌∙◌, arith, or_else,
}
use tarisya.Jsx.{texts, when}
use tarisya.Types.{LoginResponse}
use tarisya.ApiClient.{Failure, api_error, network, bad_json}
use tarisya.Api.{login}
use tarisya.Mutations.{Observer, IsObserver, success, failure}
use tarisya.Login.{LoginState, submit, handle_submit, answered, error_message, redirect_to}
use tarisya.Login.View.{view}

-- What the form says of a failure, as users read it.
pub data Says : Failure → String → Type 0 where
  wrong_credentials :
      {status : ℕ} {message : String}
      → status ≡ 401
      → Says (api_error status message) "Email atau password salah."
  refused : {status : ℕ} {message : String} → status ≢ 401 → Says (api_error status message) message
  unreachable : Says network "Terjadi kesalahan. Silakan coba lagi."
  garbled : Says bad_json "Terjadi kesalahan. Silakan coba lagi."

error_message_of_Says : {e : Failure} {m : String} → Says e m → error_message (some e) ≡ some m
unfolding error_message
error_message_of_Says (wrong_credentials h) = ground arith
error_message_of_Says (refused h) = ground arith
error_message_of_Says unreachable = refl
error_message_of_Says garbled = refl

-- A message as a text of the form; an empty one is not shown.
abbrev pub said_of : String → List String
said_of message = if str_eq message "" then [] else message ∷ []

view-texts :
    (o : Observer) (s : LoginState o) {message : String}
    → error_message (o.error s.mutation) ≡ some message
    → o.is_pending s.mutation ≡ false
    → texts (view o false s) ≡ "Email" ∷ "Password" ∷ said_of message ++ "Sign in" ∷ []
unfolding texts view when
view-texts o s {message} said idle = elim (Bool-cases (str_eq message "")) [
  | inl silent ↦ rw (said, idle, silent) refl
  | inr loud ↦ rw (said, idle, loud) refl
]

module _ (o : Observer) (laws : IsObserver o) where
  open laws use {current-mutate, settle_current, is_pending-mutate, error-mutate}

  -- Submitting the form sends the email and the password that it shows, and clears the error of an
  -- earlier attempt. If the answer arrives before another attempt, a success replaces the page by
  -- the one that the user was sent here from, or else by "/"; a failure goes nowhere, and the form
  -- shows what `Says` has it say, if that is not empty, with its inputs as they were and its button enabled.
  pub handle_submit_lem :
      (s : LoginState o) (from : Option String)
      → let (sent, id, c) = handle_submit o s in
        (c ≡ login (record { email = s.email; password = s.password }))
        × (o.is_pending sent.mutation ≡ true)
        × (error_message (o.error sent.mutation) ≡ none)
        × ((response : LoginResponse)
            → (answered o from id (success response) sent).1
              ≡ some (record { to = or_else from "/"; replace = true }))
        × ((e : Failure) (message : String)
            → Says e message
            → let (t, navigation) = answered o from id (failure e) sent in
              (navigation ≡ none)
              × (t.email ≡ s.email)
              × (t.password ≡ s.password)
              × (o.is_pending t.mutation ≡ false)
              × (texts (view o false t) ≡ "Email" ∷ "Password" ∷ said_of message ++ "Sign in" ∷ []))
  unfolding handle_submit submit answered redirect_to error_message
  handle_submit_lem s from =
      let (mutation, id) = o.mutate s.mutation in
      let now : o.current mutation ≡ some id = current-mutate s.mutation in
      (
        refl,
        is_pending-mutate s.mutation,
        ap error_message (error-mutate s.mutation),
        λ response. rw (settle_current mutation id none now).0 refl,
        λ e message says.
            let (runs, _, idle, shown) = settle_current mutation id (some e) now in
            (
              rw runs refl,
              refl,
              refl,
              idle,
              view-texts o _ (ap error_message shown ∙ error_message_of_Says says) idle,
            ),
      )
