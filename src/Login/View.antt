-- ===== src/Login/View.antt =====
-- The tree of login-form.tsx. `dev` is `import.meta.env.DEV`.
use tarisya.Prelude.{String, Bool, true, Option, none, some, [], ◌∷◌, str_eq, if◌then◌else◌}
use tarisya.Jsx.{str, flag, on, on_text, class, Node, null, text, tag, end, ◌▸◌, when}
use tarisya.Mutations.{Observer}
use tarisya.Login.{LoginState, error_message}

pub data Action : Type 0 where
  submit dev_login : Action
  set_email set_password : String → Action

-- `errorMessage ? … : null`
abbrev alert : Option String → Node Action
alert none = null
alert (some message) =
    if str_eq message ""
    then null
    else tag "p" (class "text-sm text-destructive" ∷ str "role" "alert" ∷ []) (text message ▸ end)

module _ (o : Observer) (dev : Bool) where
  unfoldable pub view : LoginState o → Node Action
  view s = tag "form" (on "onSubmit" submit ∷ class "space-y-4" ∷ []) (
      tag "div" (class "space-y-2" ∷ []) (
        tag "Label" (str "htmlFor" "email" ∷ []) (text "Email" ▸ end)
        ▸ tag "Input"
            (str "id" "email"
              ∷ str "type" "email"
              ∷ str "autoComplete" "email"
              ∷ str "placeholder" "you@example.com"
              ∷ str "value" s.email
              ∷ on_text "onChange" set_email
              ∷ flag "required" true
              ∷ [])
            end
        ▸ end)
      ▸ tag "div" (class "space-y-2" ∷ []) (
          tag "Label" (str "htmlFor" "password" ∷ []) (text "Password" ▸ end)
          ▸ tag "Input"
              (str "id" "password"
                ∷ str "type" "password"
                ∷ str "autoComplete" "current-password"
                ∷ str "placeholder" "••••••••"
                ∷ str "value" s.password
                ∷ on_text "onChange" set_password
                ∷ flag "required" true
                ∷ [])
              end
          ▸ end)
      ▸ alert (error_message (o.error s.mutation))
      ▸ tag "Button"
          (str "type" "submit" ∷ class "w-full" ∷ flag "disabled" (o.is_pending s.mutation) ∷ [])
          (when (o.is_pending s.mutation) (tag "Loader2" (class "size-4 animate-spin" ∷ []) end)
            ▸ text "Sign in"
            ▸ end)
      ▸ when dev (
          tag "Button"
            (str "type" "button"
              ∷ str "variant" "outline"
              ∷ class "w-full"
              ∷ flag "disabled" (o.is_pending s.mutation)
              ∷ on "onClick" dev_login
              ∷ [])
            (text "Dev account" ▸ end))
      ▸ end)
