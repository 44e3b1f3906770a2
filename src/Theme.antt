-- ===== src/Theme.antt =====
-- console/src/components/theme-provider.tsx and theme-toggle.tsx. The theme is a text at run time:
-- what the browser has stored is cast to it unchecked. The browser's part is in the state: the
-- stored text, whether its colour scheme is dark, and the class `dark` of the document.
pub mod Laws
mod Examples
use tarisya.Prelude.{
  String, Bool, true, false, Option, none, some, List, [], ◌∷◌, str_eq, if◌then◌else◌, or_else,
}
use tarisya.Jsx.{
  Attr, str, on, class, Node, Nodes, null, text, tag, component, end, ◌▸◌, each, when,
}

pub record ThemeState : Type 0 where
  pub stored : Option String
  pub theme : String
  pub prefers_dark : Bool
  pub dark_class : Bool

-- What the provider hands to its consumers; `setTheme` is `set_theme`.
pub record ThemeContext : Type 0 where
  pub theme : String
  pub resolved_theme : String

abbrev pub get_system_theme : Bool → String
get_system_theme matches = if matches then "dark" else "light"

abbrev pub resolved_theme : ThemeState → String
resolved_theme s = if str_eq s.theme "system" then get_system_theme s.prefers_dark else s.theme

-- `classList.toggle("dark", theme === "dark")`
unfoldable pub apply_theme : String → ThemeState → ThemeState
apply_theme theme s = record s { dark_class = str_eq theme "dark" }

-- A render after a change of the state: the effect runs where the resolved theme is another one
-- than before.
unfoldable pub commit : ThemeState → ThemeState → ThemeState
unfolding apply_theme
commit before s =
    if str_eq (resolved_theme before) (resolved_theme s)
    then s
    else apply_theme (resolved_theme s) s

-- The first render, and its effect.
unfoldable pub mount : Option String → Bool → Bool → ThemeState
unfolding apply_theme
mount stored prefers_dark dark_class =
    let s : ThemeState = record {
      stored = stored;
      theme = or_else stored "system";
      prefers_dark = prefers_dark;
      dark_class = dark_class;
    } in
    apply_theme (resolved_theme s) s

unfoldable pub set_theme : String → ThemeState → ThemeState
set_theme next s = commit s (record s { stored = some next; theme = next })

-- The browser's colour scheme changes, and the subscription renders again.
unfoldable pub scheme_changed : Bool → ThemeState → ThemeState
scheme_changed prefers_dark s = commit s (record s { prefers_dark = prefers_dark })

-- Another tab of the console stores a theme; nothing is subscribed to that.
unfoldable pub stored_elsewhere : String → ThemeState → ThemeState
stored_elsewhere theme s = record s { stored = some theme }

pub data Event : Type 0 where
  chosen elsewhere : String → Event
  scheme : Bool → Event

unfoldable pub step : ThemeState → Event → ThemeState
unfolding set_theme scheme_changed stored_elsewhere
step s (chosen theme) = set_theme theme s
step s (elsewhere theme) = stored_elsewhere theme s
step s (scheme prefers_dark) = scheme_changed prefers_dark s

unfoldable pub run : ThemeState → List Event → ThemeState
run s [] = s
run s (e ∷ es) = run (step s e) es

unfoldable pub context : ThemeState → ThemeContext
context s = record { theme = s.theme; resolved_theme = resolved_theme s }

-- `none` is the error "useTheme must be used within a ThemeProvider".
unfoldable pub use_theme : Option ThemeContext → Option ThemeContext
use_theme none = none
use_theme (some c) = some c

pub record ThemeOption : Type 0 where
  pub value : String
  pub label : String
  pub icon : String

abbrev pub theme_options : List ThemeOption
theme_options =
    record { value = "light"; label = "Light"; icon = "Sun" }
    ∷ record { value = "dark"; label = "Dark"; icon = "Moon" }
    ∷ record { value = "system"; label = "System"; icon = "Monitor" }
    ∷ []

-- One entry of the menu; selecting it calls `setTheme` with its value.
abbrev pub theme_item : ThemeContext → ThemeOption → Node String
theme_item c option = component "DropdownMenuItem" (some option.value) (
    tag "DropdownMenuItem" (on "onSelect" option.value ∷ []) (
      tag option.icon (class "size-4" ∷ []) end
      ▸ text option.label
      ▸ when (str_eq c.theme option.value) (tag "Check" (class "ml-auto size-4" ∷ []) end)
      ▸ end))

unfoldable pub theme_toggle : ThemeContext → Node String
theme_toggle c = tag "DropdownMenu" [] (
    tag "DropdownMenuTrigger" (str "asChild" "true" ∷ []) (
      tag "Button" (str "variant" "ghost" ∷ str "size" "icon" ∷ class "size-8" ∷ []) (
        tag (if str_eq c.resolved_theme "dark" then "Moon" else "Sun") (class "size-4" ∷ []) end
        ▸ tag "span" (class "sr-only" ∷ []) (text "Toggle theme" ▸ end)
        ▸ end)
      ▸ end)
    ▸ tag "DropdownMenuContent" (str "align" "end" ∷ []) (each (theme_item c) theme_options)
    ▸ end)
