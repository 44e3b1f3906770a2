-- ===== src/Theme/Examples.antt =====
-- Runs of the theme, and its theorems at concrete states.
use tarisya.Prelude.{true, false, none, some, List, [], ◌∷◌, ◌≡◌, refl}
use tarisya.Jsx
use tarisya.Jsx.{texts}
use tarisya.Theme.{
  ThemeState, Event, chosen, elsewhere, scheme, resolved_theme, mount, set_theme, scheme_changed,
  step, run, commit, context, theme_toggle,
}
use tarisya.Theme.Laws.{IsApplied, run-IsApplied, mount-set_theme}

abbrev night : List Event
night = scheme true ∷ chosen "light" ∷ scheme false ∷ elsewhere "dark" ∷ chosen "system" ∷ []

runs :
    ((run (mount none false true) night).dark_class ≡ false)
    × ((run (mount (some "dark") false false) (scheme true ∷ [])).dark_class ≡ true)
    × (texts (theme_toggle (context (mount none false false)))
        ≡ "Toggle theme" ∷ "Light" ∷ "Dark" ∷ "System" ∷ [])
unfolding run step mount set_theme scheme_changed commit theme_toggle texts Jsx.each Jsx.when
    context
runs = (refl, refl, refl)

run-IsApplied_example : IsApplied (run (mount none false true) night)
run-IsApplied_example = run-IsApplied none false true night

abbrev light : ThemeState
light = record { stored = some "light"; theme = "light"; prefers_dark = true; dark_class = false }

mount-set_theme_example :
    let chosen = set_theme "system" light in
    let reloaded = mount chosen.stored true false in
    (reloaded.theme ≡ "system")
    × (resolved_theme reloaded ≡ resolved_theme chosen)
    × (reloaded.dark_class ≡ chosen.dark_class)
mount-set_theme_example = mount-set_theme light "system" false refl
