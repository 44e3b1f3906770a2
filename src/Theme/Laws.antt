-- ===== src/Theme/Laws.antt =====
-- The document follows the theme, and the theme outlives the page.
use tarisya.Prelude.{
  String, Bool, true, false, Option, some, List, [], ◌∷◌, ◌≡◌, refl, str_eq, eq_iff, if◌then◌else◌,
  Bool-cases, inl, inr, sym, ap, ◌∙◌,
}
use tarisya.Theme.{
  ThemeState, Event, chosen, elsewhere, scheme, resolved_theme, get_system_theme, mount, set_theme,
  scheme_changed, step, run, commit,
}

-- The document has the class `dark` exactly if the resolved theme is "dark".
abbrev pub IsApplied : ThemeState → Type 0
IsApplied s = s.dark_class ≡ str_eq (resolved_theme s) "dark"

commit_lem :
    (before s : ThemeState)
    → IsApplied before
    → s.dark_class ≡ before.dark_class
    → commit before s ≡ record s { dark_class = str_eq (resolved_theme s) "dark" }
unfolding commit
commit_lem before s h same = elim (Bool-cases (str_eq (resolved_theme before) (resolved_theme s))) [
  | inr other ↦ rw other
  | inl equal ↦
      let e : resolved_theme before ≡ resolved_theme s = (eq_iff _ _).0 equal in
      let d : s.dark_class ≡ str_eq (resolved_theme s) "dark" =
        same ∙ h ∙ ap (λ t. str_eq t "dark") e in
      rw equal (λ i. record s { dark_class = d i })
]

set_theme_lem :
    (s : ThemeState) (next : String)
    → IsApplied s
    → let t : ThemeState = record s { stored = some next; theme = next } in
      set_theme next s ≡ record t { dark_class = str_eq (resolved_theme t) "dark" }
unfolding set_theme
set_theme_lem s next h = commit_lem s (record s { stored = some next; theme = next }) h refl

scheme_lem :
    (s : ThemeState) (prefers_dark : Bool)
    → IsApplied s
    → let t : ThemeState = record s { prefers_dark = prefers_dark } in
      scheme_changed prefers_dark s ≡ record t { dark_class = str_eq (resolved_theme t) "dark" }
unfolding scheme_changed
scheme_lem s prefers_dark h = commit_lem s (record s { prefers_dark = prefers_dark }) h refl

step-IsApplied : (s : ThemeState) (e : Event) → IsApplied s → IsApplied (step s e)
unfolding step
step-IsApplied s (chosen theme) h = rw (set_theme_lem s theme h) refl
step-IsApplied s (elsewhere theme) h = h
step-IsApplied s (scheme prefers_dark) h = rw (scheme_lem s prefers_dark h) refl

run-IsApplied_from : (s : ThemeState) (es : List Event) → IsApplied s → IsApplied (run s es)
unfolding run
run-IsApplied_from s [] h = h
run-IsApplied_from s (e ∷ es) h = run-IsApplied_from (step s e) es (step-IsApplied s e h)

-- From the first render on, whatever was stored and whatever happens, the document has the class
-- `dark` exactly while the resolved theme is "dark".
pub run-IsApplied :
    (stored : Option String) (prefers_dark dark_class : Bool) (es : List Event)
    → IsApplied (run (mount stored prefers_dark dark_class) es)
unfolding mount
run-IsApplied stored prefers_dark dark_class es = run-IsApplied_from _ es refl

-- After a theme is chosen, a page that is loaded anew, with the same colour scheme, has that theme
-- and resolves it to the same one; the document's class is then the same too, if it was right.
pub mount-set_theme :
    (s : ThemeState) (next : String) (dark_class : Bool)
    → IsApplied s
    → let chosen = set_theme next s in
      let reloaded = mount chosen.stored s.prefers_dark dark_class in
      (reloaded.theme ≡ next)
      × (resolved_theme reloaded ≡ resolved_theme chosen)
      × (reloaded.dark_class ≡ chosen.dark_class)
unfolding mount
mount-set_theme s next dark_class h = rw (set_theme_lem s next h) (refl, refl, refl)

scheme_text : (prefers : Bool) → str_eq (get_system_theme prefers) "dark" ≡ prefers
scheme_text true = refl
scheme_text false = refl

follows :
    (theme : String) (prefered prefers : Bool) {dark_class : Bool}
    → dark_class
      ≡ str_eq (if str_eq theme "system" then get_system_theme prefered else theme) "dark"
    → str_eq (if str_eq theme "system" then get_system_theme prefers else theme) "dark"
      ≡ (if str_eq theme "system" then prefers else dark_class)
follows theme prefered prefers h = elim (Bool-cases (str_eq theme "system")) [
  | inl system ↦ rw system (scheme_text prefers)
  | inr other ↦ rw other (sym (rw other at h))
]

-- A change of the browser's colour scheme moves the document's class along while the theme is
-- "system", and changes no other theme.
pub scheme_changed_lem :
    (s : ThemeState) (prefers_dark : Bool)
    → IsApplied s
    → ((scheme_changed prefers_dark s).theme ≡ s.theme)
      × ((scheme_changed prefers_dark s).dark_class
          ≡ (if str_eq s.theme "system" then prefers_dark else s.dark_class))
scheme_changed_lem s prefers_dark h =
    rw (scheme_lem s prefers_dark h) (refl, follows s.theme s.prefers_dark prefers_dark h)
