-- ===== src/Sidebar/Examples.antt =====
-- Runs of the sidebar, uncontrolled as the console has it and controlled by a parent that follows,
-- and its theorems at concrete events.
use tarisya.Prelude.{
  String, Bool, Option, true, false, none, some, List, [], ◌∷◌, ◌≡◌, ◌⊎◌, refl, inl, inr, or_else,
}
use tarisya.Sidebar.{
  Parent, SidebarState, Event, clicked, key_down, sheet, resized, mount, context, set_open,
  toggle_sidebar, handle_key_down, set_open_mobile, on_change, step, run, cookie_text,
}
use tarisya.Sidebar.Steps.{Reflects}
use tarisya.Sidebar.Laws.{run_lem}
use tarisya.Sidebar.View.{SidebarProps, left, sidebar, offcanvas}

abbrev uncontrolled : Parent (Unit {0})
uncontrolled = record { open_prop = λ p. none; on_open_change = none }

abbrev following : Parent Bool
following = record { open_prop = some; on_open_change = some (λ b p. b) }

abbrev ctrl_b : Event
ctrl_b = key_down (record { key = "b"; meta_key = false; ctrl_key = true })

abbrev plain_b : Event
plain_b = key_down (record { key = "b"; meta_key = false; ctrl_key = false })

abbrev fresh : SidebarState (Unit {0})
fresh = mount uncontrolled true tt false none

abbrev led : SidebarState Bool
led = mount following true true false none

abbrev events : List Event
events = plain_b ∷ ctrl_b ∷ resized true ∷ clicked ∷ sheet false ∷ []

runs :
    ((run uncontrolled fresh events).internal_open ≡ false)
    × ((run uncontrolled fresh events).cookie ≡ some "sidebar_state=false; path=/; max-age=604800")
    × ((run following led events).parent ≡ false)
    × ((run following led events).internal_open ≡ true)
    × ((run uncontrolled fresh (resized true ∷ clicked ∷ [])).open_mobile ≡ true)
    × ((run uncontrolled fresh (resized true ∷ clicked ∷ [])).cookie ≡ none)
unfolding run step mount context set_open toggle_sidebar handle_key_down set_open_mobile on_change
    cookie_text tarisya.Prelude.show
runs = (refl, refl, refl, refl, refl, refl)

following-Reflects : Reflects following
following-Reflects = inr (λ b p. b, refl, λ b p. refl)

run_lem_example :
    let t = run following led events in
    ((context following t).is_open ≡ false)
    × (((((context following t).is_open) ≡ (context following led).is_open)
          × (t.cookie ≡ led.cookie))
        ⊎ (t.cookie ≡ some (cookie_text (context following t).is_open)))
unfolding mount context
run_lem_example = run_lem following following-Reflects led events

abbrev props : SidebarProps
props = record {
  side = left;
  variant = sidebar;
  collapsible = offcanvas;
  class_name = none;
  dir = none;
}

abbrev first_of : List (Option String) → String
first_of [] = ""
first_of (name ∷ names) = or_else name (first_of names)
