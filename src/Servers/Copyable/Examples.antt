-- ===== src/Servers/Copyable/Examples.antt =====
-- Runs of the button that copies, and its theorems at a concrete sequence of clicks.
use tarisya.Prelude.{String, true, false, List, [], ◌∷◌, ◌++◌, ◌≡◌, refl}
use tarisya.Jsx.{texts}
use tarisya.Servers.Copyable.{
  initial, handle_copy, elapse, Event, copies, passes, run, step, copyable_field,
}
use tarisya.Servers.Copyable.Laws.{mark_ends}

abbrev clicks : List Event
clicks = copies "key" ∷ passes 1000 ∷ copies "id" ∷ []

runs :
    ((run initial (copies "key" ∷ passes 1499 ∷ [])).copied ≡ true)
    × ((run initial (clicks ++ passes 499 ∷ [])).copied ≡ true)
    × ((run initial (clicks ++ passes 500 ∷ [])).copied ≡ false)
    × ((run initial clicks).timers ≡ 2500 ∷ 1500 ∷ [])
    × (texts {A = String} (copyable_field "copy" "Server ID" "s1" true)
        ≡ "Server ID" ∷ "s1" ∷ "Copy " ∷ "Server ID" ∷ [])
unfolding run step initial handle_copy elapse copyable_field texts
runs = (refl, refl, refl, refl, refl)

mark_ends_example :
    ((elapse 1500 (run initial clicks)).copied ≡ false)
    × ((elapse 1500 (run initial clicks)).timers ≡ [])
mark_ends_example = mark_ends clicks
