-- ===== src/Layout/Examples.antt =====
-- Runs of the initials and of the header of a page.
use tarisya.Prelude.{ℕ, List, [], ◌∷◌, ◌≡◌, refl}
use tarisya.Jsx.{texts}
use tarisya.Prelude.{none}
use tarisya.Layout.{split_space, get_initials, site_header, Action}

abbrev same : List ℕ → List ℕ
same s = s

runs :
    (get_initials same (b'A' ∷ b'n' ∷ b' ' ∷ b'B' ∷ b' ' ∷ b'C' ∷ []) ≡ b'A' ∷ b'B' ∷ [])
    × (get_initials same [] ≡ [])
    × (texts (site_header {A = Action} "Servers" none) ≡ "Servers" ∷ [])
unfolding get_initials split_space site_header texts
runs = (refl, refl, refl)
