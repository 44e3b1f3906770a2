-- ===== src/Jsx/Offered.antt =====
-- What a tree lets its user do by a click: the handlers without an argument of the elements that are
-- not disabled.
use tarisya.Prelude.{Bool, false, List, [], ◌∷◌, ◌++◌, str_eq, if◌then◌else◌}
use tarisya.Jsx.{Attr, flag, on, Node, Nodes, null, text, tag, component, end, ◌▸◌}

abbrev is_disabled : {A : Type 0} → List (Attr A) → Bool
is_disabled [] = false
is_disabled (flag name b ∷ attrs) =
    let rest = is_disabled attrs in if str_eq name "disabled" then b else rest
is_disabled (attr ∷ attrs) = is_disabled attrs

abbrev handlers : {A : Type 0} → List (Attr A) → List A
handlers [] = []
handlers (on name a ∷ attrs) = a ∷ handlers attrs
handlers (attr ∷ attrs) = handlers attrs

unfoldable mutual
  pub offered : {A : Type 0} → Node A → List A
  offered null = []
  offered (text s) = []
  offered (tag name attrs children) =
      let inner = offered_of children in
      if is_disabled attrs then inner else handlers attrs ++ inner
  offered (component name key node) = offered node

  pub offered_of : {A : Type 0} → Nodes A → List A
  offered_of end = []
  offered_of (n ▸ ns) = offered n ++ offered_of ns
