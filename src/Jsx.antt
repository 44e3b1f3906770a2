-- ===== src/Jsx.antt =====
-- The trees that JSX builds. A DOM element, an element of a library and one of console/src/components/ui
-- are a `tag`; a component of the console that is a function of its props alone stands as a
-- `component` around the tree that it returns, with its `key`.
pub mod Offered
use tarisya.Prelude.{String, ℕ, Bool, true, false, Option, none, List, [], ◌∷◌, ◌++◌}

pub data Attr (A : Type 0) : Type 0 where
  str : String → String → Attr A
  num : String → ℕ → Attr A
  flag : String → Bool → Attr A
  -- An object of texts and numbers, as in `style={{ color }}`; a number stands as its text.
  obj : String → List (String × String) → Attr A
  -- An array of numbers.
  list : String → List ℕ → Attr A
  -- A handler, by what it calls: with nothing, with a text or with a Boolean.
  on : String → A → Attr A
  on_text : String → (String → A) → Attr A
  on_bool : String → (Bool → A) → Attr A

infixr 45 ◌▸◌
mutual
  pub data Node (A : Type 0) : Type 0 where
    null : Node A
    text : String → Node A
    tag : String → List (Attr A) → Nodes A → Node A
    component : String → Option String → Node A → Node A

  pub data Nodes (A : Type 0) : Type 0 where
    end : Nodes A
    ◌▸◌ : Node A → Nodes A → Nodes A

module _ {A : Type 0} where
  -- `className={…}`
  abbrev pub class : String → Attr A
  class names = str "className" names

  -- `xs.map(f)` among the children of an element.
  unfoldable pub each {ℓ} : {X : Type ℓ} → (X → Node A) → List X → Nodes A
  each f [] = end
  each f (x ∷ xs) = f x ▸ each f xs

  -- `test ? node : null`
  unfoldable pub when : Bool → Node A → Node A
  when true node = node
  when false node = null

-- The texts that a tree shows, in the order of the document.
unfoldable mutual
  pub texts : {A : Type 0} → Node A → List String
  texts null = []
  texts (text s) = s ∷ []
  texts (tag name attrs children) = texts_of children
  texts (component name key node) = texts node

  pub texts_of : {A : Type 0} → Nodes A → List String
  texts_of end = []
  texts_of (n ▸ ns) = texts n ++ texts_of ns

-- The keys among some siblings.
unfoldable pub keys : {A : Type 0} → Nodes A → List (Option String)
keys end = []
keys (component name key node ▸ ns) = key ∷ keys ns
keys (_ ▸ ns) = none ∷ keys ns
