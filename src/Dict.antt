-- ===== src/Dict.antt =====
-- A JavaScript object with texts for keys: its own properties in the order in which they were
-- added, each key once. `{ ...a, ...b }` is `spread b a`.
use tarisya.Prelude.{
  String, Option, none, some, List, [], ◌∷◌, ◌≡◌, refl, str_eq, if◌then◌else◌, eq_iff, arith,
}

abbrev pub Dict : Type 0 → Type 0
Dict V = List (String × V)

module _ {V : Type 0} where
  -- `o[key]`, `undefined` on a missing key
  unfoldable pub lookup : String → Dict V → Option V
  lookup key [] = none
  lookup key ((k, v) ∷ o) = if str_eq k key then some v else lookup key o

  -- `o[key] = value`
  unfoldable pub assign : String → V → Dict V → Dict V
  assign key value [] = (key, value) ∷ []
  assign key value ((k, v) ∷ o) =
      if str_eq k key then (key, value) ∷ o else (k, v) ∷ assign key value o

  unfoldable pub spread : Dict V → Dict V → Dict V
  spread [] o = o
  spread ((k, v) ∷ added) o = spread added (assign k v o)

  pub lookup-assign :
      (key j : String) (value : V) (o : Dict V)
      → lookup j (assign key value o) ≡ (if str_eq key j then some value else lookup j o)
  unfolding lookup assign
  lookup-assign key j value [] = refl
  lookup-assign key j value ((k, v) ∷ o) =
      ground (arith, eq_iff key j, eq_iff k key, eq_iff k j, lookup-assign key j value o)

  -- The last value that `added` gives the key.
  unfoldable pub latest : String → Dict V → Option V → Option V
  latest key [] before = before
  latest key ((k, v) ∷ o) before = latest key o (if str_eq k key then some v else before)

  pub lookup-spread :
      (key : String) (added o : Dict V)
      → lookup key (spread added o) ≡ latest key added (lookup key o)
  unfolding spread latest
  lookup-spread key [] o = refl
  lookup-spread key ((k, v) ∷ added) o =
      rw (← lookup-assign k key v o) (lookup-spread key added (assign k v o))
