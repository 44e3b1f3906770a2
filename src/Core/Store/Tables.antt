-- ===== src/Core/Store/Tables.antt =====
-- Tables with a unique column: looking a row up by it, and what the statements of SQL do to that.
use mathlib.Core.Option
use tarisya.Prelude.{
  String, Bool, true, false, not, ◌&&◌, Option, none, some, List, [], ◌∷◌, ◌++◌, map, ◌≡◌, refl,
  sym, ap, ◌∙◌, arith, str_eq, eq_iff, if◌then◌else◌, Bool-cases, inl, inr,
}
use tarisya.Core.Store.{is_none}
use tarisya.Core.Sql.{exists, select}

abbrev pub holds {ℓ} : {A : Type ℓ} → (A → Bool) → Option A → Bool
holds test none = false
holds test (some a) = test a

abbrev pub kept {ℓ} : {A : Type ℓ} → (A → Bool) → Option A → Option A
kept test none = none
kept test (some a) = if test a then some a else none

module _ {A : Type 0} (key : A → String) where
  abbrev pub lookup : String → List A → Option A
  lookup k [] = none
  lookup k (row ∷ rows) = let rest = lookup k rows in if str_eq (key row) k then some row else rest

  abbrev pub IsUnique : List A → Type 0
  IsUnique [] = Unit
  IsUnique (row ∷ rows) = (lookup (key row) rows ≡ none) × IsUnique rows

  pub lookup-key : (k : String) (rows : List A) (row : A) → lookup k rows ≡ some row → key row ≡ k
  lookup-key k [] row found = ground arith
  lookup-key k (r ∷ rows) row found = grind (arith, eq_iff, lookup-key k rows row)

  -- Rows are there or not.
  pub exists-is_none :
      (k : String) (rows : List A)
      → exists (λ row. str_eq (key row) k) rows ≡ not (is_none (lookup k rows))
  exists-is_none k [] = refl
  exists-is_none k (row ∷ rows) = ground (arith, exists-is_none k rows)

  pub exists-lookup :
      (k : String) (test : A → Bool) (rows : List A)
      → IsUnique rows
      → exists (λ row. str_eq (key row) k && test row) rows ≡ holds test (lookup k rows)
  exists-lookup k test [] unique = refl
  exists-lookup k test (row ∷ rows) (fresh, unique) = elim (Bool-cases (str_eq (key row) k)) [
    | inl same ↦ ground (
      arith,
      eq_iff (key row) k,
      exists-lookup k test rows unique,
      ap (λ found. lookup found rows),
    )
    | inr other ↦ rw other (exists-lookup k test rows unique)
  ]

  pub lookup-append :
      (k : String) (row : A) (rows : List A)
      → lookup (key row) rows ≡ none
      → lookup k (rows ++ row ∷ []) ≡ (if str_eq (key row) k then some row else lookup k rows)
  lookup-append k row [] fresh = refl
  lookup-append k row (r ∷ rows) fresh = grind (arith, eq_iff, lookup-append k row rows)

  pub append-IsUnique :
      (row : A) (rows : List A)
      → lookup (key row) rows ≡ none
      → IsUnique rows
      → IsUnique (rows ++ row ∷ [])
  append-IsUnique row [] fresh unique = (refl, tt)
  append-IsUnique row (r ∷ rows) fresh (new, unique) =
      grind (arith, eq_iff, append-IsUnique row rows, lookup-append (key r) row rows)

  pub lookup-map :
      (k : String) (f : A → A) (rows : List A)
      → ((row : A) → key (f row) ≡ key row)
      → lookup k (map f rows) ≡ Option.map f (lookup k rows)
  lookup-map k f [] same = refl
  lookup-map k f (row ∷ rows) same = rw (same row) (ground (arith, lookup-map k f rows same))

  pub map-IsUnique :
      (f : A → A) (rows : List A)
      → ((row : A) → key (f row) ≡ key row)
      → IsUnique rows
      → IsUnique (map f rows)
  map-IsUnique f [] same unique = tt
  map-IsUnique f (row ∷ rows) same (fresh, unique) =
      (rw (same row, lookup-map (key row) f rows same, fresh) refl, map-IsUnique f rows same unique)

  pub lookup-select :
      (k : String) (test : A → Bool) (rows : List A)
      → IsUnique rows
      → lookup k (select test rows) ≡ kept test (lookup k rows)
  lookup-select k test [] unique = refl
  lookup-select k test (row ∷ rows) (fresh, unique) =
      grind (arith, eq_iff, lookup-select k test rows unique)

  pub select-IsUnique :
      (test : A → Bool) (rows : List A) → IsUnique rows → IsUnique (select test rows)
  select-IsUnique test [] unique = tt
  select-IsUnique test (row ∷ rows) (fresh, unique) =
      ground (arith, lookup-select (key row) test rows, select-IsUnique test rows)

pub is_none_lem : {A : Type 0} (o : Option A) → is_none o ≡ true → o ≡ none
is_none_lem none h = refl
is_none_lem (some a) h = ground arith

-- What a change keeps, it keeps where it is made on a condition.
pub change_keeps :
    {A B : Type 0} (f : A → B) (b : Bool) (changed row : A)
    → f changed ≡ f row
    → f (if b then changed else row) ≡ f row
change_keeps f true changed row same = same
change_keeps f false changed row same = refl

pub holds-map :
    {A B : Type 0} (test : B → Bool) (f : A → B) (o : Option A)
    → holds test (Option.map f o) ≡ holds (λ a. test (f a)) o
holds-map test f none = refl
holds-map test f (some a) = refl

pub is_none-map : {A B : Type 0} (f : A → B) (o : Option A) → is_none (Option.map f o) ≡ is_none o
is_none-map f none = refl
is_none-map f (some a) = refl

pub fresh_lookup :
    {A B : Type 0} (key : A → String) (f : A → B) (value : String) (rows : List A)
    → is_none (Option.map f (lookup key value rows)) ≡ true
    → lookup key value rows ≡ none
fresh_lookup key f value rows free =
    is_none_lem _ (sym (is_none-map f (lookup key value rows)) ∙ free)

pub unheld : {A : Type 0} (test : A → Bool) (o : Option A) → is_none o ≡ true → holds test o ≡ false
unheld test none h = refl
unheld test (some a) h = ground arith
