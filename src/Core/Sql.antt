-- ===== src/Core/Sql.antt =====
-- What a statement of SQL does to the rows of a table, in the order in which they were inserted.
use tarisya.Prelude.{
  Bool, false, not, ◌&&◌, ◌||◌, List, [], ◌∷◌, ◌++◌, map, ◌≡◌, refl, if◌then◌else◌, arith, All,
  Bool-cases, inl, inr,
}

module _ {ℓ} {A : Type ℓ} where
  -- `SELECT EXISTS(SELECT 1 … WHERE test)`
  abbrev pub exists : (A → Bool) → List A → Bool
  exists test [] = false
  exists test (row ∷ rows) = test row || exists test rows

  -- `SELECT … WHERE test`
  abbrev pub select : (A → Bool) → List A → List A
  select test [] = []
  select test (row ∷ rows) = let rest = select test rows in if test row then row ∷ rest else rest

  -- `DELETE … WHERE test`
  abbrev pub delete : (A → Bool) → List A → List A
  delete test = select (λ row. not (test row))

  -- `UPDATE … SET … WHERE test`
  abbrev pub update : (A → Bool) → (A → A) → List A → List A
  update test change = map (λ row. if test row then change row else row)

  pub exists_ext :
      (p q : A → Bool) (rows : List A) → ((row : A) → p row ≡ q row) → exists p rows ≡ exists q rows
  exists_ext p q [] h = refl
  exists_ext p q (row ∷ rows) h = rw (h row, exists_ext p q rows h) refl

  pub exists-select :
      (p q : A → Bool) (rows : List A)
      → exists p (select q rows) ≡ exists (λ row. q row && p row) rows
  exists-select p q [] = refl
  exists-select p q (row ∷ rows) = ground (arith, exists-select p q rows)

  pub exists-map :
      (p : A → Bool) (f : A → A) (rows : List A)
      → exists p (map f rows) ≡ exists (λ row. p (f row)) rows
  exists-map p f [] = refl
  exists-map p f (row ∷ rows) = rw (exists-map p f rows) refl

  pub exists-append :
      (p : A → Bool) (rows more : List A)
      → exists p (rows ++ more) ≡ (exists p rows || exists p more)
  exists-append p [] more = refl
  exists-append p (row ∷ rows) more = ground (arith, exists-append p rows more)

  pub exists-false : (rows : List A) → exists (λ row. false) rows ≡ false
  exists-false [] = refl
  exists-false (row ∷ rows) = exists-false rows

module _ {A : Type 0} (P : A → Type 0) where
  pub All-append : (xs : List A) (x : A) → All P xs → P x → All P (xs ++ x ∷ [])
  All-append [] x all p = (p, tt)
  All-append (y ∷ xs) x (q, all) p = (q, All-append xs x all p)

  pub All-map : (f : A → A) (xs : List A) → ((x : A) → P x → P (f x)) → All P xs → All P (map f xs)
  All-map f [] h all = tt
  All-map f (x ∷ xs) h (p, all) = (h x p, All-map f xs h all)

  pub All-imp : (Q : A → Type 0) (xs : List A) → ((x : A) → P x → Q x) → All P xs → All Q xs
  All-imp Q [] h all = tt
  All-imp Q (x ∷ xs) h (p, all) = (h x p, All-imp Q xs h all)

  pub All-select : (test : A → Bool) (xs : List A) → All P xs → All P (select test xs)
  All-select test [] all = tt
  All-select test (x ∷ xs) (p, all) = elim (Bool-cases (test x)) [
    | inl kept ↦ rw kept (p, All-select test xs all)
    | inr dropped ↦ rw dropped (All-select test xs all)
  ]
