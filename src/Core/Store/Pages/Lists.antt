-- ===== src/Core/Store/Pages/Lists.antt =====
-- What is taken from the front of a list, what is left, and choosing twice.
use tarisya.Prelude.{
  ℕ, zero, suc, ◌-◌, ◌≤◌, ◌<◌, Bool, true, ◌&&◌, List, [], ◌∷◌, ◌++◌, ◌≡◌, refl, sym, ap, ◌∙◌,
  arith, length, take, ltb, Bool-cases, inl, inr, All,
}
use tarisya.Core.Sql.{select}

module _ {A : Type 0} where
  abbrev pub drop : ℕ → List A → List A
  drop zero rows = rows
  drop (suc n) [] = []
  drop (suc n) (row ∷ rows) = drop n rows

  pub take-drop : (n : ℕ) (rows : List A) → take n rows ++ drop n rows ≡ rows
  take-drop zero rows = refl
  take-drop (suc n) [] = refl
  take-drop (suc n) (row ∷ rows) = ap (λ rest. row ∷ rest) (take-drop n rows)

  pub take_all : (n : ℕ) (rows : List A) → length rows ≤ n → take n rows ≡ rows
  take_all zero [] h = refl
  take_all zero (row ∷ rows) h = let wrong : 1 ≤ 0 = omega arith in ground arith
  take_all (suc n) [] h = refl
  take_all (suc n) (row ∷ rows) h = ap (λ rest. row ∷ rest) (take_all n rows (omega arith))

  pub take-take : (n : ℕ) (rows : List A) → take n (take (suc n) rows) ≡ take n rows
  take-take zero rows = refl
  take-take (suc n) [] = refl
  take-take (suc n) (row ∷ rows) = ap (λ rest. row ∷ rest) (take-take n rows)

  pub longer : (n : ℕ) (rows : List A) → ltb n (length (take (suc n) rows)) ≡ ltb n (length rows)
  longer zero [] = refl
  longer zero (row ∷ rows) = ground arith
  longer (suc n) [] = refl
  longer (suc n) (row ∷ rows) = ground (arith, longer n rows)

  length-drop_lem : (n : ℕ) (rows : List A) → length (drop n rows) ≡ length rows - n
  length-drop_lem zero rows = omega arith
  length-drop_lem (suc n) [] = omega arith
  length-drop_lem (suc n) (row ∷ rows) = omega (arith, length-drop_lem n rows)

  pub length-drop :
      (n : ℕ) (rows : List A) → 0 < n → n < length rows → length (drop n rows) < length rows
  length-drop n rows pos fits = omega (arith, length-drop_lem n rows)

  pub select_every :
      (test : A → Bool) (rows : List A)
      → All (λ row. test row ≡ true) rows
      → select test rows ≡ rows
  select_every test [] all = refl
  select_every test (row ∷ rows) (holds, all) = rw (holds, select_every test rows all) refl

  pub select-tested :
      (test : A → Bool) (rows : List A) → All (λ row. test row ≡ true) (select test rows)
  select-tested test [] = tt
  select-tested test (row ∷ rows) = elim (Bool-cases (test row)) [
    | inl kept ↦ rw kept (kept, select-tested test rows)
    | inr left ↦ rw left (select-tested test rows)
  ]

  pub select-select :
      (p q : A → Bool) (rows : List A)
      → select (λ row. p row && q row) rows ≡ select q (select p rows)
  select-select p q [] = refl
  select-select p q (row ∷ rows) = elim (Bool-cases (p row)) [
    | inl kept ↦ rw (kept, select-select p q rows) refl
    | inr left ↦ rw (left, select-select p q rows) refl
  ]

  -- A stricter test after a wider one.
  pub select-narrow :
      (wide narrow : A → Bool) (rows : List A)
      → ((row : A) → narrow row ≡ true → wide row ≡ true)
      → select narrow (select wide rows) ≡ select narrow rows
  select-narrow wide narrow [] h = refl
  select-narrow wide narrow (row ∷ rows) h =
      let rest = select-narrow wide narrow rows h in
      elim (Bool-cases (wide row)) [
        | inl kept ↦ rw (kept, rest) refl
        | inr left ↦ elim (Bool-cases (narrow row)) [
          | inl in_narrow ↦ let wrong = sym (h row in_narrow) ∙ left in cc
          | inr out ↦ rw (left, out, rest) refl
        ]
      ]
