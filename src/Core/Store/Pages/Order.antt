-- ===== src/Core/Store/Pages/Order.antt =====
-- The order of the rows, and that it does not matter whether rows are chosen before or after.
use mathlib.Core.List.{Perm}
use mathlib.Core.List.Perm
use tarisya.Prelude.{
  Bool, true, false, List, [], ◌∷◌, ◌≡◌, refl, ◌∙◌, arith, if◌then◌else◌, Bool-cases, inl, inr, All,
}
use tarisya.Core.Sql.{select, All-select, All-imp}
use tarisya.Core.Database.{MetricRow}
use tarisya.Core.Store.Pages.{is_newer, insert, by_newest}

module _ {F : Type 0} where
  abbrev pub IsOrdered : List (MetricRow F) → Type 0
  IsOrdered [] = Unit
  IsOrdered (m ∷ rest) = All (λ other. is_newer m other ≡ true) rest × IsOrdered rest

  newer_trans :
      (a b c : MetricRow F) → is_newer a b ≡ true → is_newer b c ≡ true → is_newer a c ≡ true
  newer_trans a b c h k = ground arith

  newer_total : (a b : MetricRow F) → is_newer a b ≡ false → is_newer b a ≡ true
  newer_total a b h = ground arith

  pub All-insert :
      (P : MetricRow F → Type 0) (m : MetricRow F) (rows : List (MetricRow F))
      → P m
      → All P rows
      → All P (insert m rows)
  All-insert P m [] p all = (p, tt)
  All-insert P m (first ∷ rest) p (q, all) = elim (Bool-cases (is_newer m first)) [
    | inl newer ↦ rw newer (p, (q, all))
    | inr older ↦ rw older (q, All-insert P m rest p all)
  ]

  insert-IsOrdered :
      (m : MetricRow F) (rows : List (MetricRow F)) → IsOrdered rows → IsOrdered (insert m rows)
  insert-IsOrdered m [] ordered = (tt, tt)
  insert-IsOrdered m (first ∷ rest) (newest, ordered) = elim (Bool-cases (is_newer m first)) [
    | inl newer ↦ rw newer (
      (newer, All-imp _ _ rest (λ other. newer_trans m first other newer) newest),
      (newest, ordered),
    )
    | inr older ↦
        rw older
          (All-insert _ m rest (newer_total m first older) newest, insert-IsOrdered m rest ordered)
  ]

  pub by_newest-IsOrdered : (rows : List (MetricRow F)) → IsOrdered (by_newest rows)
  by_newest-IsOrdered [] = tt
  by_newest-IsOrdered (m ∷ rest) = insert-IsOrdered m (by_newest rest) (by_newest-IsOrdered rest)

  pub All-by_newest :
      (P : MetricRow F → Type 0) (rows : List (MetricRow F)) → All P rows → All P (by_newest rows)
  All-by_newest P [] all = tt
  All-by_newest P (m ∷ rest) (p, all) = All-insert P m (by_newest rest) p (All-by_newest P rest all)

  insert_first :
      (m : MetricRow F) (rows : List (MetricRow F))
      → All (λ other. is_newer m other ≡ true) rows
      → insert m rows ≡ m ∷ rows
  insert_first m [] newest = refl
  insert_first m (first ∷ rest) (newer, newest) = rw newer refl

  module _ (test : MetricRow F → Bool) where
    select-insert :
        (m : MetricRow F) (rows : List (MetricRow F))
        → IsOrdered rows
        → select test (insert m rows)
          ≡ (if test m then insert m (select test rows) else select test rows)
    select-insert m [] ordered = refl
    select-insert m (first ∷ rest) (newest, ordered) = elim (Bool-cases (is_newer m first)) [
      | inl newer ↦
          let all =
            All-select (λ other. is_newer m other ≡ true) test (first ∷ rest)
              (newer, All-imp _ _ rest (λ other. newer_trans m first other newer) newest) in
          rw (newer, insert_first m (select test (first ∷ rest)) all) refl
      | inr older ↦
          let later = select-insert m rest ordered in
          elim (Bool-cases (test m)) [
            | inl kept ↦ elim (Bool-cases (test first)) [
              | inl in_front ↦ rw (older, later, kept, in_front, older) refl
              | inr not_in_front ↦ rw (older, later, kept, not_in_front) refl
            ]
            | inr left ↦ rw (older, later, left) refl
          ]
    ]

    pub select-by_newest :
        (rows : List (MetricRow F)) → select test (by_newest rows) ≡ by_newest (select test rows)
    select-by_newest [] = refl
    select-by_newest (m ∷ rest) =
        let chosen = select-by_newest rest in
        select-insert m (by_newest rest) (by_newest-IsOrdered rest) ∙ elim (Bool-cases (test m)) [
          | inl kept ↦ rw (kept, chosen) refl
          | inr left ↦ rw (left, chosen) refl
        ]

  Perm-insert : (m : MetricRow F) (rows : List (MetricRow F)) → Perm (insert m rows) (m ∷ rows)
  Perm-insert m [] = Perm.rfl
  Perm-insert m (first ∷ rest) = elim (Bool-cases (is_newer m first)) [
    | inl newer ↦ rw newer Perm.rfl
    | inr older ↦
        rw older (Perm.trans (Perm.cons first (Perm-insert m rest)) (Perm.swap m first rest))
  ]

  pub Perm-by_newest : (rows : List (MetricRow F)) → Perm (by_newest rows) rows
  Perm-by_newest [] = Perm.rfl
  Perm-by_newest (m ∷ rest) =
      Perm.trans (Perm-insert m (by_newest rest)) (Perm.cons m (Perm-by_newest rest))
