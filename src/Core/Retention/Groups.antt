-- ===== src/Core/Retention/Groups.antt =====
-- Groups of rows: each key once, and every row in one group.
use tarisya.Prelude.{
  ℕ, ◌+◌, false, List, [], ◌∷◌, ◌≡◌, refl, ap, ◌∙◌, arith, if◌then◌else◌, Bool-cases, inl, inr, All,
}
use tarisya.Core.Retention.{Key, same_key, add_row, group_by}

abbrev add_key : Key → List Key → List Key
add_key k [] = k ∷ []
add_key k (x ∷ keys) = let later = add_key k keys in if same_key x k then x ∷ keys else x ∷ later

abbrev pub Distinct : List Key → Type 0
Distinct [] = Unit
Distinct (k ∷ keys) = All (λ x. same_key k x ≡ false) keys × Distinct keys

All-add_key :
    (P : Key → Type 0) (k : Key) (keys : List Key) → P k → All P keys → All P (add_key k keys)
All-add_key P k [] p all = (p, tt)
All-add_key P k (x ∷ keys) p (q, all) = elim (Bool-cases (same_key x k)) [
  | inl same ↦ rw same (q, all)
  | inr other ↦ rw other (q, All-add_key P k keys p all)
]

pub apart_at :
    (k l : Key) (keys : List Key)
    → k ≡ l
    → All (λ x. same_key l x ≡ false) keys
    → All (λ x. same_key k x ≡ false) keys
apart_at k l [] same apart = tt
apart_at k l (x ∷ keys) same (a, apart) =
    (ap (λ j. same_key j x) same ∙ a, apart_at k l keys same apart)

add_key-Distinct : (k : Key) (keys : List Key) → Distinct keys → Distinct (add_key k keys)
add_key-Distinct k [] distinct = (tt, tt)
add_key-Distinct k (x ∷ keys) (apart, distinct) = elim (Bool-cases (same_key x k)) [
  | inl same ↦ rw same (apart, distinct)
  | inr other ↦
      rw other (
        All-add_key (λ y. same_key x y ≡ false) k keys other apart,
        add_key-Distinct k keys distinct,
      )
]

module _ {A : Type 0} where
  abbrev pub sum_by : (A → ℕ) → List A → ℕ
  sum_by weight [] = 0
  sum_by weight (row ∷ rows) = weight row + sum_by weight rows

  abbrev pub group_weight : (A → ℕ) → List (Key × List A) → ℕ
  group_weight weight [] = 0
  group_weight weight ((k, rows) ∷ groups) = sum_by weight rows + group_weight weight groups

  abbrev pub keys_of : List (Key × List A) → List Key
  keys_of [] = []
  keys_of ((k, rows) ∷ groups) = k ∷ keys_of groups

  module _ (key : A → Key) where
    keys-add_row :
        (row : A) (groups : List (Key × List A))
        → keys_of (add_row key row groups) ≡ add_key (key row) (keys_of groups)
    keys-add_row row [] = refl
    keys-add_row row ((k, rows) ∷ groups) = elim (Bool-cases (same_key k (key row))) [
      | inl same ↦ rw same refl
      | inr other ↦ rw other (ap (λ keys. k ∷ keys) (keys-add_row row groups))
    ]

    weight-add_row :
        (weight : A → ℕ) (row : A) (groups : List (Key × List A))
        → group_weight weight (add_row key row groups) ≡ weight row + group_weight weight groups
    weight-add_row weight row [] = omega arith
    weight-add_row weight row ((k, rows) ∷ groups) = elim (Bool-cases (same_key k (key row))) [
      | inl same ↦ rw same (omega arith)
      | inr other ↦ rw other (omega (arith, weight-add_row weight row groups))
    ]

    pub weight-group_by :
        (weight : A → ℕ) (rows : List A)
        → group_weight weight (group_by key rows) ≡ sum_by weight rows
    weight-group_by weight [] = refl
    weight-group_by weight (row ∷ rows) =
        omega (arith, weight-add_row weight row (group_by key rows), weight-group_by weight rows)

    pub group_by-Distinct : (rows : List A) → Distinct (keys_of (group_by key rows))
    group_by-Distinct [] = tt
    group_by-Distinct (row ∷ rows) =
        rw (keys-add_row row (group_by key rows))
          (add_key-Distinct (key row) (keys_of (group_by key rows)) (group_by-Distinct rows))

    pub All-group_by :
        (P : Key → Type 0) (rows : List A)
        → All (λ row. P (key row)) rows
        → All P (keys_of (group_by key rows))
    All-group_by P [] all = tt
    All-group_by P (row ∷ rows) (p, all) =
        rw (keys-add_row row (group_by key rows))
          (All-add_key P (key row) (keys_of (group_by key rows)) p (All-group_by P rows all))
