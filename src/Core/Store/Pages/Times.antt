-- ===== src/Core/Store/Pages/Times.antt =====
-- Rows whose times differ: the last row of a page tells where the next page begins.
use tarisya.Prelude.{
  ℕ, zero, suc, ◌≤◌, ◌<◌, Bool, true, false, Option, none, some, List, [], ◌∷◌, ◌≡◌, refl, ap, ◌∙◌,
  arith, length, take, last?, ltb, ◌==◌, Bool-cases, inl, inr, All,
}
use tarisya.Core.Sql.{select, All-select}
use tarisya.Core.Database.{MetricRow}
use tarisya.Core.Store.Pages.{is_newer, insert, by_newest, is_before}
use tarisya.Core.Store.Pages.Lists.{drop, select_every}
use tarisya.Core.Store.Pages.Order.{IsOrdered, All-insert, All-by_newest}

module _ {F : Type 0} where
  -- No two rows have the same time.
  abbrev pub Distinct : List (MetricRow F) → Type 0
  Distinct [] = Unit
  Distinct (m ∷ rest) =
      All (λ other. (m.collected_at == other.collected_at) ≡ false) rest × Distinct rest

  -- Each row is newer than those that follow, by its time.
  abbrev pub Falling : List (MetricRow F) → Type 0
  Falling [] = Unit
  Falling (m ∷ rest) =
      All (λ other. ltb other.collected_at m.collected_at ≡ true) rest × Falling rest

  Distinct-insert :
      (m : MetricRow F) (rows : List (MetricRow F))
      → All (λ other. (m.collected_at == other.collected_at) ≡ false) rows
      → Distinct rows
      → Distinct (insert m rows)
  Distinct-insert m [] apart distinct = (tt, tt)
  Distinct-insert m (first ∷ rest) (differs, apart) (first_apart, distinct) =
      elim (Bool-cases (is_newer m first)) [
        | inl newer ↦ rw newer ((differs, apart), (first_apart, distinct))
        | inr older ↦
            rw older (
              All-insert _ m rest (ground arith) first_apart,
              Distinct-insert m rest apart distinct,
            )
      ]

  pub Distinct-by_newest : (rows : List (MetricRow F)) → Distinct rows → Distinct (by_newest rows)
  Distinct-by_newest [] distinct = tt
  Distinct-by_newest (m ∷ rest) (apart, distinct) =
      Distinct-insert m (by_newest rest) (All-by_newest _ rest apart)
        (Distinct-by_newest rest distinct)

  falling_rows :
      (m : MetricRow F) (rows : List (MetricRow F))
      → All (λ other. is_newer m other ≡ true) rows
      → All (λ other. (m.collected_at == other.collected_at) ≡ false) rows
      → All (λ other. ltb other.collected_at m.collected_at ≡ true) rows
  falling_rows m [] newer apart = tt
  falling_rows m (row ∷ rows) (n, newer) (a, apart) =
      (ground arith, falling_rows m rows newer apart)

  pub ordered-Falling : (rows : List (MetricRow F)) → IsOrdered rows → Distinct rows → Falling rows
  ordered-Falling [] ordered distinct = tt
  ordered-Falling (m ∷ rows) (newest, ordered) (apart, distinct) =
      (falling_rows m rows newest apart, ordered-Falling rows ordered distinct)

  length-insert :
      (m : MetricRow F) (rows : List (MetricRow F)) → length (insert m rows) ≡ suc (length rows)
  length-insert m [] = refl
  length-insert m (first ∷ rest) = ground (arith, length-insert m rest)

  pub length-by_newest : (rows : List (MetricRow F)) → length (by_newest rows) ≡ length rows
  length-by_newest [] = refl
  length-by_newest (m ∷ rest) = length-insert m (by_newest rest) ∙ ap suc (length-by_newest rest)

  before_trans :
      (before : Option ℕ) (m first : MetricRow F)
      → m.collected_at ≤ first.collected_at
      → is_before before first ≡ true
      → is_before before m ≡ true
  before_trans none m first le h = refl
  before_trans (some at) m first le h = ground arith

  pub narrower :
      (before : Option ℕ) (last row : MetricRow F)
      → is_before before last ≡ true
      → is_before (some last.collected_at) row ≡ true
      → is_before before row ≡ true
  narrower none last row h k = refl
  narrower (some at) last row h k = ground arith

  -- The last row of a page, and what is older.
  record Cut (limit : ℕ) (first : MetricRow F) (rest : List (MetricRow F)) : Type 0 where
    last : MetricRow F
    is_last : last? (take (suc limit) (first ∷ rest)) ≡ some last
    older : select (is_before (some last.collected_at)) (first ∷ rest) ≡ drop limit rest
    not_newer : last.collected_at ≤ first.collected_at

  cut :
      (limit : ℕ) (first : MetricRow F) (rest : List (MetricRow F))
      → Falling (first ∷ rest)
      → limit ≤ length rest
      → Cut limit first rest
  cut zero first rest (newest, falling) fits = record {
    last = first;
    is_last = refl;
    older =
        let not_itself : ltb first.collected_at first.collected_at ≡ false = ground arith in
        rw not_itself (select_every _ rest newest);
    not_newer = omega arith;
  }
  cut (suc limit) first [] falling fits = absurd (omega arith)
  cut (suc limit) first (second ∷ rest) ((newer, newest), falling) fits =
      let c = cut limit second rest falling (omega arith) in
      record {
        last = c.last;
        is_last = c.is_last;
        older =
            let not_first : ltb first.collected_at c.last.collected_at ≡ false =
              ground (arith, c.not_newer, newer) in
            rw not_first c.older;
        not_newer = ground (arith, c.not_newer, newer);
      }

  pub Falling-select :
      (test : MetricRow F → Bool) (rows : List (MetricRow F))
      → Falling rows
      → Falling (select test rows)
  Falling-select test [] falling = tt
  Falling-select test (m ∷ rows) (newest, falling) = elim (Bool-cases (test m)) [
    | inl kept ↦ rw kept (All-select _ test rows newest, Falling-select test rows falling)
    | inr left ↦ rw left (Falling-select test rows falling)
  ]

  -- A page that is not the last one.
  pub record NextPage (limit : ℕ) (rows : List (MetricRow F)) : Type 0 where
    pub last : MetricRow F
    pub is_last : last? (take limit rows) ≡ some last
    pub older : select (is_before (some last.collected_at)) rows ≡ drop limit rows
    pub among :
        (before : Option ℕ)
        → All (λ row. is_before before row ≡ true) rows
        → is_before before last ≡ true

  pub next_page :
      (limit : ℕ) (rows : List (MetricRow F))
      → 0 < limit
      → Falling rows
      → limit < length rows
      → NextPage limit rows
  next_page zero rows pos falling fits = absurd (omega arith)
  next_page (suc limit) [] pos falling fits = absurd (omega arith)
  next_page (suc limit) (first ∷ rest) pos falling fits =
      let c = cut limit first rest falling (omega arith) in
      record {
        last = c.last;
        is_last = c.is_last;
        older = c.older;
        among = λ before all. before_trans before c.last first c.not_newer all.0;
      }
