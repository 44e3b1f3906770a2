-- ===== src/Core/Store/Pages/Complete.antt =====
-- That the pages, one after the other, are the whole history.
use mathlib.Core.Option
use mathlib.Core.List.{Perm}
use tarisya.Prelude.{
  ℕ, zero, suc, ◌+◌, ◌<◌, true, false, String, Option, none, some, List, [], ◌∷◌, ◌++◌, ◌≡◌, refl,
  sym, ap, ◌∙◌, arith, length, take, last?, ltb, ltb_iff, if◌then◌else◌, Bool-cases, inl, inr, All,
}
use tarisya.Core.Sql.{select}
use tarisya.Core.Database.{MetricRow, Database}
use tarisya.Core.Store.Pages.{
  by_newest, is_before, is_of, metrics_history, history_page, follow, cursor_of, Page, then_next,
}
use tarisya.Core.Store.Pages.Lists.{
  drop, take-drop, take_all, take-take, longer, length-drop, select_every, select-tested,
  select-select, select-narrow,
}
use tarisya.Core.Store.Pages.Order.{
  Perm-by_newest, IsOrdered, by_newest-IsOrdered, select-by_newest,
}
use tarisya.Core.Store.Pages.Times.{
  Distinct, Falling, Distinct-by_newest, ordered-Falling, length-by_newest, Falling-select,
  next_page, narrower,
}

module _ {F : Type 0} where
  All-true : (rows : List (MetricRow F)) → All (λ row. true ≡ true) rows
  All-true [] = tt
  All-true (m ∷ rows) = (refl, All-true rows)

  module _ (server_id : String) (limit : ℕ) (db : Database F) where
    abbrev whole : List (MetricRow F)
    whole = by_newest (select (is_of server_id) db.metrics)

    abbrev remaining : Option ℕ → List (MetricRow F)
    remaining before = select (is_before before) whole

    history_is :
        (n : ℕ) (before : Option ℕ)
        → metrics_history server_id n before db ≡ take n (remaining before)
    unfolding metrics_history
    history_is n before = ap (take n) (
        ap by_newest (select-select (is_of server_id) (is_before before) db.metrics)
        ∙ sym (select-by_newest (is_before before) (select (is_of server_id) db.metrics)))

    abbrev page_of : List (MetricRow F) → Page F
    page_of rows =
        let found = take (suc limit) rows in
        let has_more = ltb limit (length found) in
        let records = if has_more then take limit found else found in
        record {
          records = records;
          has_more = has_more;
          next_cursor = if has_more then cursor_of (last? records) else none;
        }

    page_is :
        (before : Option ℕ) → history_page server_id limit before db ≡ page_of (remaining before)
    unfolding history_page
    page_is before =
        let next : limit + 1 ≡ suc limit = omega arith in
        rw (next, history_is (suc limit) before) refl

    last_page_is :
        (before : Option ℕ) (rows : List (MetricRow F))
        → remaining before ≡ rows
        → ltb limit (length rows) ≡ false
        → history_page server_id limit before db
          ≡ record { records = rows; has_more = false; next_cursor = none }
    last_page_is before rows is short =
        page_is before
        ∙ rw (is, longer limit rows ∙ short, take_all (suc limit) rows (ground (arith, short))) refl

    more_is :
        (before : Option ℕ) (rows : List (MetricRow F)) (last : MetricRow F)
        → remaining before ≡ rows
        → ltb limit (length rows) ≡ true
        → last? (take limit rows) ≡ some last
        → history_page server_id limit before db ≡ record {
          records = take limit rows;
          has_more = true;
          next_cursor = some last.collected_at;
        }
    more_is before rows last is long is_last =
        page_is before ∙ rw (is, longer limit rows ∙ long, take-take limit rows, is_last) refl

    module _ (pos : 0 < limit) (distinct : Distinct (select (is_of server_id) db.metrics)) where
      whole-Falling : Falling whole
      whole-Falling =
          ordered-Falling whole (by_newest-IsOrdered (select (is_of server_id) db.metrics))
            (Distinct-by_newest (select (is_of server_id) db.metrics) distinct)

      follow_rest :
          (fuel : ℕ) (before : Option ℕ) (rows : List (MetricRow F))
          → remaining before ≡ rows
          → length rows < fuel
          → follow fuel server_id limit before db ≡ some rows
      unfolding follow
      follow_rest zero before rows is enough = absurd (omega arith)
      follow_rest (suc fuel) before rows is enough = elim (Bool-cases (ltb limit (length rows))) [
        | inr last_page ↦
            ap
              (λ page.
                then_next page.records page.next_cursor
                  λ cursor. follow fuel server_id limit (some cursor) db)
              (last_page_is before rows is last_page)
        | inl more ↦
            let falling : Falling rows =
              rw (sym is) (Falling-select (is_before before) whole whole-Falling) in
            let fits = (ltb_iff limit (length rows)).0 more in
            let c = next_page limit rows pos falling fits in
            let all : All (λ row. is_before before row ≡ true) rows =
              rw (sym is) (select-tested (is_before before) whole) in
            let wider = c.among before all in
            let older : remaining (some c.last.collected_at) ≡ drop limit rows =
              sym (
                select-narrow (is_before before) (is_before (some c.last.collected_at)) whole
                  (λ row. narrower before c.last row wider))
              ∙ ap (select (is_before (some c.last.collected_at))) is
              ∙ c.older in
            let rest =
              follow_rest fuel (some c.last.collected_at) (drop limit rows) older
                (omega (arith, length-drop limit rows pos fits)) in
            ap
              (λ page.
                then_next page.records page.next_cursor
                  λ cursor. follow fuel server_id limit (some cursor) db)
              (more_is before rows c.last is more c.is_last)
            ∙ ap (Option.map (λ more. take limit rows ++ more)) rest
            ∙ ap some (take-drop limit rows)
      ]

  -- Where a server's rows have different times, a page holds a row at least, and there are more pages
  -- than rows: a client that follows the cursors from the first page on reads all of the server's
  -- rows, each once, the newest first.
  pub follow_complete :
      (server_id : String) (limit fuel : ℕ) (db : Database F)
      → let rows = select (is_of server_id) db.metrics in
        0 < limit
        → length rows < fuel
        → Distinct rows
        → (follow fuel server_id limit none db ≡ some (by_newest rows))
          × IsOrdered (by_newest rows)
          × Perm (by_newest rows) rows
  follow_complete server_id limit fuel db pos enough distinct = (
    follow_rest server_id limit db pos distinct fuel none (whole server_id limit db)
        (select_every (λ row. true) (whole server_id limit db)
          (All-true (whole server_id limit db)))
        (omega (arith, length-by_newest (select (is_of server_id) db.metrics))),
    by_newest-IsOrdered (select (is_of server_id) db.metrics),
    Perm-by_newest (select (is_of server_id) db.metrics),
  )
