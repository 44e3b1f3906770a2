-- ===== src/Core/Store/Pages.antt =====
-- internal/core/http.go, metricsHistory: a server's metrics, page after page, from the newest on. A
-- cursor is the time of a row in milliseconds: its text, which the client hands back, is left out.
pub mod Lists
pub mod Order
pub mod Times
pub mod Complete
use mathlib.Core.Option
use tarisya.Prelude.{
  ℕ, zero, suc, ◌+◌, Bool, true, false, ◌&&◌, ◌||◌, String, Option, none, some, List, [], ◌∷◌, ◌++◌,
  length, take, last?, ltb, leb, ◌==◌, str_eq, if◌then◌else◌,
}
use tarisya.Core.Sql.{select}
use tarisya.Core.Database.{MetricRow, Database}

-- The response.
pub record Page (F : Type 0) : Type 0 where
  pub records : List (MetricRow F)
  pub has_more : Bool
  pub next_cursor : Option ℕ

module _ {F : Type 0} where
  -- `ORDER BY collected_at DESC,id DESC`
  abbrev pub is_newer : MetricRow F → MetricRow F → Bool
  is_newer a b =
      ltb b.collected_at a.collected_at || (a.collected_at == b.collected_at && leb b.id a.id)

  abbrev pub insert : MetricRow F → List (MetricRow F) → List (MetricRow F)
  insert m [] = m ∷ []
  insert m (first ∷ rest) =
      let later = insert m rest in if is_newer m first then m ∷ first ∷ rest else first ∷ later

  abbrev pub by_newest : List (MetricRow F) → List (MetricRow F)
  by_newest [] = []
  by_newest (m ∷ rest) = insert m (by_newest rest)

  -- `? IS NULL OR collected_at<?`
  abbrev pub is_before : Option ℕ → MetricRow F → Bool
  is_before none m = true
  is_before (some at) m = ltb m.collected_at at

  abbrev pub is_of : String → MetricRow F → Bool
  is_of server_id m = str_eq m.server_id server_id

  unfoldable pub metrics_history : String → ℕ → Option ℕ → Database F → List (MetricRow F)
  metrics_history server_id limit before db =
      take limit (by_newest (select (λ m. is_of server_id m && is_before before m) db.metrics))

  abbrev pub cursor_of : Option (MetricRow F) → Option ℕ
  cursor_of none = none
  cursor_of (some m) = some m.collected_at

  unfoldable pub history_page : String → ℕ → Option ℕ → Database F → Page F
  history_page server_id limit before db =
      let found = metrics_history server_id (limit + 1) before db in
      let has_more = ltb limit (length found) in
      let records = if has_more then take limit found else found in
      record {
        records = records;
        has_more = has_more;
        next_cursor = if has_more then cursor_of (last? records) else none;
      }

  abbrev pub then_next :
      List (MetricRow F)
      → Option ℕ
      → (ℕ → Option (List (MetricRow F)))
      → Option (List (MetricRow F))
  then_next records none rest = some records
  then_next records (some cursor) rest = Option.map (λ more. records ++ more) (rest cursor)

  -- The pages that a client reads that follows the cursors, `fuel` pages at most.
  unfoldable pub follow : ℕ → String → ℕ → Option ℕ → Database F → Option (List (MetricRow F))
  follow zero server_id limit before db = none
  follow (suc fuel) server_id limit before db =
      let page = history_page server_id limit before db in
      then_next page.records page.next_cursor λ cursor. follow fuel server_id limit (some cursor) db
