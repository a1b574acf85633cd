-- ===== src/TableView/Asking.antt =====
-- ui/src/tableView.ts: what a table asks of its source, the cells it waits for, the height of its
-- body and what the toolbar says.
use kaja.Prelude.{
  ℕ, ◌+◌, ◌*◌, String, Bool, true, false, not, ◌&&◌, ◌||◌, Option, none, some, List, [], ◌∷◌, ◌++◌,
  ltb, nat_eq, length, is_some, get_or, if◌then◌else◌, ◌==◌,
}
use kaja.Prelude.NatDict.{NatDict}
use kaja.Prelude.NatDict
use kaja.Prelude.Text.{trim, text_is_empty, ◌+++◌}
use kaja.Block.{TableBlock, CellStatus}
use kaja.TableView.{
  row_height, header_height, TableView, page_size_of, searches_locally, has_controls, can_grow,
  total_of, TableWindow,
}

pub record Pull : Type 0 where
  pub needed : Bool
  pub want : ℕ

-- Whether the source takes a search that the loaded rows do not answer.
abbrev pub asks_again : TableBlock → TableView → Bool
asks_again block view =
    not (searches_locally block) && not (get_or block.loaded_search "" == view.search)

unfoldable pub pull_needed : TableBlock → TableView → Pull
unfolding page_size_of can_grow
pull_needed block view =
    let want = (view.page + 1) * page_size_of block in
    record {
      want = want;
      needed =
          if not block.live || block.expired
          then false
          else (if asks_again block view
              then true
              else (if block.loading || is_some block.error || block.exhausted
                  then false
                  else (if searches_locally block && not (text_is_empty (trim view.search))
                      then false
                      else can_grow block && ltb (length block.rows) want)));
    }

pub record CellRef : Type 0 where
  pub row : ℕ
  pub column : ℕ
  pub retry : Bool

abbrev pending_in : ℕ → NatDict CellStatus → List CellRef
pending_in row [] = []
pending_in row ((column, status) ∷ rest) =
    let more = pending_in row rest in
    if is_some status.error
    then more
    else record { row = row; column = column; retry = false } ∷ more

abbrev pending_rows : NatDict (NatDict CellStatus) → List ℕ → List CellRef
pending_rows cells [] = []
pending_rows cells (row ∷ rows) =
    pending_in row (get_or (NatDict.lookup row cells) []) ++ pending_rows cells rows

unfoldable pub pending_cells : TableBlock → List ℕ → List CellRef
pending_cells block indices = elim block.cells [
  | none ↦ []
  | some cells ↦ if block.expired then [] else pending_rows cells indices
]

unfoldable pub holds_page : TableBlock → TableWindow → Bool
unfolding has_controls
holds_page block window =
    if not (has_controls block) || window.filtered
    then false
    else window.pending || block.loading || window.has_next

unfoldable pub body_min_height : TableBlock → TableWindow → Option ℕ
unfolding holds_page
body_min_height block window =
    if holds_page block window then some (header_height + window.expected * row_height) else none

module _ (shown_count : ℕ → String) where
  abbrev range_text : TableWindow → String
  range_text window = shown_count window.from +++ "–" +++ shown_count window.to

  abbrev filtered_summary : TableWindow → String
  filtered_summary window =
      if nat_eq window.total 0
      then "No rows matching · " +++ shown_count window.loaded +++ " loaded"
      else range_text window
        +++ " of "
        +++ shown_count window.total
        +++ " matching · "
        +++ shown_count window.loaded
        +++ " loaded"

  unfoldable pub table_summary : TableBlock → TableWindow → String
  unfolding total_of
  table_summary block window =
      let range = range_text window in
      let whole = total_of block in
      let total = shown_count whole.count +++ (if whole.exact then "" else "+") in
      if window.filtered
      then filtered_summary window
      else (if window.pending
          then (if whole.exact && ltb 0 whole.count
              then range +++ " of " +++ shown_count whole.count
              else "Loading " +++ range +++ "…")
          else (if nat_eq whole.count 0
              then "No rows"
              else (if nat_eq window.to 0
                  then "0 of " +++ total
                  else (if block.expired
                      then range +++ " of " +++ total +++ " loaded — run to load the rest"
                      else range +++ " of " +++ total))))
