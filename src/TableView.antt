-- ===== src/TableView.antt =====
-- ui/src/tableView.ts: the pager over the rows of a table, its window, what it asks of the source
-- and what the toolbar says. `lower` stands for `toLowerCase` and `shown_count` for
-- `toLocaleString`. Pages and sizes are natural numbers.
pub mod Window
pub mod Asking
use kaja.Prelude.{
  ℕ, zero, suc, ◌+◌, ◌-◌, ◌*◌, ◌/◌, min, max, String, Bool, true, false, not, ◌&&◌, ◌||◌, Option,
  none, some, List, [], ◌∷◌, ◌++◌, ltb, leb, nat_eq, any, length, take, drop, get_elem?, is_some,
  get_or, if◌then◌else◌, ◌==◌,
}
use kaja.Prelude.NatDict.{NatDict}
use kaja.Prelude.NatDict
use kaja.Prelude.Text.{trim, text_is_empty, includes, ◌+++◌}
use kaja.Block.{TableBlock, CellStatus}

abbrev pub default_page_size : ℕ
default_page_size = 50

abbrev pub row_height : ℕ
row_height = 26

abbrev pub header_height : ℕ
header_height = 28

pub record TableView : Type 0 where
  pub page : ℕ
  pub search : String

unfoldable pub page_size_of : TableBlock → ℕ
page_size_of block = elim block.page_size [
  | none ↦ default_page_size
  | some size ↦ if ltb 0 size then size else default_page_size
]

abbrev pub searches_locally : TableBlock → Bool
searches_locally block = not block.server_search

unfoldable pub matches_search : (String → String) → List String → String → Bool
matches_search lower row search =
    let needle = lower (trim search) in
    if text_is_empty needle then true else any (λ cell. includes needle (lower cell)) row

unfoldable pub has_controls : TableBlock → Bool
unfolding page_size_of
has_controls block = block.live || block.expired || ltb (page_size_of block) (length block.rows)

abbrev pub is_open : TableBlock → Bool
is_open block = block.live && not block.exhausted && not block.expired

unfoldable pub can_grow : TableBlock → Bool
can_grow block =
    is_open block && elim block.total [ none ↦ true | some total ↦ ltb (length block.rows) total ]

pub record TableTotal : Type 0 where
  pub count : ℕ
  pub exact : Bool

abbrev seen_total : TableBlock → TableTotal
seen_total block = record { count = length block.rows; exact = not (is_open block) }

unfoldable pub total_of : TableBlock → TableTotal
total_of block = elim block.total [
  | none ↦ seen_total block
  | some total ↦
      if block.exhausted
      then seen_total block
      else record { count = max total (length block.rows); exact = true }
]

pub record TableWindow : Type 0 where
  pub rows : List (List String)
  pub indices : List ℕ
  pub page : ℕ
  pub from : ℕ
  pub to : ℕ
  pub total : ℕ
  pub loaded : ℕ
  pub filtered : Bool
  pub has_previous : Bool
  pub has_next : Bool
  pub want : ℕ
  pub pending : Bool
  pub held : List (List String)
  pub held_indices : List ℕ
  pub expected : ℕ

-- The rows that match, by their places; `i` is the place of the first.
unfoldable pub matched_from : (String → String) → String → ℕ → List (List String) → List ℕ
unfolding matches_search
matched_from lower search i [] = []
matched_from lower search i (row ∷ rows) =
    let rest = matched_from lower search (suc i) rows in
    if matches_search lower row search then i ∷ rest else rest

-- `Array.from({ length: count }, (_, offset) => from + offset)`
abbrev pub range : ℕ → ℕ → List ℕ
range from zero = []
range from (suc count) = from ∷ range (suc from) count

abbrev pub rows_at : List (List String) → List ℕ → List (List String)
rows_at rows [] = []
rows_at rows (i ∷ is) =
    let rest = rows_at rows is in elim (get_elem? rows i) [ none ↦ rest | some row ↦ row ∷ rest ]

-- `list.slice(from, to)`
abbrev pub slice {ℓ} : {A : Type ℓ} → ℕ → ℕ → List A → List A
slice from to xs = take (to - from) (drop from xs)

abbrev pub ceil_div : ℕ → ℕ → ℕ
ceil_div n size = (n + size - 1) / size

unfoldable pub is_filtered : TableBlock → TableView → Bool
is_filtered block view = searches_locally block && not (text_is_empty (trim view.search))

-- `matched`: the places that a local search keeps; none where it does not filter.
unfoldable pub matched : (String → String) → TableBlock → TableView → Option (List ℕ)
unfolding is_filtered matched_from
matched lower block view =
    if is_filtered block view then some (matched_from lower view.search 0 block.rows) else none

abbrev pub rows_of : TableBlock → Option (List ℕ) → List (List String)
rows_of block none = block.rows
rows_of block (some places) = rows_at block.rows places

-- `at`: the places of `count` drawn rows from the one at `from`.
abbrev pub places_at : Option (List ℕ) → ℕ → ℕ → List ℕ
places_at none from count = range from count
places_at (some places) from count = slice from (from + count) places

-- The page that is shown: the one asked for, but none past the last that can be there.
unfoldable pub page_of : TableBlock → TableView → ℕ → ℕ
unfolding is_filtered can_grow page_size_of
page_of block view total =
    let loaded_pages = ceil_div total (page_size_of block) - 1 in
    min view.page
      (if can_grow block && not (is_filtered block view) then loaded_pages + 1 else loaded_pages)

unfoldable pub is_pending : TableBlock → TableView → ℕ → Bool
unfolding is_filtered can_grow page_size_of
is_pending block view shown =
    not (is_filtered block view)
    && not (is_some block.error)
    && ltb shown (page_size_of block)
    && can_grow block

unfoldable pub expected_of : TableBlock → TableView → ℕ → ℕ
unfolding is_filtered total_of page_size_of
expected_of block view start =
    let whole = total_of block in
    let size = page_size_of block in
    if not (is_filtered block view) && whole.exact then min size (whole.count - start) else size

unfoldable pub table_window : (String → String) → TableBlock → TableView → TableWindow
unfolding matched page_of is_pending expected_of
table_window lower block view =
    let size = page_size_of block in
    let filtered = is_filtered block view in
    let found = matched lower block view in
    let rows = rows_of block found in
    let page = page_of block view (length rows) in
    let start = page * size in
    let shown = slice start (start + size) rows in
    let pending = is_pending block view (length shown) in
    let expected = expected_of block view start in
    let to = if pending then start + expected else start + length shown in
    let held = if pending && ltb 0 page then slice (start - size) start rows else [] in
    record {
      rows = shown;
      indices = places_at found start (length shown);
      page = page;
      from = if nat_eq to 0 then 0 else start + 1;
      to = to;
      total = length rows;
      loaded = length block.rows;
      filtered = filtered;
      has_previous = ltb 0 page;
      has_next = ltb (start + length shown) (length rows) || can_grow block && not filtered;
      want = (page + 1) * size;
      pending = pending;
      held = held;
      held_indices = places_at found (start - size) (length held);
      expected = expected;
    }
