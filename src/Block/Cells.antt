-- ===== src/Block/Cells.antt =====
-- ui/src/blocks.ts: the sparse map of the cells of a table that hold no value yet.
use kaja.Prelude.{
  ℕ, ◌≡◌, refl, ◌&&◌, Option, none, some, [], ◌∷◌, arith, nat_eq, is_nil, get_or, if◌then◌else◌,
  Option-cases, inl, inr,
}
use kaja.Prelude.NatDict
use kaja.Prelude.NatDict.{NatDict, lookup-insert, lookup-remove}
use kaja.Block.{TableBlock, CellStatus}

abbrev pub Cells : Type 0
Cells = Option (NatDict (NatDict CellStatus))

-- `cells?.[row]?.[column]`
unfoldable pub status_at : Cells → ℕ → ℕ → Option CellStatus
status_at none row column = none
status_at (some cells) row column = elim (NatDict.lookup row cells) [
  | none ↦ none
  | some in_row ↦ NatDict.lookup column in_row
]

unfoldable pub cell_status : TableBlock → ℕ → ℕ → Option CellStatus
unfolding status_at
cell_status block row column = status_at block.cells row column

-- An empty map is dropped rather than kept.
abbrev drop_empty : NatDict (NatDict CellStatus) → Cells
drop_empty cells = if is_nil cells then none else some cells

abbrev set_status : Option CellStatus → ℕ → NatDict CellStatus → NatDict CellStatus
set_status none column in_row = NatDict.remove column in_row
set_status (some status) column in_row = NatDict.insert column status in_row

abbrev set_row :
    ℕ → NatDict CellStatus → NatDict (NatDict CellStatus) → NatDict (NatDict CellStatus)
set_row row in_row cells =
    if is_nil in_row then NatDict.remove row cells else NatDict.insert row in_row cells

unfoldable pub with_cell_status : TableBlock → ℕ → ℕ → Option CellStatus → Cells
with_cell_status block row column status =
    let cells = get_or block.cells [] in
    let in_row = set_status status column (get_or (NatDict.lookup row cells) []) in
    drop_empty (set_row row in_row cells)

-- Only a row with an entry is taken out.
abbrev clear_row : ℕ → NatDict (NatDict CellStatus) → Cells
clear_row row cells = elim (NatDict.lookup row cells) [
  | none ↦ some cells
  | some _ ↦ drop_empty (NatDict.remove row cells)
]

unfoldable pub without_row_status : TableBlock → ℕ → Cells
without_row_status block row = elim block.cells [ none ↦ none | some cells ↦ clear_row row cells ]

status_at-drop_empty :
    (cells : NatDict (NatDict CellStatus)) (r c : ℕ)
    → status_at (drop_empty cells) r c ≡ status_at (some cells) r c
unfolding status_at
status_at-drop_empty [] r c = refl
status_at-drop_empty (_ ∷ _) r c = refl

abbrev row_of : ℕ → NatDict (NatDict CellStatus) → NatDict CellStatus
row_of r cells = get_or (NatDict.lookup r cells) []

status_at-row_of :
    (cells : NatDict (NatDict CellStatus)) (r c : ℕ)
    → status_at (some cells) r c ≡ NatDict.lookup c (row_of r cells)
unfolding status_at
status_at-row_of cells r c = ground arith

row_of-set_row :
    (row r : ℕ) (in_row : NatDict CellStatus) (cells : NatDict (NatDict CellStatus))
    → row_of r (set_row row in_row cells) ≡ (if nat_eq row r then in_row else row_of r cells)
row_of-set_row row r [] cells = ground (arith, lookup-remove row r cells)
row_of-set_row row r (e ∷ in_row) cells = ground (arith, lookup-insert row r (e ∷ in_row) cells)

lookup-set_status :
    (status : Option CellStatus) (column c : ℕ) (in_row : NatDict CellStatus)
    → NatDict.lookup c (set_status status column in_row)
      ≡ (if nat_eq column c then status else NatDict.lookup c in_row)
lookup-set_status none column c in_row = lookup-remove column c in_row
lookup-set_status (some s) column c in_row = lookup-insert column c s in_row

status_at-get_or :
    (cells : Cells) (r c : ℕ) → status_at (some (get_or cells [])) r c ≡ status_at cells r c
unfolding status_at
status_at-get_or none r c = refl
status_at-get_or (some cells) r c = refl

module _ (block : TableBlock) (row column : ℕ) (status : Option CellStatus) (r c : ℕ) where
  -- Setting or clearing one cell gives that cell the status asked for, and leaves the status of
  -- every other cell of the table as it was.
  pub status_at-with_cell_status :
      status_at (with_cell_status block row column status) r c
      ≡ (if nat_eq row r && nat_eq column c then status else cell_status block r c)
  unfolding with_cell_status cell_status
  status_at-with_cell_status =
      let cells = get_or block.cells [] in
      let in_row = set_status status column (get_or (NatDict.lookup row cells) []) in
      ground (
        arith,
        status_at-drop_empty (set_row row in_row cells) r c,
        status_at-row_of (set_row row in_row cells) r c,
        row_of-set_row row r in_row cells,
        lookup-set_status status column c (get_or (NatDict.lookup row cells) []),
        status_at-row_of cells r c,
        status_at-get_or block.cells r c,
      )

status_at-clear_row :
    (row r c : ℕ) (cells : NatDict (NatDict CellStatus))
    → status_at (clear_row row cells) r c
      ≡ (if nat_eq row r then none else status_at (some cells) r c)
status_at-clear_row row r c cells = ground (
  arith,
  status_at-drop_empty (NatDict.remove row cells) r c,
  lookup-remove row r cells,
  status_at-row_of (NatDict.remove row cells) r c,
  status_at-row_of cells r c,
)

-- Rewriting a row clears the status of every cell of that row, and of no other cell.
pub status_at-without_row_status :
    (block : TableBlock) (row r c : ℕ)
    → status_at (without_row_status block row) r c
      ≡ (if nat_eq row r then none else cell_status block r c)
unfolding without_row_status cell_status
status_at-without_row_status block row r c = elim (Option-cases block.cells) [
  | inl gone ↦ rw gone (unfold status_at in ground arith)
  | inr (cells, here) ↦ rw here (status_at-clear_row row r c cells)
]
