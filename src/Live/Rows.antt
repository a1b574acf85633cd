-- ===== src/Live/Rows.antt =====
-- ui/src/kaja.ts: how a table is drawn and how the script writes its rows through the handles. A
-- cell is given as what the script handed over, its texts formatted already.
use kaja.Prelude.{
  ℕ, zero, suc, ◌-◌, String, Bool, true, false, ◌&&◌, Option, none, some, List, [], ◌∷◌, ◌++◌, map,
  ltb, leb, length, set, if◌then◌else◌,
}
use kaja.Prelude.NatDict
use kaja.Block.{TableBlock}
use kaja.Block.Cells.{with_cell_status, without_row_status}
use kaja.TableView.{page_size_of}
use kaja.Live.{LiveTable, Script, silent, LiveCell, set_cells, set_block, set_cell, publish}
use kaja.Live.Cells.{fill_cell, start_cell}

-- A value, an `Error`, a function by its name, or a promise.
pub data CellInput : Type 0 where
  value : String → CellInput
  stopped : String → CellInput
  lazy : ℕ → CellInput
  started : CellInput

abbrev pub cell_text : CellInput → String
cell_text (CellInput.value text) = text
cell_text _ = ""

abbrev pub blanks : ℕ → List String
blanks zero = []
blanks (suc n) = "" ∷ blanks n

abbrev pub pad_cells : List String → ℕ → List String
pad_cells cells width =
    if leb width (length cells) then cells else cells ++ blanks (width - length cells)

unfoldable pub stamp_row : ℕ → LiveTable → LiveTable
unfolding without_row_status
stamp_row index t = set_cells (without_row_status t.block index) (record t {
  revision = suc t.revision;
  row_revision = NatDict.insert index (suc t.revision) t.row_revision;
  cells = NatDict.remove index t.cells;
})

-- A cell that is on its way: the table is held from now on.
unfoldable pub expect_cell : ℕ → ℕ → LiveCell → LiveTable → LiveTable
unfolding set_cell with_cell_status
expect_cell row column cell t =
    let expecting = set_cell row column cell t in
    record (set_cells
      (with_cell_status t.block row column (some (record { error = none; retry = false })))
      expecting) { held = true }

abbrev pub row_text : List CellInput → TableBlock → List String
row_text cells block = pad_cells (map cell_text cells) (length block.columns)

abbrev pad_rows : List (List String) → ℕ → List (List String)
pad_rows [] width = []
pad_rows (row ∷ rows) width = pad_cells row width ∷ pad_rows rows width

unfoldable pub add_column : String → LiveTable → LiveTable
add_column name t =
    let columns = t.block.columns ++ name ∷ [] in
    publish (
      set_block
        (record t.block { columns = columns; rows = pad_rows t.block.rows (length columns) }) t)

-- A number that is no count arrives as none, and a fraction rounded down.
unfoldable pub set_total : Option ℕ → LiveTable → LiveTable
set_total count t = publish (set_block (record t.block { total = count }) t)

-- What `kaja.table` was given: rows outright, or a source that a function opens again, that takes
-- the search text, or neither.
pub data Source : Type 0 where
  no_rows : Source
  given : List (List CellInput) → Source
  opened : Bool → Bool → Source

unfoldable pub new_table : List String → Option ℕ → LiveTable
new_table columns page_size = record {
  block = record {
    columns = columns;
    rows = [];
    cells = none;
    live = false;
    loading = false;
    exhausted = false;
    server_search = false;
    loaded_search = none;
    expired = false;
    page_size = page_size;
    total = none;
    error = none;
  };
  published = none;
  held = false;
  has_open = false;
  iterating = false;
  restartable = false;
  restart = false;
  search = "";
  generation = 0;
  pulling = none;
  pulls = [];
  next_pull = 0;
  cells = [];
  revision = 0;
  row_revision = [];
  running = [];
}

module _ ⦃script : Script⦄ where
  -- `#awaitCell`: a function is started where it is on the first page.
  unfoldable pub await_cell : ℕ → ℕ → ℕ → Option ℕ → LiveTable → LiveTable
  unfolding expect_cell start_cell fill_cell page_size_of
  await_cell row column revision (some work) t =
      let expecting = expect_cell row column (record { work = some work; revision = revision }) t in
      if ltb row (page_size_of t.block) then start_cell row column expecting else expecting
  await_cell row column revision none t =
      fill_cell row column revision none
        (expect_cell row column (record { work = none; revision = revision }) t)

  unfoldable pub declare_cell : ℕ → ℕ → ℕ → CellInput → LiveTable → LiveTable
  unfolding await_cell with_cell_status
  declare_cell row column revision (CellInput.value text) t = t
  declare_cell row column revision (CellInput.stopped message) t =
      set_cells
        (with_cell_status t.block row column
          (some (record { error = some message; retry = false })))
        t
  declare_cell row column revision (CellInput.lazy work) t =
      await_cell row column revision (some work) t
  declare_cell row column revision CellInput.started t = await_cell row column revision none t

  unfoldable pub declare_cells : ℕ → ℕ → ℕ → List CellInput → LiveTable → LiveTable
  unfolding declare_cell
  declare_cells row column revision [] t = t
  declare_cells row column revision (cell ∷ cells) t =
      declare_cells row (suc column) revision cells (declare_cell row column revision cell t)

  -- `#declareRow`, as the table that it leaves and the text that it gives.
  unfoldable pub declare_row : ℕ → List CellInput → LiveTable → LiveTable
  unfolding declare_cells stamp_row
  declare_row index cells t = declare_cells index 0 (suc t.revision) cells (stamp_row index t)

  -- The row at the end of the table, declared and drawn: the rows are read before it is declared.
  unfoldable pub push_row : List CellInput → LiveTable → LiveTable
  unfolding declare_row
  push_row cells t =
      let declared = declare_row (length t.block.rows) cells t in
      publish (
        set_block
          (record declared.block { rows = t.block.rows ++ row_text cells declared.block ∷ [] })
          declared)

  -- `update` of the handle of a row; the row can be gone.
  unfoldable pub update_row : ℕ → List CellInput → LiveTable → LiveTable
  unfolding declare_row
  update_row index cells t =
      let declared = declare_row index cells t in
      if ltb index (length t.block.rows)
      then publish (
          set_block
            (record declared.block {
              rows = set declared.block.rows index (row_text cells declared.block);
            })
            declared)
      else t

  unfoldable pub declare_rows : ℕ → List (List CellInput) → LiveTable → LiveTable
  unfolding declare_row
  declare_rows index [] t = t
  declare_rows index (row ∷ rows) t = declare_rows (suc index) rows (declare_row index row t)

abbrev row_texts : List (List CellInput) → TableBlock → List (List String)
row_texts rows block = map (λ row. row_text row block) rows

unfoldable pub with_source : Source → LiveTable → LiveTable
unfolding declare_rows
with_source Source.no_rows t = t
with_source (Source.given rows) t =
    let declared = declare_rows ⦃script = silent⦄ 0 rows t in
    set_block (record declared.block { rows = row_texts rows t.block }) declared
with_source (Source.opened restartable takes_search) t =
    set_block
      (record t.block {
        live = true;
        server_search = restartable && takes_search;
        loaded_search = some "";
      })
      (record t { restartable = restartable; has_open = true; held = true })

-- `kaja.table`; what a cell's work does at once finds no handle of the table yet. The first page is pulled by an operation of its own.
unfoldable pub table : List String → Source → Option ℕ → LiveTable
unfolding with_source new_table
table columns source page_size = publish (with_source source (new_table columns page_size))
