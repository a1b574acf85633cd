-- ===== src/Live.antt =====
-- ui/src/kaja.ts: the tables of a script that are still being filled. The closures stand beside the
-- block: the cells that are no value yet, the work that fills them and the rows' revisions. What a
-- function or a promise gives arrives as an event of its own; what a function does to its table before
-- its first wait is the script's `begin`. A cell object is told from others by
-- its place and its revision, since a row declares each of its columns once.
pub mod Cells
pub mod Scripts
pub mod Rows
pub mod Pulls
pub mod Registry
pub mod Steps
pub mod Slots
pub mod Attended
pub mod Keeps
pub mod Bounds
pub mod Tended
pub mod Single
pub mod Late
pub mod Progress
pub mod Handed
pub mod Reach
pub use kaja.TableView.Asking.{CellRef}
use kaja.Prelude.{
  ℕ, suc, ◌+◌, ◌-◌, String, Bool, true, false, not, ◌&&◌, ◌||◌, Option, none, some, List, [], ◌∷◌,
  ◌++◌, ltb, leb, nat_eq, find?, filter, length, get_elem?, set, is_some, get_or, if◌then◌else◌,
}
use kaja.Prelude.NatDict
use kaja.Prelude.NatDict.{NatDict}
use kaja.Block.{TableBlock, CellStatus}
use kaja.Block.Cells.{cell_status, with_cell_status}

-- `work` is the `open` of the source, by its name: the work while nobody has asked for it.
pub record LiveCell : Type 0 where
  pub work : Option ℕ
  pub revision : ℕ

-- A `#fillCell` that is not over: a function has its work again for a retry, a promise has none;
-- one that is not flying waits for a slot.
pub record Task : Type 0 where
  pub row : ℕ
  pub column : ℕ
  pub revision : ℕ
  pub work : Option ℕ
  pub flying : Bool

-- A `#fill` that is not over.
pub record Pull : Type 0 where
  pub id : ℕ
  pub want : ℕ
  pub generation : ℕ

-- `published` is the block that `#onBlockUpdate` was last called with, and `held` says that the
-- table is one of the live tables.
pub record LiveTable : Type 0 where
  pub block : TableBlock
  pub published : Option TableBlock
  pub held : Bool
  pub has_open : Bool
  pub iterating : Bool
  pub restartable : Bool
  pub restart : Bool
  pub search : String
  pub generation : ℕ
  pub pulling : Option ℕ
  pub pulls : List Pull
  pub next_pull : ℕ
  pub cells : NatDict (NatDict LiveCell)
  pub revision : ℕ
  pub row_revision : NatDict ℕ
  pub running : List Task

-- What the functions of a script do at once to the table of their cell, each by its name: what runs
-- of the work before its first wait.
pub record Script : Type 0 where
  pub begin : ℕ → LiveTable → LiveTable

-- A function that only asks for what its cell is to show.
abbrev pub silent : Script
silent = record { begin = λ work t. t }

instance abbrev pub at_rest : Script
at_rest = silent

abbrev pub max_cells_in_flight : ℕ
max_cells_in_flight = 6

abbrev pub publish : LiveTable → LiveTable
publish t = record t { published = some t.block }

abbrev pub set_block : TableBlock → LiveTable → LiveTable
set_block block t = record t { block = block }

abbrev pub set_cells : Option (NatDict (NatDict CellStatus)) → LiveTable → LiveTable
set_cells cells t = set_block (record t.block { cells = cells }) t

abbrev pub in_row : ℕ → NatDict (NatDict LiveCell) → NatDict LiveCell
in_row row cells = get_or (NatDict.lookup row cells) []

-- `table.cells.get(row)?.get(column)`
unfoldable pub cell_at : LiveTable → ℕ → ℕ → Option LiveCell
cell_at t row column = NatDict.lookup column (in_row row t.cells)

unfoldable pub set_cell : ℕ → ℕ → LiveCell → LiveTable → LiveTable
set_cell row column cell t = record t {
  cells = NatDict.insert row (NatDict.insert column cell (in_row row t.cells)) t.cells;
}

-- `table.inFlight`
abbrev pub takes_slot : Task → Bool
takes_slot task = is_some task.work && task.flying

abbrev pub in_flight : List Task → List Task
in_flight tasks = filter takes_slot tasks

abbrev pub has_slot : LiveTable → Bool
has_slot t = ltb (length (in_flight t.running)) max_cells_in_flight

abbrev pub new_task : ℕ → ℕ → ℕ → Option ℕ → LiveTable → Task
new_task row column revision work t = record {
  row = row;
  column = column;
  revision = revision;
  work = work;
  flying = not (is_some work) || has_slot t;
}

abbrev pub failure_of : Option CellStatus → Option String
failure_of none = none
failure_of (some status) = status.error

abbrev pub has_failed : LiveTable → ℕ → ℕ → Bool
has_failed t row column = is_some (failure_of (cell_status t.block row column))

abbrev pub waiting_status : CellStatus
waiting_status = record { error = none; retry = false }

unfoldable pub clear_failure : ℕ → ℕ → LiveTable → LiveTable
unfolding cell_status
clear_failure row column t =
    if has_failed t row column
    then publish (set_cells (with_cell_status t.block row column (some waiting_status)) t)
    else t

abbrev set_text : List (List String) → ℕ → ℕ → Option String → List (List String)
set_text rows row column none = rows
set_text rows row column (some text) = elim (get_elem? rows row) [
  | none ↦ rows
  | some current ↦ set rows row (set current column text)
]

-- `table.rowRevision[row] === cell.revision`
abbrev pub is_revision : LiveTable → ℕ → ℕ → Bool
is_revision t row revision = elim (NatDict.lookup row t.row_revision) [
  | none ↦ false
  | some current ↦ nat_eq current revision
]

-- `#writeCell`
unfoldable pub write_cell : ℕ → ℕ → ℕ → Option String → Option CellStatus → LiveTable → LiveTable
write_cell row column revision text status t =
    if is_revision t row revision
    then publish (
        set_block
          (record t.block {
            rows = set_text t.block.rows row column text;
            cells = with_cell_status t.block row column status;
          })
          t)
    else t

-- `if (gated) cell.open = work`, where the object is still in the map.
unfoldable pub reopen : ℕ → ℕ → ℕ → Option ℕ → LiveTable → LiveTable
unfolding cell_at set_cell
reopen row column revision none t = t
reopen row column revision (some work) t = elim (cell_at t row column) [
  | none ↦ t
  | some cell ↦
      if nat_eq cell.revision revision
      then set_cell row column (record cell { work = some work }) t
      else t
]

abbrev pub is_task : ℕ → ℕ → ℕ → Task → Bool
is_task row column revision task =
    nat_eq task.row row && nat_eq task.column column && nat_eq task.revision revision

-- The first task that passes the test leaves.
abbrev pub remove_first : (Task → Bool) → List Task → List Task
remove_first p [] = []
remove_first p (task ∷ tasks) =
    let rest = remove_first p tasks in if p task then tasks else task ∷ rest

-- The first task that waits at the place is given the slot.
abbrev pub admit_first : (Task → Bool) → List Task → List Task
admit_first p [] = []
admit_first p (task ∷ tasks) =
    let rest = admit_first p tasks in
    if p task then record task { flying = true } ∷ tasks else task ∷ rest

-- What the work of a cell gave: a formatted value, or the message of its failure.
pub data Outcome : Type 0 where
  landed failed : String → Outcome

unfoldable pub settle : Task → Outcome → LiveTable → LiveTable
unfolding write_cell reopen
settle task (Outcome.landed text) t =
    write_cell task.row task.column task.revision (some text) none t
settle task (Outcome.failed message) t =
    write_cell task.row task.column task.revision none
      (some (record { error = some message; retry = is_some task.work }))
      (reopen task.row task.column task.revision task.work t)

-- The rest of `#fillCell`, once its work is over.
unfoldable pub land : ℕ → ℕ → ℕ → Outcome → LiveTable → LiveTable
unfolding settle
land row column revision outcome t =
    let flies = λ (task : Task). is_task row column revision task && task.flying in
    elim (find? flies t.running) [
      | none ↦ t
      | some task ↦ settle task outcome (record t { running = remove_first flies t.running })
    ]
