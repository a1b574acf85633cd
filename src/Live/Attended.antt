-- ===== src/Live/Attended.antt =====
-- ui/src/kaja.ts: what stands behind a cell of a table that holds no value yet. The lemmas of its
-- modules on the steps are about the script at rest, whose functions write nothing at once.
pub mod Stamps
pub mod Effects
pub mod Starts
pub mod Steps
pub mod Landing
use kaja.Prelude.{
  ℕ, ◌+◌, ◌≡◌, refl, String, Bool, true, false, not, ◌&&◌, ◌||◌, Option, none, some, List, [], ◌∷◌,
  ◌++◌, arith, any, all, leb, get_or, nat_eq, is_some, if◌then◌else◌, find?,
}
use kaja.Prelude.NatDict
use kaja.Prelude.NatDict.{NatDict, lookup-insert}
use kaja.Block.{CellStatus}
use kaja.Block.Cells.{cell_status, with_cell_status, status_at-with_cell_status}
use kaja.Live.{
  LiveTable, LiveCell, Task, cell_at, set_cell, in_row, is_task, is_revision, clear_failure,
  has_failed, waiting_status, new_task, remove_first, admit_first,
}
use kaja.Live.Cells.{fill_cell}

-- Some work for the cell's revision is on its way.
abbrev pub is_worked_on : ℕ → ℕ → ℕ → List Task → Bool
is_worked_on row column revision tasks = any (is_task row column revision) tasks

-- A cell answers the row as it stands.
abbrev pub is_current : Option ℕ → LiveCell → Bool
is_current none cell = false
is_current (some revision) cell = nat_eq revision cell.revision

-- A cell that stopped can be started again where it says so, and one that waits has work that is not
-- started or is on its way.
abbrev pub is_backed : CellStatus → LiveCell → Bool → Bool
is_backed status cell worked_on =
    if is_some status.error
    then not status.retry || is_some cell.work
    else is_some cell.work || worked_on

-- Nothing is on its way for the row as it stands.
abbrev pub is_idle : Option ℕ → (ℕ → Bool) → Bool
is_idle none worked_on = true
is_idle (some revision) worked_on = not (worked_on revision)

abbrev pub is_attended : Option ℕ → Option CellStatus → Option LiveCell → (ℕ → Bool) → Bool
is_attended revision none none worked_on = is_idle revision worked_on
is_attended revision none (some cell) worked_on = is_current revision cell
is_attended revision (some status) none worked_on =
    is_idle revision worked_on && is_some status.error && not status.retry
is_attended revision (some status) (some cell) worked_on =
    is_current revision cell && is_backed status cell (worked_on cell.revision)

-- Revisions are given out in ascending order.
abbrev pub is_given_out : Option ℕ → ℕ → Bool
is_given_out none last = true
is_given_out (some revision) last = leb revision last

unfoldable pub attended : LiveTable → ℕ → ℕ → Bool
unfolding cell_at cell_status
attended t row column =
    is_given_out (NatDict.lookup row t.row_revision) t.revision
    && is_attended (NatDict.lookup row t.row_revision) (cell_status t.block row column)
        (cell_at t row column) (λ revision. is_worked_on row column revision t.running)

-- No work is for a revision that is still to come.
abbrev pub is_stamped : LiveTable → Bool
is_stamped t = all (λ (task : Task). leb task.revision t.revision) t.running

abbrev pub current_revision : LiveTable → ℕ → ℕ
current_revision t row = get_or (NatDict.lookup row t.row_revision) 0

pub cell_at-set_cell :
    (row column : ℕ) (cell : LiveCell) (t : LiveTable) (r c : ℕ)
    → cell_at (set_cell row column cell t) r c
      ≡ (if nat_eq row r && nat_eq column c then some cell else cell_at t r c)
unfolding cell_at set_cell
cell_at-set_cell row column cell t r c = ground (
  arith,
  lookup-insert row r (NatDict.insert column cell (in_row row t.cells)) t.cells,
  lookup-insert column c cell (in_row row t.cells),
)

pub any-append {ℓ} :
    {A : Type ℓ} (p : A → Bool) (xs : List A) (x : A) → any p (xs ++ x ∷ []) ≡ any p xs || p x
any-append p [] x = ground arith
any-append p (y ∷ xs) x = ground (arith, any-append p xs x)

pub cell_status-clear_failure :
    (row column : ℕ) (t : LiveTable) (r c : ℕ)
    → cell_status (clear_failure row column t).block r c ≡ (
        if nat_eq row r && nat_eq column c && has_failed t row column
        then some waiting_status
        else cell_status t.block r c)
unfolding clear_failure
cell_status-clear_failure row column t r c =
    ground (arith, status_at-with_cell_status t.block row column (some waiting_status) r c)
