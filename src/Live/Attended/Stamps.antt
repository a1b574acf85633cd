-- ===== src/Live/Attended/Stamps.antt =====
-- ui/src/kaja.ts: the revisions that rows are stamped with, as to the work on its way.
use kaja.Prelude.{
  ℕ, suc, ◌≡◌, refl, ap, ◌∙◌, Bool, true, ◌&&◌, Option, none, some, List, [], ◌∷◌, ◌++◌, arith, all,
  leb,
}
use kaja.Prelude.NatDict
use kaja.Prelude.NatDict.{lookup-insert}
use kaja.Live.{
  at_rest, LiveTable, LiveCell, Task, cell_at, set_cell, clear_failure, new_task, remove_first,
  admit_first,
}
use kaja.Live.Cells.{fill_cell, start_work, start_cell}
use kaja.Live.Rows.{
  CellInput, stamp_row, expect_cell, await_cell, declare_cell, declare_cells, declare_row,
}
use kaja.Live.Attended.{attended, is_stamped}
use kaja.Live.Steps.{start_cell-case}
use kaja.Live.Attended.Starts.{start_work-revision}
use kaja.Live.Attended.Steps.{
  expect_cell-attended, declare_cell-attended, declare_cell-row_revision, stamp_row-attended,
}

abbrev up_to : ℕ → Task → Bool
up_to last task = leb task.revision last

all-append {ℓ} :
    {A : Type ℓ} (p : A → Bool) (xs : List A) (x : A) → all p (xs ++ x ∷ []) ≡ all p xs && p x
all-append p [] x = ground arith
all-append p (y ∷ xs) x = ground (arith, all-append p xs x)

pub all-remove_first :
    (p q : Task → Bool) (tasks : List Task)
    → all p tasks ≡ true
    → all p (remove_first q tasks) ≡ true
all-remove_first p q [] h = refl
all-remove_first p q (task ∷ tasks) h = ground (arith, all-remove_first p q tasks)

all-up_to :
    (tasks : List Task) (last : ℕ)
    → all (up_to last) tasks ≡ true
    → all (up_to (suc last)) tasks ≡ true
all-up_to [] last h = refl
all-up_to (task ∷ tasks) last h = ground (arith, all-up_to tasks last)

fill_cell-is_stamped :
    (row column revision : ℕ) (work : Option ℕ) (t : LiveTable)
    → leb revision t.revision ≡ true
    → is_stamped t ≡ true
    → is_stamped (fill_cell row column revision work t) ≡ true
unfolding fill_cell
fill_cell-is_stamped row column revision work t below h =
    ground (arith, all-append (up_to t.revision) t.running (new_task row column revision work t))

start_work-is_stamped :
    (row column : ℕ) (cell : LiveCell) (work : ℕ) (t : LiveTable)
    → cell_at t row column ≡ some cell
    → attended t row column ≡ true
    → is_stamped t ≡ true
    → is_stamped (start_work row column cell (some work) t) ≡ true
unfolding start_work clear_failure set_cell attended
start_work-is_stamped row column cell work t here h stamped =
    let ready = clear_failure row column (set_cell row column (record cell { work = none }) t) in
    fill_cell-is_stamped row column cell.revision (some work) ready (ground (arith, here, h))
      (ground (arith, stamped))

pub start_cell-revision :
    (row column : ℕ) (t : LiveTable) → (start_cell row column t).revision ≡ t.revision
start_cell-revision row column t =
    start_cell-case (λ u. u.revision ≡ t.revision) row column t refl
      (λ cell work here. start_work-revision row column cell work t)

pub start_cell-is_stamped :
    (row column : ℕ) (t : LiveTable)
    → attended t row column ≡ true
    → is_stamped t ≡ true
    → is_stamped (start_cell row column t) ≡ true
start_cell-is_stamped row column t h stamped =
    start_cell-case (λ u. is_stamped u ≡ true) row column t stamped
      (λ cell work here. start_work-is_stamped row column cell work t here h stamped)

-- A row whose revision is the one that its cells are declared with.
module _ (row column revision : ℕ) (t : LiveTable) where
  await_cell-revision :
      (work : Option ℕ) → (await_cell row column revision work t).revision ≡ t.revision
  unfolding await_cell expect_cell fill_cell set_cell
  await_cell-revision none = ground arith
  await_cell-revision (some work) =
      let expecting = expect_cell row column (record { work = some work; revision = revision }) t in
      ground (arith, start_cell-revision row column expecting)

  await_cell-is_stamped :
      (work : Option ℕ)
      → NatDict.lookup row t.row_revision ≡ some revision
      → leb revision t.revision ≡ true
      → attended t row column ≡ true
      → is_stamped t ≡ true
      → is_stamped (await_cell row column revision work t) ≡ true
  unfolding await_cell expect_cell set_cell
  await_cell-is_stamped none current below h stamped =
      fill_cell-is_stamped row column revision none
        (expect_cell row column (record { work = none; revision = revision }) t) below stamped
  await_cell-is_stamped (some work) current below h stamped =
      let expecting = expect_cell row column (record { work = some work; revision = revision }) t in
      ground (
        arith,
        stamped,
        start_cell-is_stamped row column expecting
            (expect_cell-attended row column revision t row column work current h),
      )

  pub declare_cell-revision :
      (cell : CellInput) → (declare_cell row column revision cell t).revision ≡ t.revision
  unfolding declare_cell
  declare_cell-revision (CellInput.value text) = refl
  declare_cell-revision (CellInput.stopped message) = refl
  declare_cell-revision (CellInput.lazy work) = await_cell-revision (some work)
  declare_cell-revision CellInput.started = await_cell-revision none

  declare_cell-is_stamped :
      (cell : CellInput)
      → NatDict.lookup row t.row_revision ≡ some revision
      → leb revision t.revision ≡ true
      → attended t row column ≡ true
      → is_stamped t ≡ true
      → is_stamped (declare_cell row column revision cell t) ≡ true
  unfolding declare_cell
  declare_cell-is_stamped (CellInput.value text) current below h stamped = stamped
  declare_cell-is_stamped (CellInput.stopped message) current below h stamped = stamped
  declare_cell-is_stamped (CellInput.lazy work) current below h stamped =
      await_cell-is_stamped (some work) current below h stamped
  declare_cell-is_stamped CellInput.started current below h stamped =
      await_cell-is_stamped none current below h stamped

declare_cells-is_stamped :
    (row column revision : ℕ) (cells : List CellInput) (t : LiveTable)
    → NatDict.lookup row t.row_revision ≡ some revision
    → leb revision t.revision ≡ true
    → ((r c : ℕ) → attended t r c ≡ true)
    → is_stamped t ≡ true
    → is_stamped (declare_cells row column revision cells t) ≡ true
unfolding declare_cells
declare_cells-is_stamped row column revision [] t current below h stamped = stamped
declare_cells-is_stamped row column revision (cell ∷ cells) t current below h stamped =
    declare_cells-is_stamped row (suc column) revision cells
      (declare_cell row column revision cell t)
      (ap (NatDict.lookup row) (declare_cell-row_revision row column revision cell t) ∙ current)
      (ap (leb revision) (declare_cell-revision row column revision t cell) ∙ below)
      (λ r c. declare_cell-attended row column revision cell t r c current (h r c))
      (declare_cell-is_stamped row column revision t cell current below (h row column) stamped)

pub declare_row-is_stamped :
    (index : ℕ) (cells : List CellInput) (t : LiveTable)
    → ((r c : ℕ) → attended t r c ≡ true)
    → is_stamped t ≡ true
    → is_stamped (declare_row index cells t) ≡ true
unfolding declare_row stamp_row
declare_row-is_stamped index cells t h stamped =
    declare_cells-is_stamped index 0 (suc t.revision) cells (stamp_row index t)
      (ground (arith, lookup-insert index index (suc t.revision) t.row_revision)) (ground arith)
      (λ r c. stamp_row-attended index t r c stamped (h r c))
      (all-up_to t.running t.revision stamped)

pub all-admit_first :
    (last : ℕ) (p : Task → Bool) (tasks : List Task)
    → all (up_to last) tasks ≡ true
    → all (up_to last) (admit_first p tasks) ≡ true
all-admit_first last p [] h = refl
all-admit_first last p (task ∷ tasks) h = ground (arith, all-admit_first last p tasks)
