-- ===== src/Live/Steps.antt =====
-- ui/src/kaja.ts: what the writes to a table keep, those that its cells' work makes at once included.
use kaja.Prelude.{
  ℕ, zero, suc, ◌≡◌, refl, Bool, true, false, Option, none, some, List, [], ◌∷◌, arith, ltb, length,
  find?, filter, not, ◌||◌, if◌then◌else◌, Option-cases, inl, inr,
}
use kaja.Prelude.NatDict.{NatDict}
use kaja.TableView.{page_size_of}
use kaja.Live.{
  Script, silent, LiveTable, LiveCell, CellRef, has_slot, set_cell, cell_at, clear_failure,
  has_failed,
}
use kaja.Live.Cells.{
  waits, begin_work, fill_cell, start_work, start_cell, start_all, pull_cells, admit,
}
use kaja.Live.Rows.{
  CellInput, stamp_row, expect_cell, await_cell, declare_cell, declare_cells, declare_row, push_row,
  update_row, add_column, set_total,
}
use kaja.Live.Scripts.{Write, run_write, run_writes, script_of}
use kaja.Live.Single.{Flight, flight}

pub if-kept :
    (P : LiveTable → Type 0) (b : Bool) (t u : LiveTable) → P t → P u → P (if b then t else u)
if-kept P true t u h h' = h
if-kept P false t u h h' = h'

module _ ⦃script : Script⦄ where
  -- What holds of a table holds after a cell was started, where starting its work keeps it.
  pub start_cell-case :
      (P : LiveTable → Type 0) (row column : ℕ) (t : LiveTable)
      → P t
      → ((cell : LiveCell) (work : ℕ)
          → cell_at t row column ≡ some cell
          → P (start_work row column cell (some work) t))
      → P (start_cell row column t)
  unfolding start_cell start_work
  start_cell-case P row column t h step = elim (Option-cases (cell_at t row column)) [
    | inl gone ↦ rw (gone, start_cell) h
    | inr (cell, here) ↦
        rw (here, start_cell)
          (elim (Option-cases cell.work) [
            | inl none_left ↦ rw none_left h
            | inr (work, is_left) ↦ rw is_left (step cell work here)
          ])
  ]

-- What a table says of its pulls and of its rows' revisions.
pub record Sheet : Type 0 where
  pub flight_of : Flight
  pub revision : ℕ
  pub row_revision : NatDict ℕ

abbrev pub sheet : LiveTable → Sheet
sheet t = record { flight_of = flight t; revision = t.revision; row_revision = t.row_revision }

-- A property of the pulls and the revisions that a new revision of a row keeps.
pub record IsSteady (P : LiveTable → Type 0) : Type 0 where
  pub same : (t u : LiveTable) → sheet u ≡ sheet t → P t → P u
  pub stamp : (index : ℕ) (t : LiveTable) → P t → P (stamp_row index t)

-- What a function of the script does at once keeps the property.
abbrev pub IsBegun : Script → (LiveTable → Type 0) → Type 0
IsBegun script P = (work : ℕ) (t : LiveTable) → P t → P (script.begin work t)

module _ ⦃script : Script⦄ (P : LiveTable → Type 0) (steady : IsSteady P)
    (begun : IsBegun script P) where
  begin_work-steady : (work : Option ℕ) (t : LiveTable) → P t → P (begin_work work t)
  begin_work-steady none t h = h
  begin_work-steady (some work) t h = begun work t h

  fill_cell-steady :
      (row column revision : ℕ) (work : Option ℕ) (t : LiveTable)
      → P t
      → P (fill_cell row column revision work t)
  unfolding fill_cell
  fill_cell-steady row column revision work t h =
      steady.same (if has_slot t then begin_work work t else t)
        (fill_cell row column revision work t) refl
        (if-kept P (has_slot t) (begin_work work t) t (begin_work-steady work t h) h)

  pub start_cell-steady : (row column : ℕ) (t : LiveTable) → P t → P (start_cell row column t)
  unfolding start_work set_cell clear_failure
  start_cell-steady row column t h = start_cell-case P row column t h (λ cell work here.
      let taken = set_cell row column (record cell { work = none }) t in
      fill_cell-steady row column cell.revision (some work) (clear_failure row column taken)
        (steady.same t (clear_failure row column taken) (ground arith) h))

  expect_cell-steady :
      (row column : ℕ) (cell : LiveCell) (t : LiveTable) → P t → P (expect_cell row column cell t)
  unfolding expect_cell set_cell
  expect_cell-steady row column cell t h = steady.same t (expect_cell row column cell t) refl h

  await_cell-steady :
      (row column revision : ℕ) (work : Option ℕ) (t : LiveTable)
      → P t
      → P (await_cell row column revision work t)
  unfolding await_cell
  await_cell-steady row column revision none t h =
      let cell : LiveCell = record { work = none; revision = revision } in
      fill_cell-steady row column revision none (expect_cell row column cell t)
        (expect_cell-steady row column cell t h)
  await_cell-steady row column revision (some work) t h =
      let cell : LiveCell = record { work = some work; revision = revision } in
      let expecting = expect_cell row column cell t in
      let expected = expect_cell-steady row column cell t h in
      if-kept P (ltb row (page_size_of expecting.block)) (start_cell row column expecting) expecting
        (start_cell-steady row column expecting expected) expected

  declare_cell-steady :
      (row column revision : ℕ) (cell : CellInput) (t : LiveTable)
      → P t
      → P (declare_cell row column revision cell t)
  unfolding declare_cell
  declare_cell-steady row column revision (CellInput.value text) t h = h
  declare_cell-steady row column revision (CellInput.stopped message) t h =
      steady.same t (declare_cell row column revision (CellInput.stopped message) t) refl h
  declare_cell-steady row column revision (CellInput.lazy work) t h =
      await_cell-steady row column revision (some work) t h
  declare_cell-steady row column revision CellInput.started t h =
      await_cell-steady row column revision none t h

  pub declare_cells-steady :
      (row column revision : ℕ) (cells : List CellInput) (t : LiveTable)
      → P t
      → P (declare_cells row column revision cells t)
  unfolding declare_cells
  declare_cells-steady row column revision [] t h = h
  declare_cells-steady row column revision (cell ∷ cells) t h =
      declare_cells-steady row (suc column) revision cells (declare_cell row column revision cell t)
        (declare_cell-steady row column revision cell t h)

  pub declare_row-steady :
      (index : ℕ) (cells : List CellInput) (t : LiveTable) → P t → P (declare_row index cells t)
  unfolding declare_row
  declare_row-steady index cells t h =
      declare_cells-steady index 0 (suc t.revision) cells (stamp_row index t)
        (steady.stamp index t h)

  pub push_row-steady : (cells : List CellInput) (t : LiveTable) → P t → P (push_row cells t)
  unfolding push_row
  push_row-steady cells t h =
      let index = length t.block.rows in
      steady.same (declare_row index cells t) (push_row cells t) refl
        (declare_row-steady index cells t h)

  pub update_row-steady :
      (index : ℕ) (cells : List CellInput) (t : LiveTable) → P t → P (update_row index cells t)
  unfolding update_row
  update_row-steady index cells t h =
      let declared = declare_row index cells t in
      if-kept P (ltb index (length t.block.rows)) _ t
        (steady.same declared _ refl (declare_row-steady index cells t h)) h

  run_writes-steady : (writes : List Write) (t : LiveTable) → P t → P (run_writes writes t)
  unfolding run_writes run_write add_column set_total
  run_writes-steady [] t h = h
  run_writes-steady (Write.row cells ∷ writes) t h =
      run_writes-steady writes (push_row cells t) (push_row-steady cells t h)
  run_writes-steady (Write.update index cells ∷ writes) t h =
      run_writes-steady writes (update_row index cells t) (update_row-steady index cells t h)
  run_writes-steady (Write.column name ∷ writes) t h =
      run_writes-steady writes (add_column name t) (steady.same t (add_column name t) refl h)
  run_writes-steady (Write.total count ∷ writes) t h =
      run_writes-steady writes (set_total count t) (steady.same t (set_total count t) refl h)

  start_all-steady : (refs : List CellRef) (t : LiveTable) → P t → P (start_all refs t)
  start_all-steady [] t h = h
  start_all-steady (ref ∷ refs) t h =
      start_all-steady refs (start_cell ref.row ref.column t)
        (start_cell-steady ref.row ref.column t h)

  pub pull_cells-steady : (refs : List CellRef) (t : LiveTable) → P t → P (pull_cells refs t).0
  unfolding pull_cells
  pull_cells-steady refs t h =
      let asked =
        filter (λ (ref : CellRef). ref.retry || not (has_failed t ref.row ref.column)) refs in
      ground (arith, h, start_all-steady asked t h)

  pub admit-steady :
      (row column revision : ℕ) (t : LiveTable) → P t → P (admit row column revision t)
  unfolding admit
  admit-steady row column revision t h =
      elim (Option-cases (find? (waits row column revision) t.running)) [
        | inl gone ↦ rw (gone, admit) h
        | inr (task, here) ↦
            rw (here, admit)
              (if-kept P (has_slot t) _ t
                (steady.same (begin_work task.work t) _ refl (begin_work-steady task.work t h)) h)
      ]

-- A script's functions keep it, however deep their writes go.
pub script_of-IsBegun :
    (P : LiveTable → Type 0)
    → IsSteady P
    → (writes : ℕ → LiveTable → List Write) (depth : ℕ) → IsBegun (script_of writes depth) P
unfolding script_of
script_of-IsBegun P steady writes zero work t h = h
script_of-IsBegun P steady writes (suc depth) work t h =
    run_writes-steady ⦃script = script_of writes depth⦄ P steady
      (script_of-IsBegun P steady writes depth) (writes work t) t h

-- A script that is known by its writes.
abbrev pub IsWriter : Script → Type 1
IsWriter script = (P : LiveTable → Type 0) → IsSteady P → IsBegun script P

pub script_of-IsWriter :
    (writes : ℕ → LiveTable → List Write) (depth : ℕ) → IsWriter (script_of writes depth)
script_of-IsWriter writes depth P steady = script_of-IsBegun P steady writes depth

-- A script whose functions write nothing at once is silent.
pub script_of-silent :
    (writes : ℕ → LiveTable → List Write) (depth : ℕ)
    → ((work : ℕ) (t : LiveTable) → writes work t ≡ [])
    → script_of writes depth ≡ silent
unfolding script_of run_writes
script_of-silent writes zero quiet = refl
script_of-silent writes (suc depth) quiet =
    let unmoved : (work : ℕ) (t : LiveTable)
        → run_writes ⦃script = script_of writes depth⦄ (writes work t) t ≡ t =
      λ work t. rw (quiet work t) refl in
    λ i. record { begin = λ work t. unmoved work t i }
