-- ===== src/Live/Attended/Steps.antt =====
-- ui/src/kaja.ts: writing a row, as to the work behind the cells.
use kaja.Prelude.{
  ℕ, suc, ◌≡◌, refl, ap, ◌∙◌, String, true, false, Option, none, some, List, [], ◌∷◌, arith, all,
  leb, nat_eq, ltb, if◌then◌else◌, Option-cases, inl, inr,
}
use kaja.Prelude.NatDict
use kaja.Prelude.NatDict.{NatDict, lookup-insert, lookup-remove}
use kaja.Block.Cells.{with_cell_status, status_at-with_cell_status, status_at-without_row_status}
use kaja.Live.{
  at_rest, LiveTable, LiveCell, Task, cell_at, set_cell, set_cells, is_task, waiting_status,
  new_task,
}
use kaja.Live.Cells.{fill_cell}
use kaja.Live.Rows.{
  CellInput, stamp_row, expect_cell, await_cell, declare_cell, declare_cells, declare_row,
}
use kaja.Live.Attended.{
  attended, is_stamped, current_revision, is_worked_on, any-append, cell_at-set_cell,
}
use kaja.Live.Attended.Starts.{start_cell-attended, start_cell-row_revision}

module _ (row column revision : ℕ) (t : LiveTable) (r c : ℕ) where
  pub expect_cell-attended :
      (work : ℕ)
      → NatDict.lookup row t.row_revision ≡ some revision
      → attended t r c ≡ true
      → attended (expect_cell row column (record { work = some work; revision = revision }) t) r c
        ≡ true
  unfolding expect_cell attended
  expect_cell-attended work stamped h = ground (
    arith,
    cell_at-set_cell row column (record { work = some work; revision = revision }) t r c,
    status_at-with_cell_status t.block row column (some waiting_status) r c,
  )

  expect_cell-fill_cell-attended :
      NatDict.lookup row t.row_revision ≡ some revision
      → attended t r c ≡ true
      → attended
          (fill_cell row column revision none
            (expect_cell row column (record { work = none; revision = revision }) t))
          r
          c
        ≡ true
  unfolding expect_cell fill_cell attended
  expect_cell-fill_cell-attended stamped h =
      let cell : LiveCell = record { work = none; revision = revision } in
      let expecting = expect_cell row column cell t in
      elim (Option-cases (cell_at t r c)) [
        | inl gone ↦ ground (
          arith,
          gone,
          cell_at-set_cell row column cell t r c,
          status_at-with_cell_status t.block row column (some waiting_status) r c,
          any-append (is_task r c (current_revision t r)) t.running
              (new_task row column revision none expecting),
          any-append (is_task r c revision) t.running (new_task row column revision none expecting),
        )
        | inr (other, there) ↦ ground (
          arith,
          there,
          cell_at-set_cell row column cell t r c,
          status_at-with_cell_status t.block row column (some waiting_status) r c,
          any-append (is_task r c revision) t.running (new_task row column revision none expecting),
          any-append (is_task r c other.revision) t.running
              (new_task row column revision none expecting),
        )
      ]

pub await_cell-attended :
    (row column revision : ℕ) (work : Option ℕ) (t : LiveTable) (r c : ℕ)
    → NatDict.lookup row t.row_revision ≡ some revision
    → attended t r c ≡ true
    → attended (await_cell row column revision work t) r c ≡ true
unfolding await_cell
await_cell-attended row column revision none t r c stamped h =
    expect_cell-fill_cell-attended row column revision t r c stamped h
await_cell-attended row column revision (some work) t r c stamped h =
    let expecting = expect_cell row column (record { work = some work; revision = revision }) t in
    ground (
      arith,
      expect_cell-attended row column revision t r c work stamped h,
      start_cell-attended row column expecting r c,
    )

stopped-attended :
    (row column : ℕ) (message : String) (t : LiveTable) (r c : ℕ)
    → attended t r c ≡ true
    → attended
        (set_cells
          (with_cell_status t.block row column
            (some (record { error = some message; retry = false })))
          t)
        r
        c
      ≡ true
unfolding attended
stopped-attended row column message t r c h = ground (
  arith,
  status_at-with_cell_status t.block row column
      (some (record { error = some message; retry = false })) r c,
)

pub declare_cell-attended :
    (row column revision : ℕ) (cell : CellInput) (t : LiveTable) (r c : ℕ)
    → NatDict.lookup row t.row_revision ≡ some revision
    → attended t r c ≡ true
    → attended (declare_cell row column revision cell t) r c ≡ true
unfolding declare_cell
declare_cell-attended row column revision (CellInput.value text) t r c stamped h = h
declare_cell-attended row column revision (CellInput.stopped message) t r c stamped h =
    stopped-attended row column message t r c h
declare_cell-attended row column revision (CellInput.lazy work) t r c stamped h =
    await_cell-attended row column revision (some work) t r c stamped h
declare_cell-attended row column revision CellInput.started t r c stamped h =
    await_cell-attended row column revision none t r c stamped h

pub await_cell-row_revision :
    (row column revision : ℕ) (work : Option ℕ) (t : LiveTable)
    → (await_cell row column revision work t).row_revision ≡ t.row_revision
unfolding await_cell expect_cell fill_cell set_cell
await_cell-row_revision row column revision none t = ground arith
await_cell-row_revision row column revision (some work) t =
    let expecting = expect_cell row column (record { work = some work; revision = revision }) t in
    ground (arith, start_cell-row_revision row column expecting)

pub declare_cell-row_revision :
    (row column revision : ℕ) (cell : CellInput) (t : LiveTable)
    → (declare_cell row column revision cell t).row_revision ≡ t.row_revision
unfolding declare_cell
declare_cell-row_revision row column revision (CellInput.value text) t = refl
declare_cell-row_revision row column revision (CellInput.stopped message) t = refl
declare_cell-row_revision row column revision (CellInput.lazy work) t =
    await_cell-row_revision row column revision (some work) t
declare_cell-row_revision row column revision CellInput.started t =
    await_cell-row_revision row column revision none t

declare_cells-attended :
    (row column revision : ℕ) (cells : List CellInput) (t : LiveTable) (r c : ℕ)
    → NatDict.lookup row t.row_revision ≡ some revision
    → attended t r c ≡ true
    → attended (declare_cells row column revision cells t) r c ≡ true
unfolding declare_cells
declare_cells-attended row column revision [] t r c stamped h = h
declare_cells-attended row column revision (cell ∷ cells) t r c stamped h =
    declare_cells-attended row (suc column) revision cells (declare_cell row column revision cell t)
      r c (ap (NatDict.lookup row) (declare_cell-row_revision row column revision cell t) ∙ stamped)
      (declare_cell-attended row column revision cell t r c stamped h)

cell_at-stamp_row :
    (index : ℕ) (t : LiveTable) (r c : ℕ)
    → cell_at (stamp_row index t) r c ≡ (if nat_eq index r then none else cell_at t r c)
unfolding stamp_row cell_at
cell_at-stamp_row index t r c = ground (arith, lookup-remove index r t.cells)

worked-stamped :
    (r c revision last : ℕ) (tasks : List Task)
    → all (λ (task : Task). leb task.revision last) tasks ≡ true
    → ltb last revision ≡ true
    → is_worked_on r c revision tasks ≡ false
worked-stamped r c revision last [] h above = refl
worked-stamped r c revision last (task ∷ tasks) h above =
    ground (arith, worked-stamped r c revision last tasks)

pub stamp_row-attended :
    (index : ℕ) (t : LiveTable) (r c : ℕ)
    → is_stamped t ≡ true
    → attended t r c ≡ true
    → attended (stamp_row index t) r c ≡ true
unfolding stamp_row attended
stamp_row-attended index t r c stamped h = ground (
  arith,
  cell_at-stamp_row index t r c,
  status_at-without_row_status t.block index r c,
  lookup-insert index r (suc t.revision) t.row_revision,
  worked-stamped r c (suc t.revision) t.revision t.running stamped,
)

-- Writing a row leaves no cell that waits without work.
pub declare_row-attended :
    (index : ℕ) (cells : List CellInput) (t : LiveTable) (r c : ℕ)
    → is_stamped t ≡ true
    → attended t r c ≡ true
    → attended (declare_row index cells t) r c ≡ true
unfolding declare_row stamp_row
declare_row-attended index cells t r c stamped h =
    declare_cells-attended index 0 (suc t.revision) cells (stamp_row index t) r c
      (ground (arith, lookup-insert index index (suc t.revision) t.row_revision))
      (stamp_row-attended index t r c stamped h)
