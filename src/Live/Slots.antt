-- ===== src/Live/Slots.antt =====
-- ui/src/kaja.ts: the slots that the functions of a table's cells wait for.
use kaja.Prelude.{
  ℕ, suc, ◌∙◌, Option-cases, inl, inr, ◌+◌, ◌≤◌, ◌≡◌, refl, String, Bool, ◌&&◌, Option, none, some,
  List, [], ◌∷◌, ◌++◌, arith, length, is_some, find?, zero, true, ltb, Bool-cases, if◌then◌else◌,
}
use kaja.Block.{CellStatus}
use kaja.Live.{
  has_slot, Script, LiveTable, LiveCell, Task, Outcome, cell_at, set_cell, clear_failure,
  write_cell, reopen, settle, land, in_flight, new_task, is_task, remove_first, admit_first,
}
use kaja.Live.Cells.{begin_work, waits, fill_cell, start_work, start_cell, admit}
use kaja.Live.Steps.{if-kept}
use kaja.Live.Scripts.{Write, run_write, run_writes, script_of}
use kaja.Live.Rows.{
  push_row, update_row, add_column, set_total, CellInput, await_cell, expect_cell, declare_cell,
  declare_cells, declare_row, stamp_row,
}

abbrev pub slots : LiveTable → ℕ
slots t = length (in_flight t.running)

-- Six functions, and those that a chain of so many starts on top of them at once.
abbrev pub IsWithin : ℕ → LiveTable → Type 0
IsWithin depth t = slots t ≤ 6 + depth

slots-append :
    (tasks : List Task) (task : Task)
    → length (in_flight (tasks ++ task ∷ []))
      ≡ length (in_flight tasks) + length (in_flight (task ∷ []))
slots-append [] task = omega arith
slots-append (t ∷ tasks) task = ground (arith, slots-append tasks task)

slots-remove_first :
    (p : Task → Bool) (tasks : List Task)
    → length (in_flight (remove_first p tasks)) ≤ length (in_flight tasks)
slots-remove_first p [] = omega arith
slots-remove_first p (task ∷ tasks) = ground (arith, slots-remove_first p tasks)

slots-admit_first :
    (p : Task → Bool) (tasks : List Task)
    → length (in_flight (admit_first p tasks)) ≤ length (in_flight tasks) + 1
slots-admit_first p [] = omega arith
slots-admit_first p (task ∷ tasks) = ground (arith, slots-admit_first p tasks)

clear_failure-running :
    (row column : ℕ) (t : LiveTable) → (clear_failure row column t).running ≡ t.running
unfolding clear_failure
clear_failure-running row column t = ground arith

-- A table with the same tasks.
pub like :
    (depth : ℕ) (t u : LiveTable) → u.running ≡ t.running → IsWithin depth t → IsWithin depth u
like depth t u e h = ground (arith, e, h)

pub write_cell-running :
    (row column revision : ℕ) (text : Option String) (status : Option CellStatus) (t : LiveTable)
    → (write_cell row column revision text status t).running ≡ t.running
unfolding write_cell
write_cell-running row column revision text status t = ground arith

pub reopen-running :
    (row column revision : ℕ) (work : Option ℕ) (t : LiveTable)
    → (reopen row column revision work t).running ≡ t.running
unfolding reopen set_cell
reopen-running row column revision none t = refl
reopen-running row column revision (some work) t = ground arith

pub settle-running :
    (task : Task) (outcome : Outcome) (t : LiveTable) → (settle task outcome t).running ≡ t.running
unfolding settle
settle-running task (Outcome.landed text) t =
    write_cell-running task.row task.column task.revision (some text) none t
settle-running task (Outcome.failed message) t =
    write_cell-running task.row task.column task.revision none
      (some (record { error = some message; retry = is_some task.work }))
      (reopen task.row task.column task.revision task.work t)
    ∙ reopen-running task.row task.column task.revision task.work t

pub land-IsWithin :
    (depth row column revision : ℕ) (outcome : Outcome) (t : LiveTable)
    → IsWithin depth t
    → IsWithin depth (land row column revision outcome t)
unfolding land
land-IsWithin depth row column revision outcome t h =
    let flies = λ (task : Task). is_task row column revision task && task.flying in
    elim (Option-cases (find? flies t.running)) [
      | inl gone ↦ rw (gone, land) h
      | inr (task, here) ↦
          (let left = record t { running = remove_first flies t.running } in
            rw (here, land)
              (like depth left (settle task outcome left) (settle-running task outcome left)
                (omega (arith, slots-remove_first flies t.running, h))))
    ]

-- What a function of the script starts at once, where it found a slot, leaves room for itself.
abbrev pub IsRoomy : Script → ℕ → Type 0
IsRoomy script depth =
    (work : ℕ) (t : LiveTable) → slots t ≤ 5 → slots (script.begin work t) ≤ 5 + depth

module _ ⦃script : Script⦄ (depth : ℕ) (roomy : IsRoomy script depth) where
  begin_work-slots :
      (work : Option ℕ) (t : LiveTable) → slots t ≤ 5 → slots (begin_work work t) ≤ 5 + depth
  begin_work-slots none t h = omega (arith, h)
  begin_work-slots (some work) t h = roomy work t h

  fill_cell-IsWithin :
      (row column revision : ℕ) (work : Option ℕ) (t : LiveTable)
      → IsWithin depth t
      → IsWithin depth (fill_cell row column revision work t)
  unfolding fill_cell
  fill_cell-IsWithin row column revision work t h =
      let begun = if has_slot t then begin_work work t else t in
      let room : (has_slot t ≡ true) → slots (begin_work work t) ≤ 5 + depth =
        λ free. begin_work-slots work t (ground (arith, free)) in
      elim (Bool-cases (has_slot t)) [
        | inl free ↦ ground (
          arith,
          free,
          room free,
          slots-append (begin_work work t).running (new_task row column revision work t),
        )
        | inr busy ↦
            ground (arith, busy, h, slots-append t.running (new_task row column revision work t))
      ]

  start_work-IsWithin :
      (row column : ℕ) (cell : LiveCell) (work : Option ℕ) (t : LiveTable)
      → IsWithin depth t
      → IsWithin depth (start_work row column cell work t)
  unfolding start_work set_cell
  start_work-IsWithin row column cell none t h = h
  start_work-IsWithin row column cell (some work) t h =
      let taken = set_cell row column (record cell { work = none }) t in
      let ready = clear_failure row column taken in
      fill_cell-IsWithin row column cell.revision (some work) ready
        (like depth t ready (clear_failure-running row column taken) h)

  pub start_cell-IsWithin :
      (row column : ℕ) (t : LiveTable) → IsWithin depth t → IsWithin depth (start_cell row column t)
  unfolding start_cell
  start_cell-IsWithin row column t h = elim (Option-cases (cell_at t row column)) [
    | inl gone ↦ rw (gone, start_cell) h
    | inr (cell, here) ↦ rw (here, start_cell) (start_work-IsWithin row column cell cell.work t h)
  ]

  expect_cell-IsWithin :
      (row column : ℕ) (cell : LiveCell) (t : LiveTable)
      → IsWithin depth t
      → IsWithin depth (expect_cell row column cell t)
  unfolding expect_cell set_cell
  expect_cell-IsWithin row column cell t h = h

  await_cell-IsWithin :
      (row column revision : ℕ) (work : Option ℕ) (t : LiveTable)
      → IsWithin depth t
      → IsWithin depth (await_cell row column revision work t)
  unfolding await_cell
  await_cell-IsWithin row column revision none t h =
      let cell : LiveCell = record { work = none; revision = revision } in
      fill_cell-IsWithin row column revision none (expect_cell row column cell t)
        (expect_cell-IsWithin row column cell t h)
  await_cell-IsWithin row column revision (some work) t h =
      let cell : LiveCell = record { work = some work; revision = revision } in
      ground (
        arith,
        expect_cell-IsWithin row column cell t h,
        start_cell-IsWithin row column (expect_cell row column cell t),
      )

  declare_cell-IsWithin :
      (row column revision : ℕ) (cell : CellInput) (t : LiveTable)
      → IsWithin depth t
      → IsWithin depth (declare_cell row column revision cell t)
  unfolding declare_cell
  declare_cell-IsWithin row column revision (CellInput.value text) t h = h
  declare_cell-IsWithin row column revision (CellInput.stopped message) t h = h
  declare_cell-IsWithin row column revision (CellInput.lazy work) t h =
      await_cell-IsWithin row column revision (some work) t h
  declare_cell-IsWithin row column revision CellInput.started t h =
      await_cell-IsWithin row column revision none t h

  declare_cells-IsWithin :
      (row column revision : ℕ) (cells : List CellInput) (t : LiveTable)
      → IsWithin depth t
      → IsWithin depth (declare_cells row column revision cells t)
  unfolding declare_cells
  declare_cells-IsWithin row column revision [] t h = h
  declare_cells-IsWithin row column revision (cell ∷ cells) t h =
      declare_cells-IsWithin row (suc column) revision cells
        (declare_cell row column revision cell t)
        (declare_cell-IsWithin row column revision cell t h)

  pub declare_row-IsWithin :
      (index : ℕ) (cells : List CellInput) (t : LiveTable)
      → IsWithin depth t
      → IsWithin depth (declare_row index cells t)
  unfolding declare_row stamp_row
  declare_row-IsWithin index cells t h =
      declare_cells-IsWithin index 0 (suc t.revision) cells (stamp_row index t) h

  pub admit-IsWithin :
      (row column revision : ℕ) (t : LiveTable)
      → IsWithin depth t
      → IsWithin depth (admit row column revision t)
  unfolding admit
  admit-IsWithin row column revision t h =
      elim (Option-cases (find? (waits row column revision) t.running)) [
        | inl gone ↦ rw (gone, admit) h
        | inr (task, here) ↦
            (let begun = begin_work task.work t in
              rw (here, admit)
                (ground (
                  arith,
                  h,
                  begin_work-slots task.work t,
                  slots-admit_first (waits row column revision) begun.running,
                )))
      ]

  push_row-IsWithin :
      (cells : List CellInput) (t : LiveTable)
      → IsWithin depth t
      → IsWithin depth (push_row cells t)
  unfolding push_row
  push_row-IsWithin cells t h = declare_row-IsWithin (length t.block.rows) cells t h

  update_row-IsWithin :
      (index : ℕ) (cells : List CellInput) (t : LiveTable)
      → IsWithin depth t
      → IsWithin depth (update_row index cells t)
  unfolding update_row
  update_row-IsWithin index cells t h =
      if-kept (IsWithin depth) (ltb index (length t.block.rows)) _ t
        (declare_row-IsWithin index cells t h) h

  run_writes-IsWithin :
      (writes : List Write) (t : LiveTable)
      → IsWithin depth t
      → IsWithin depth (run_writes writes t)
  unfolding run_writes run_write add_column set_total
  run_writes-IsWithin [] t h = h
  run_writes-IsWithin (Write.row cells ∷ writes) t h =
      run_writes-IsWithin writes (push_row cells t) (push_row-IsWithin cells t h)
  run_writes-IsWithin (Write.update index cells ∷ writes) t h =
      run_writes-IsWithin writes (update_row index cells t) (update_row-IsWithin index cells t h)
  run_writes-IsWithin (Write.column name ∷ writes) t h =
      run_writes-IsWithin writes (add_column name t) h
  run_writes-IsWithin (Write.total count ∷ writes) t h =
      run_writes-IsWithin writes (set_total count t) h

-- A chain of functions that start one another at once.
pub script_of-IsRoomy :
    (writes : ℕ → LiveTable → List Write) (depth : ℕ) → IsRoomy (script_of writes depth) depth
unfolding script_of
script_of-IsRoomy writes zero work t h = h
script_of-IsRoomy writes (suc depth) work t h = omega (
  arith,
  run_writes-IsWithin ⦃script = script_of writes depth⦄ depth (script_of-IsRoomy writes depth)
      (writes work t) t (omega (arith, h)),
)
