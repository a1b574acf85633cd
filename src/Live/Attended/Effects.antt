-- ===== src/Live/Attended/Effects.antt =====
-- ui/src/kaja.ts: what the end of a cell's work changes of a table.
use kaja.Prelude.{
  ℕ, ◌≡◌, refl, ◌∙◌, String, Bool, ◌&&◌, Option, none, some, arith, nat_eq, is_some, if◌then◌else◌,
  Option-cases, inl, inr,
}
use kaja.Block.{CellStatus}
use kaja.Block.Cells.{cell_status, status_at-with_cell_status}
use kaja.Live.{
  LiveTable, LiveCell, Task, Outcome, cell_at, set_cell, is_task, is_revision, write_cell, reopen,
  settle,
}
use kaja.Live.Slots.{write_cell-running, reopen-running}
use kaja.Live.Attended.{cell_at-set_cell}

abbrev pub flies : ℕ → ℕ → ℕ → Task → Bool
flies row column revision task = is_task row column revision task && task.flying

abbrev pub reopened : ℕ → Option ℕ → Option LiveCell → Option LiveCell
reopened revision work none = none
reopened revision none (some cell) = some cell
reopened revision (some work) (some cell) =
    if nat_eq cell.revision revision then some (record cell { work = some work }) else some cell

module _ (row column revision : ℕ) (t : LiveTable) (r c : ℕ) where
  pub cell_at-reopen :
      (work : Option ℕ)
      → cell_at (reopen row column revision work t) r c ≡ (
          if nat_eq row r && nat_eq column c
          then reopened revision work (cell_at t r c)
          else cell_at t r c)
  unfolding reopen
  cell_at-reopen none = ground arith
  cell_at-reopen (some work) = elim (Option-cases (cell_at t row column)) [
    | inl gone ↦ ground (arith, gone)
    | inr (cell, here) ↦
        ground (arith, here, cell_at-set_cell row column (record cell { work = some work }) t r c)
  ]

  pub reopen-block : (work : Option ℕ) → (reopen row column revision work t).block ≡ t.block
  unfolding reopen set_cell
  reopen-block none = refl
  reopen-block (some work) = ground arith

  pub reopen-row_revision :
      (work : Option ℕ) → (reopen row column revision work t).row_revision ≡ t.row_revision
  unfolding reopen set_cell
  reopen-row_revision none = refl
  reopen-row_revision (some work) = ground arith

  module _ (text : Option String) (status : Option CellStatus) where
    pub write_cell-status : cell_status (write_cell row column revision text status t).block r c ≡ (
        if is_revision t row revision && nat_eq row r && nat_eq column c
        then status
        else cell_status t.block r c)
    unfolding write_cell cell_status
    write_cell-status = ground (arith, status_at-with_cell_status t.block row column status r c)

    pub write_cell-cell_at :
        cell_at (write_cell row column revision text status t) r c ≡ cell_at t r c
    unfolding write_cell cell_at
    write_cell-cell_at = ground arith

    pub write_cell-row_revision :
        (write_cell row column revision text status t).row_revision ≡ t.row_revision
    unfolding write_cell
    write_cell-row_revision = ground arith

    pub write_cell-revision : (write_cell row column revision text status t).revision ≡ t.revision
    unfolding write_cell
    write_cell-revision = ground arith

  pub reopen-revision :
      (work : Option ℕ) → (reopen row column revision work t).revision ≡ t.revision
  unfolding reopen set_cell
  reopen-revision none = refl
  reopen-revision (some work) = ground arith

-- What a failure leaves of the table.
abbrev pub stop_cell : ℕ → ℕ → ℕ → String → Option ℕ → LiveTable → LiveTable
stop_cell row column revision message work t =
    write_cell row column revision none
      (some (record { error = some message; retry = is_some work }))
      (reopen row column revision work t)

module _ (row column revision : ℕ) (message : String) (work : Option ℕ) (t : LiveTable)
    (r c : ℕ) where
  pub stop_cell-status : cell_status (stop_cell row column revision message work t).block r c ≡ (
      if is_revision t row revision && nat_eq row r && nat_eq column c
      then some (record { error = some message; retry = is_some work })
      else cell_status t.block r c)
  stop_cell-status =
      let ready = reopen row column revision work t in
      ground (
        arith,
        write_cell-status row column revision ready r c none
            (some (record { error = some message; retry = is_some work })),
        reopen-block row column revision t r c work,
        reopen-row_revision row column revision t r c work,
      )

  pub stop_cell-row_revision :
      (stop_cell row column revision message work t).row_revision ≡ t.row_revision
  stop_cell-row_revision =
      write_cell-row_revision row column revision (reopen row column revision work t) r c none
        (some (record { error = some message; retry = is_some work }))
      ∙ reopen-row_revision row column revision t r c work

  pub stop_cell-revision : (stop_cell row column revision message work t).revision ≡ t.revision
  stop_cell-revision =
      write_cell-revision row column revision (reopen row column revision work t) r c none
        (some (record { error = some message; retry = is_some work }))
      ∙ reopen-revision row column revision t r c work

  pub stop_cell-running : (stop_cell row column revision message work t).running ≡ t.running
  stop_cell-running =
      write_cell-running row column revision none
        (some (record { error = some message; retry = is_some work }))
        (reopen row column revision work t)
      ∙ reopen-running row column revision work t

  pub stop_cell-cell_at :
      cell_at (stop_cell row column revision message work t) r c
      ≡ cell_at (reopen row column revision work t) r c
  stop_cell-cell_at =
      write_cell-cell_at row column revision (reopen row column revision work t) r c none
        (some (record { error = some message; retry = is_some work }))

pub settle-revision :
    (task : Task) (outcome : Outcome) (t : LiveTable)
    → (settle task outcome t).revision ≡ t.revision
unfolding settle
settle-revision task (Outcome.landed text) t =
    write_cell-revision task.row task.column task.revision t 0 0 (some text) none
settle-revision task (Outcome.failed message) t =
    stop_cell-revision task.row task.column task.revision message task.work t 0 0

pub settle-row_revision :
    (task : Task) (outcome : Outcome) (t : LiveTable)
    → (settle task outcome t).row_revision ≡ t.row_revision
unfolding settle
settle-row_revision task (Outcome.landed text) t =
    write_cell-row_revision task.row task.column task.revision t 0 0 (some text) none
settle-row_revision task (Outcome.failed message) t =
    stop_cell-row_revision task.row task.column task.revision message task.work t 0 0
