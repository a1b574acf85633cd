-- ===== src/Live/Attended/Starts.antt =====
-- ui/src/kaja.ts: starting a cell, as to the work behind the cells.
use kaja.Prelude.{
  ℕ, ◌≡◌, refl, true, ◌&&◌, ◌||◌, none, some, arith, nat_eq, if◌then◌else◌, Option-cases, inl, inr,
}
use kaja.Block.Cells.{cell_status}
use kaja.Live.{
  at_rest, LiveTable, LiveCell, cell_at, set_cell, is_task, clear_failure, has_failed,
  waiting_status, new_task,
}
use kaja.Live.Cells.{fill_cell, start_work, start_cell}
use kaja.Live.Steps.{start_cell-case}
use kaja.Live.Attended.{
  attended, current_revision, is_worked_on, any-append, cell_at-set_cell, cell_status-clear_failure,
}

module _ (row column : ℕ) (cell : LiveCell) (work : ℕ) (t : LiveTable) where
  start_work-row_revision : (start_work row column cell (some work) t).row_revision ≡ t.row_revision
  unfolding start_work fill_cell clear_failure set_cell
  start_work-row_revision = ground arith

  pub start_work-revision : (start_work row column cell (some work) t).revision ≡ t.revision
  unfolding start_work fill_cell clear_failure set_cell
  start_work-revision = ground arith

  start_work-running :
      (r c revision : ℕ)
      → is_worked_on r c revision (start_work row column cell (some work) t).running ≡ (
          is_worked_on r c revision t.running
          || nat_eq row r && nat_eq column c && nat_eq cell.revision revision)
  unfolding start_work fill_cell clear_failure set_cell
  start_work-running r c revision =
      let taken = set_cell row column (record cell { work = none }) t in
      let ready = clear_failure row column taken in
      ground (
        arith,
        any-append (is_task r c revision) t.running
            (new_task row column cell.revision (some work) ready),
      )

  start_work-cell_at :
      (r c : ℕ)
      → cell_at (start_work row column cell (some work) t) r c ≡ (
          if nat_eq row r && nat_eq column c
          then some (record cell { work = none })
          else cell_at t r c)
  unfolding start_work fill_cell clear_failure cell_at
  start_work-cell_at r c =
      ground (arith, cell_at-set_cell row column (record cell { work = none }) t r c)

  start_work-status :
      (r c : ℕ)
      → cell_status (start_work row column cell (some work) t).block r c ≡ (
          if nat_eq row r && nat_eq column c && has_failed t row column
          then some waiting_status
          else cell_status t.block r c)
  unfolding start_work fill_cell clear_failure set_cell
  start_work-status r c =
      let taken = set_cell row column (record cell { work = none }) t in
      ground (arith, cell_status-clear_failure row column taken r c)

  start_work-attended :
      (r c : ℕ)
      → cell_at t row column ≡ some cell
      → attended t r c ≡ true
      → attended (start_work row column cell (some work) t) r c ≡ true
  unfolding attended
  start_work-attended r c here h = elim (Option-cases (cell_at t r c)) [
    | inl gone ↦ ground (
      arith,
      gone,
      here,
      start_work-cell_at r c,
      start_work-status r c,
      start_work-row_revision,
      start_work-revision,
      start_work-running r c (current_revision t r),
    )
    | inr (other, there) ↦ ground (
      arith,
      there,
      here,
      start_work-cell_at r c,
      start_work-status r c,
      start_work-row_revision,
      start_work-revision,
      start_work-running r c other.revision,
    )
  ]

pub start_cell-attended :
    (row column : ℕ) (t : LiveTable) (r c : ℕ)
    → attended t r c ≡ true
    → attended (start_cell row column t) r c ≡ true
start_cell-attended row column t r c h =
    start_cell-case (λ u. attended u r c ≡ true) row column t h
      (λ cell work here. start_work-attended row column cell work t r c here h)

pub start_cell-row_revision :
    (row column : ℕ) (t : LiveTable) → (start_cell row column t).row_revision ≡ t.row_revision
start_cell-row_revision row column t =
    start_cell-case (λ u. u.row_revision ≡ t.row_revision) row column t refl
      (λ cell work here. start_work-row_revision row column cell work t)
