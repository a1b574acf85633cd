-- ===== src/Live/Cells.antt =====
-- ui/src/kaja.ts: how the work of a cell is started, at once or when it has a slot.
use kaja.Prelude.{
  ℕ, Option, Bool, true, false, none, some, List, [], ◌∷◌, ◌++◌, not, ◌&&◌, ◌||◌, find?, filter,
  if◌then◌else◌,
}
use kaja.Block.Cells.{cell_status}
use kaja.Live.{
  Script, CellRef, LiveTable, LiveCell, Task, has_slot, new_task, set_cell, cell_at, clear_failure,
  is_task, admit_first, has_failed,
}

-- A task that waits for a slot.
abbrev pub waits : ℕ → ℕ → ℕ → Task → Bool
waits row column revision task = is_task row column revision task && not task.flying

module _ ⦃script : Script⦄ where
  -- A promise was called before it was handed over.
  abbrev pub begin_work : Option ℕ → LiveTable → LiveTable
  begin_work none t = t
  begin_work (some work) t = script.begin work t

  -- `#fillCell` as far as its first wait: a function waits for a slot, a promise runs already. The
  -- work is called before it takes the slot that it found.
  unfoldable pub fill_cell : ℕ → ℕ → ℕ → Option ℕ → LiveTable → LiveTable
  fill_cell row column revision work t =
      let begun = if has_slot t then begin_work work t else t in
      record begun { running = begun.running ++ new_task row column revision work t ∷ [] }

  -- The work is taken out of the cell that starts.
  unfoldable pub start_work : ℕ → ℕ → LiveCell → Option ℕ → LiveTable → LiveTable
  unfolding set_cell clear_failure fill_cell
  start_work row column cell none t = t
  start_work row column cell (some work) t =
      fill_cell row column cell.revision (some work)
        (clear_failure row column (set_cell row column (record cell { work = none }) t))

  unfoldable pub start_cell : ℕ → ℕ → LiveTable → LiveTable
  unfolding cell_at start_work
  start_cell row column t = elim (cell_at t row column) [
    | none ↦ t
    | some cell ↦ start_work row column cell cell.work t
  ]

  -- A waiting fill looks again for a slot, and calls its work before it takes it.
  unfoldable pub admit : ℕ → ℕ → ℕ → LiveTable → LiveTable
  admit row column revision t = elim (find? (waits row column revision) t.running) [
    | none ↦ t
    | some task ↦
        if has_slot t
        then (let begun = begin_work task.work t in
            record begun { running = admit_first (waits row column revision) begun.running })
        else t
  ]

  abbrev pub start_all : List CellRef → LiveTable → LiveTable
  start_all [] t = t
  start_all (ref ∷ refs) t = start_all refs (start_cell ref.row ref.column t)

  -- A failed cell is started where the canvas asks for a retry.
  unfoldable pub pull_cells : List CellRef → LiveTable → LiveTable × Bool
  unfolding start_cell cell_status
  pull_cells refs t =
      if t.held
      then (
        start_all
            (filter (λ (ref : CellRef). ref.retry || not (has_failed t ref.row ref.column)) refs) t,
        true,
      )
      else (t, false)
