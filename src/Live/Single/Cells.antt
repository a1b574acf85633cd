-- ===== src/Live/Single/Cells.antt =====
-- ui/src/kaja.ts: the steps on the cells of a table, which leave its pulls alone.
use kaja.Prelude.{
  ℕ, ap, ◌≡◌, refl, ◌∙◌, String, Option, none, some, List, arith, find?, is_some, Option-cases, inl,
  inr,
}
use kaja.Block.{CellStatus}
use kaja.Live.{
  Script, LiveTable, Task, Outcome, CellRef, set_cell, write_cell, reopen, settle, land,
}
use kaja.Live.Cells.{pull_cells, admit}
use kaja.Live.Rows.{CellInput, stamp_row, declare_row, push_row, update_row}
use kaja.Live.Steps.{
  Sheet, IsSteady, IsBegun, IsWriter, declare_row-steady, push_row-steady, update_row-steady,
  pull_cells-steady, admit-steady,
}
use kaja.Live.Attended.Effects.{flies}
use kaja.Live.Attended.Landing.{without_task}
use kaja.Live.Single.{Flight, flight}

-- The pulls are as they were.
flight-IsSteady : (s : Flight) → IsSteady (λ u. flight u ≡ s)
unfolding stamp_row
flight-IsSteady s = record { same = λ t u e h. ap Sheet.flight_of e ∙ h; stamp = λ index t h. h }

module _ ⦃script : Script⦄ (writer : IsWriter script) where
  begun-flight : (s : Flight) → IsBegun script (λ u. flight u ≡ s)
  begun-flight s = writer (λ u. flight u ≡ s) (flight-IsSteady s)

  pub declare_row-flight :
      (index : ℕ) (cells : List CellInput) (t : LiveTable)
      → flight (declare_row index cells t) ≡ flight t
  declare_row-flight index cells t =
      declare_row-steady (λ u. flight u ≡ flight t) (flight-IsSteady (flight t))
        (begun-flight (flight t)) index cells t refl

  pub push_row-flight :
      (cells : List CellInput) (t : LiveTable) → flight (push_row cells t) ≡ flight t
  push_row-flight cells t =
      push_row-steady (λ u. flight u ≡ flight t) (flight-IsSteady (flight t))
        (begun-flight (flight t)) cells t refl

  pub update_row-flight :
      (index : ℕ) (cells : List CellInput) (t : LiveTable)
      → flight (update_row index cells t) ≡ flight t
  update_row-flight index cells t =
      update_row-steady (λ u. flight u ≡ flight t) (flight-IsSteady (flight t))
        (begun-flight (flight t)) index cells t refl

  pub pull_cells-flight :
      (refs : List CellRef) (t : LiveTable) → flight (pull_cells refs t).0 ≡ flight t
  pull_cells-flight refs t =
      pull_cells-steady (λ u. flight u ≡ flight t) (flight-IsSteady (flight t))
        (begun-flight (flight t)) refs t refl

  pub admit-flight :
      (row column revision : ℕ) (t : LiveTable) → flight (admit row column revision t) ≡ flight t
  admit-flight row column revision t =
      admit-steady (λ u. flight u ≡ flight t) (flight-IsSteady (flight t)) (begun-flight (flight t))
        row column revision t refl

write_cell-flight :
    (row column revision : ℕ) (text : Option String) (status : Option CellStatus) (t : LiveTable)
    → flight (write_cell row column revision text status t) ≡ flight t
unfolding write_cell
write_cell-flight row column revision text status t = ground arith

reopen-flight :
    (row column revision : ℕ) (work : Option ℕ) (t : LiveTable)
    → flight (reopen row column revision work t) ≡ flight t
unfolding reopen set_cell
reopen-flight row column revision none t = refl
reopen-flight row column revision (some work) t = ground arith

settle-flight :
    (task : Task) (outcome : Outcome) (t : LiveTable) → flight (settle task outcome t) ≡ flight t
unfolding settle
settle-flight task (Outcome.landed text) t =
    write_cell-flight task.row task.column task.revision (some text) none t
settle-flight task (Outcome.failed message) t =
    write_cell-flight task.row task.column task.revision none
      (some (record { error = some message; retry = is_some task.work }))
      (reopen task.row task.column task.revision task.work t)
    ∙ reopen-flight task.row task.column task.revision task.work t

pub land-flight :
    (row column revision : ℕ) (outcome : Outcome) (t : LiveTable)
    → flight (land row column revision outcome t) ≡ flight t
unfolding land
land-flight row column revision outcome t =
    elim (Option-cases (find? (flies row column revision) t.running)) [
      | inl gone ↦ rw (gone, land) refl
      | inr (task, found) ↦
          rw (found, land) (settle-flight task outcome (without_task row column revision t))
    ]
