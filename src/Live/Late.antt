-- ===== src/Live/Late.antt =====
-- ui/src/kaja.ts: answers that come when the row they were for has been written again.
use kaja.Prelude.{
  ap, ℕ, suc, ◌≤◌, ◌<◌, ◌≡◌, refl, false, Option, none, some, List, arith, find?, Option-cases, inl,
  inr, length,
}
use kaja.Prelude.NatDict.{lookup-insert}
use kaja.Live.{
  Script, LiveTable, Task, Outcome, land, settle, write_cell, reopen, is_revision, set_cell,
}
use kaja.Live.Rows.{CellInput, declare_row, stamp_row, update_row}
use kaja.Live.Scripts.{Write, script_of}
use kaja.Live.Pulls.{restart_source}
use kaja.Live.Reach.{TableOperation, perform_all}
use kaja.Live.Keeps.{CellState, IsKept, perform_all-kept}
use kaja.Live.Attended.Effects.{
  flies, settle-revision, reopen-block, reopen-row_revision, settle-row_revision,
}
use kaja.Live.Attended.Landing.{find?-holds, without_task}
use kaja.Live.Steps.{
  Sheet, IsSteady, IsBegun, IsWriter, script_of-IsWriter, start_cell-steady, declare_cells-steady,
  declare_row-steady, admit-steady,
}

module _ (row revision : ℕ) where
  -- The revision was given out, and the row has another one, or none.
  record IsSuperseded (t : LiveTable) : Type 0 where
    given_out : revision ≤ t.revision
    passed : is_revision t row revision ≡ false

  like-IsSuperseded :
      (t u : LiveTable)
      → u.revision ≡ t.revision
      → u.row_revision ≡ t.row_revision
      → IsSuperseded t
      → IsSuperseded u
  like-IsSuperseded t u e e' h = record {
    given_out = omega (arith, e, h.given_out);
    passed = rw e' h.passed;
  }

  land-IsSuperseded :
      (r c rev : ℕ) (outcome : Outcome) (t : LiveTable)
      → IsSuperseded t
      → IsSuperseded (land r c rev outcome t)
  unfolding land
  land-IsSuperseded r c rev outcome t h = elim (Option-cases (find? (flies r c rev) t.running)) [
    | inl gone ↦ rw (gone, land) h
    | inr (task, found) ↦
        (let left = without_task r c rev t in
          rw (found, land)
            (like-IsSuperseded t (settle task outcome left) (settle-revision task outcome left)
              (settle-row_revision task outcome left) h))
  ]

  IsSuperseded-IsSteady : IsSteady IsSuperseded
  unfolding stamp_row
  IsSuperseded-IsSteady = record {
    same = λ t u e h. like-IsSuperseded t u (ap Sheet.revision e) (ap Sheet.row_revision e) h;
    stamp = λ index t h. record {
      given_out = omega (arith, h.given_out);
      passed =
          ground
            (arith, h.given_out, h.passed, lookup-insert index row (suc t.revision) t.row_revision);
    };
  }

  stamp_row-IsSuperseded : (t : LiveTable) → revision ≤ t.revision → IsSuperseded (stamp_row row t)
  unfolding stamp_row
  stamp_row-IsSuperseded t h = record {
    given_out = omega (arith, h);
    passed = ground (arith, h, lookup-insert row row (suc t.revision) t.row_revision);
  }

  module _ ⦃script : Script⦄ (writer : IsWriter script) where
    begun-IsSuperseded : IsBegun script IsSuperseded
    begun-IsSuperseded = writer IsSuperseded IsSuperseded-IsSteady

    IsSuperseded-IsKept : IsKept IsSuperseded
    unfolding restart_source
    IsSuperseded-IsKept = record {
      same = λ t u e h.
          like-IsSuperseded t u (ap CellState.revision e) (ap CellState.row_revision e) h;
      declare_row = declare_row-steady IsSuperseded IsSuperseded-IsSteady begun-IsSuperseded;
      start_cell = start_cell-steady IsSuperseded IsSuperseded-IsSteady begun-IsSuperseded;
      admit = admit-steady IsSuperseded IsSuperseded-IsSteady begun-IsSuperseded;
      land = land-IsSuperseded;
      restart_source = λ search t h. record { given_out = h.given_out; passed = refl };
    }

    rewritten-IsSuperseded :
        (cells : List CellInput) (t : LiveTable)
        → revision ≤ t.revision
        → IsSuperseded (declare_row row cells t)
    unfolding declare_row
    rewritten-IsSuperseded cells t h =
        declare_cells-steady IsSuperseded IsSuperseded-IsSteady begun-IsSuperseded row 0
          (suc t.revision) cells (stamp_row row t) (stamp_row-IsSuperseded t h)

    update_row-IsSuperseded :
        (cells : List CellInput) (t : LiveTable)
        → row < length t.block.rows
        → revision ≤ t.revision
        → IsSuperseded (update_row row cells t)
    unfolding update_row
    update_row-IsSuperseded cells t there given_out =
        let declared = declare_row row cells t in
        like-IsSuperseded declared (update_row row cells t) (ground (arith, there))
          (ground (arith, there)) (rewritten-IsSuperseded cells t given_out)

pub reopen-published :
    (row column revision : ℕ) (work : Option ℕ) (t : LiveTable)
    → (reopen row column revision work t).published ≡ t.published
unfolding reopen set_cell
reopen-published row column revision none t = refl
reopen-published row column revision (some work) t = ground arith

settle_superseded :
    (task : Task) (outcome : Outcome) (t : LiveTable)
    → is_revision t task.row task.revision ≡ false
    → ((settle task outcome t).block ≡ t.block) × ((settle task outcome t).published ≡ t.published)
unfolding settle write_cell
settle_superseded task (Outcome.landed text) t h = rw (h, write_cell) (refl, refl)
settle_superseded task (Outcome.failed message) t h =
    let ready = reopen task.row task.column task.revision task.work t in
    let passed : is_revision ready task.row task.revision ≡ false =
      ground (arith, h, reopen-row_revision task.row task.column task.revision t 0 0 task.work) in
    rw (passed, write_cell)
      (
        reopen-block task.row task.column task.revision t 0 0 task.work,
        reopen-published task.row task.column task.revision task.work t,
      )

land_superseded :
    (row column revision : ℕ) (outcome : Outcome) (t : LiveTable)
    → is_revision t row revision ≡ false
    → ((land row column revision outcome t).block ≡ t.block)
      × ((land row column revision outcome t).published ≡ t.published)
unfolding land
land_superseded row column revision outcome t h =
    elim (Option-cases (find? (flies row column revision) t.running)) [
      | inl gone ↦ rw (gone, land) (refl, refl)
      | inr (task, found) ↦
          (let left = without_task row column revision t in
            let flying = find?-holds (flies row column revision) t.running task found in
            rw (found, land) (settle_superseded task outcome left (ground (arith, flying, h))))
    ]

-- Once the script has written a row again, whatever happens to the table afterwards, the writes that
-- the cells' functions make at once to any depth included: an answer to a cell that the row had
-- before changes neither the table's block nor what the canvas was handed.
pub land-update_row :
    (writes : ℕ → LiveTable → List Write) (depth : ℕ) (index : ℕ) (cells : List CellInput)
    (t : LiveTable) (column revision : ℕ) (outcome : Outcome) (ops : List TableOperation)
    → index < length t.block.rows
    → revision ≤ t.revision
    → ((land index column revision outcome (
          perform_all ⦃script = script_of writes depth⦄ ops
            (update_row ⦃script = script_of writes depth⦄ index cells t))).block
        ≡ (perform_all ⦃script = script_of writes depth⦄ ops
            (update_row ⦃script = script_of writes depth⦄ index cells t)).block)
      × ((land index column revision outcome (
            perform_all ⦃script = script_of writes depth⦄ ops
              (update_row ⦃script = script_of writes depth⦄ index cells t))).published
          ≡ (perform_all ⦃script = script_of writes depth⦄ ops
              (update_row ⦃script = script_of writes depth⦄ index cells t)).published)
unfolding update_row
land-update_row writes depth index cells t column revision outcome ops there given_out =
    let writer = script_of-IsWriter writes depth in
    let written = update_row ⦃script = script_of writes depth⦄ index cells t in
    land_superseded index column revision outcome
      (perform_all ⦃script = script_of writes depth⦄ ops written)
      (perform_all-kept ⦃script = script_of writes depth⦄ (IsSuperseded index revision)
        (IsSuperseded-IsKept index revision ⦃script = script_of writes depth⦄ writer) ops written
        (update_row-IsSuperseded index revision ⦃script = script_of writes depth⦄ writer cells t
          there given_out)).passed
