-- ===== src/Live/Attended/Landing.antt =====
-- ui/src/kaja.ts: how a cell's work ends, as to the work behind the cells.
use kaja.Prelude.{
  ℕ, ◌≡◌, refl, String, Bool, true, false, not, ◌&&◌, Option, none, some, List, [], ◌∷◌, arith,
  nat_eq, find?, Option-cases, Bool-cases, inl, inr,
}
use kaja.Live.{
  at_rest, LiveTable, Task, Outcome, cell_at, is_task, write_cell, settle, land, remove_first,
  admit_first,
}
use kaja.Live.Cells.{admit}
use kaja.Live.Slots.{write_cell-running}
use kaja.Live.Attended.Effects.{
  flies, cell_at-reopen, write_cell-status, write_cell-cell_at, write_cell-row_revision,
  write_cell-revision, stop_cell, stop_cell-status, stop_cell-row_revision, stop_cell-revision,
  stop_cell-running, stop_cell-cell_at,
}
use kaja.Live.Attended.{current_revision, attended, is_worked_on}

worked-remove_first :
    (row column revision r c other : ℕ) (tasks : List Task)
    → (nat_eq row r && nat_eq column c && nat_eq revision other) ≡ false
    → is_worked_on r c other (remove_first (flies row column revision) tasks)
      ≡ is_worked_on r c other tasks
worked-remove_first row column revision r c other [] h = refl
worked-remove_first row column revision r c other (task ∷ tasks) h =
    ground (arith, worked-remove_first row column revision r c other tasks h)

pub find?-holds {ℓ} :
    {A : Type ℓ} (p : A → Bool) (xs : List A) (x : A) → find? p xs ≡ some x → p x ≡ true
find?-holds p [] x h = cc
find?-holds p (y ∷ xs) x h = elim (Bool-cases (p y)) [
  | inl holds ↦ ground (arith, holds, h)
  | inr fails ↦ find?-holds p xs x (ground (arith, fails, h))
]

idle-remove_first :
    (row column revision r c other : ℕ) (tasks : List Task)
    → is_worked_on r c other tasks ≡ false
    → is_worked_on r c other (remove_first (flies row column revision) tasks) ≡ false
idle-remove_first row column revision r c other [] h = refl
idle-remove_first row column revision r c other (task ∷ tasks) h =
    ground (arith, idle-remove_first row column revision r c other tasks)

worked-find? :
    (row column revision : ℕ) (tasks : List Task) (task : Task)
    → find? (flies row column revision) tasks ≡ some task
    → is_worked_on row column revision tasks ≡ true
worked-find? row column revision [] task h = cc
worked-find? row column revision (first ∷ tasks) task h =
    ground (arith, worked-find? row column revision tasks task)

-- A table like `t` but for the task that is over.
abbrev pub without_task : ℕ → ℕ → ℕ → LiveTable → LiveTable
without_task row column revision t = record t {
  running = remove_first (flies row column revision) t.running;
}

-- The revision of the cell at a place, or of its row where it has none.
abbrev revision_at : LiveTable → ℕ → ℕ → ℕ
revision_at t row column = elim (cell_at t row column) [
  | none ↦ current_revision t row
  | some cell ↦ cell.revision
]

module _ (row column revision : ℕ) (t : LiveTable) (r c : ℕ) where
  landed-attended :
      (text : String)
      → attended t r c ≡ true
      → attended
          (write_cell row column revision (some text) none (without_task row column revision t))
          r
          c
        ≡ true
  unfolding attended
  landed-attended text h =
      let left = without_task row column revision t in
      let lasting = revision_at t r c in
      elim (Bool-cases (nat_eq row r && nat_eq column c && nat_eq revision lasting)) [
        | inl same ↦ ground (
          arith,
          same,
          write_cell-status row column revision left r c (some text) none,
          write_cell-cell_at row column revision left r c (some text) none,
          write_cell-row_revision row column revision left r c (some text) none,
          write_cell-revision row column revision left r c (some text) none,
          write_cell-running row column revision (some text) none left,
          idle-remove_first row column revision r c lasting t.running,
        )
        | inr distinct ↦ ground (
          arith,
          distinct,
          write_cell-status row column revision left r c (some text) none,
          write_cell-cell_at row column revision left r c (some text) none,
          write_cell-row_revision row column revision left r c (some text) none,
          write_cell-revision row column revision left r c (some text) none,
          write_cell-running row column revision (some text) none left,
          worked-remove_first row column revision r c lasting t.running distinct,
        )
      ]

  module _ (message : String) (work : Option ℕ) where
    stop_cell-attended :
        is_worked_on row column revision t.running ≡ true
        → attended t r c ≡ true
        → attended
            (stop_cell row column revision message work (without_task row column revision t))
            r
            c
          ≡ true
    unfolding attended
    stop_cell-attended worked h =
        let left = without_task row column revision t in
        let lasting = revision_at t r c in
        elim (Bool-cases (nat_eq row r && nat_eq column c && nat_eq revision lasting)) [
          | inl same ↦ ground (
            arith,
            same,
            worked,
            cell_at-reopen row column revision left r c work,
            idle-remove_first row column revision r c lasting t.running,
            stop_cell-status row column revision message work left r c,
            stop_cell-row_revision row column revision message work left r c,
            stop_cell-revision row column revision message work left r c,
            stop_cell-running row column revision message work left r c,
            stop_cell-cell_at row column revision message work left r c,
          )
          | inr distinct ↦ ground (
            arith,
            distinct,
            cell_at-reopen row column revision left r c work,
            worked-remove_first row column revision r c lasting t.running distinct,
            stop_cell-status row column revision message work left r c,
            stop_cell-row_revision row column revision message work left r c,
            stop_cell-revision row column revision message work left r c,
            stop_cell-running row column revision message work left r c,
            stop_cell-cell_at row column revision message work left r c,
          )
        ]

settle-attended :
    (task : Task) (row column revision : ℕ) (outcome : Outcome) (t : LiveTable) (r c : ℕ)
    → task.row ≡ row
    → task.column ≡ column
    → task.revision ≡ revision
    → is_worked_on row column revision t.running ≡ true
    → attended t r c ≡ true
    → attended (settle task outcome (without_task row column revision t)) r c ≡ true
unfolding settle
settle-attended task row column revision (Outcome.landed text) t r c e e' e'' worked h =
    rw (e, settle) (rw e' (rw e'' (landed-attended row column revision t r c text h)))
settle-attended task row column revision (Outcome.failed message) t r c e e' e'' worked h =
    rw (e, settle)
      (rw e' (rw e'' (stop_cell-attended row column revision t r c message task.work worked h)))

module _ (row column revision : ℕ) (outcome : Outcome) (t : LiveTable) (r c : ℕ) where
  -- The work of a cell leaves no cell that waits without work, however it ends.
  pub land-attended :
      attended t r c ≡ true → attended (land row column revision outcome t) r c ≡ true
  unfolding land
  land-attended h = elim (Option-cases (find? (flies row column revision) t.running)) [
    | inl gone ↦ rw (gone, land) h
    | inr (task, found) ↦
        (let flying = find?-holds (flies row column revision) t.running task found in
          rw (found, land)
            (settle-attended task row column revision outcome t r c (ground (arith, flying))
              (ground (arith, flying)) (ground (arith, flying))
              (worked-find? row column revision t.running task found) h))
  ]

worked-admit_first :
    (p : Task → Bool) (r c other : ℕ) (tasks : List Task)
    → is_worked_on r c other (admit_first p tasks) ≡ is_worked_on r c other tasks
worked-admit_first p r c other [] = refl
worked-admit_first p r c other (task ∷ tasks) = ground (arith, worked-admit_first p r c other tasks)

pub admit-attended :
    (row column revision : ℕ) (t : LiveTable) (r c : ℕ)
    → attended t r c ≡ true
    → attended (admit row column revision t) r c ≡ true
unfolding admit attended
admit-attended row column revision t r c h = ground (
  arith,
  worked-admit_first (λ task. is_task row column revision task && not task.flying) r c
      (revision_at t r c) t.running,
)
