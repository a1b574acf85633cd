-- ===== src/Live/Tended.antt =====
-- ui/src/kaja.ts: the cells that wait, and the work that they wait for, in every order of events.
use kaja.Prelude.{
  sym, [], ap, ℕ, ◌≡◌, refl, true, not, String, Option, List, arith, leb, find?, ◌&&◌, Option-cases,
  inl, inr,
}
use mathlib.Core.Path.{subst}
use kaja.Live.{at_rest, Script, LiveTable, Task, Outcome, land, is_task}
use kaja.Live.Cells.{admit}
use kaja.Live.Steps.{script_of-silent}
use kaja.Live.Rows.{Source, table, new_table}
use kaja.Live.Scripts.{Write, script_of}
use kaja.Live.Pulls.{restart_source}
use kaja.Live.Reach.{TableOperation, perform_all}
use kaja.Live.Keeps.{CellState, cell_state, IsKept, perform_all-kept, table-kept}
use kaja.Live.Slots.{settle-running}
use kaja.Live.Attended.{attended, is_stamped}
use kaja.Live.Attended.Effects.{flies, settle-revision}
use kaja.Live.Attended.Starts.{start_cell-attended}
use kaja.Live.Attended.Steps.{declare_row-attended}
use kaja.Live.Attended.Stamps.{
  start_cell-is_stamped, declare_row-is_stamped, all-remove_first, all-admit_first,
}
use kaja.Live.Attended.Landing.{land-attended, admit-attended, without_task}

record IsTended (t : LiveTable) : Type 0 where
  stamped : is_stamped t ≡ true
  tended : (r c : ℕ) → attended t r c ≡ true

same-IsTended : (t u : LiveTable) → cell_state u ≡ cell_state t → IsTended t → IsTended u
unfolding attended
same-IsTended t u e h = record {
  stamped = ground (arith, ap CellState.revision e, ap CellState.running e, h.stamped);
  tended = λ r c. ground (
    arith,
    ap CellState.revision e,
    ap CellState.running e,
    ap CellState.statuses e,
    ap CellState.cells e,
    ap CellState.row_revision e,
    h.tended r c,
  );
}

land-is_stamped :
    (row column revision : ℕ) (outcome : Outcome) (t : LiveTable)
    → is_stamped t ≡ true
    → is_stamped (land row column revision outcome t) ≡ true
unfolding land
land-is_stamped row column revision outcome t h =
    elim (Option-cases (find? (flies row column revision) t.running)) [
      | inl gone ↦ rw (gone, land) h
      | inr (task, found) ↦
          (let left = without_task row column revision t in
            rw (found, land)
              (ground (
                arith,
                settle-running task outcome left,
                settle-revision task outcome left,
                all-remove_first (λ (other : Task). leb other.revision t.revision)
                    (flies row column revision) t.running h,
              )))
    ]

admit-is_stamped :
    (row column revision : ℕ) (t : LiveTable)
    → is_stamped t ≡ true
    → is_stamped (admit row column revision t) ≡ true
unfolding admit
admit-is_stamped row column revision t h = ground (
  arith,
  all-admit_first t.revision (λ task. is_task row column revision task && not task.flying) t.running
      h,
)

IsTended-IsKept : IsKept IsTended
unfolding restart_source attended
IsTended-IsKept = record {
  same = same-IsTended;
  declare_row = λ index cells t h. record {
    stamped = declare_row-is_stamped index cells t h.tended h.stamped;
    tended = λ r c. declare_row-attended index cells t r c h.stamped (h.tended r c);
  };
  start_cell = λ row column t h. record {
    stamped = start_cell-is_stamped row column t (h.tended row column) h.stamped;
    tended = λ r c. start_cell-attended row column t r c (h.tended r c);
  };
  admit = λ row column revision t h. record {
    stamped = admit-is_stamped row column revision t h.stamped;
    tended = λ r c. admit-attended row column revision t r c (h.tended r c);
  };
  land = λ row column revision outcome t h. record {
    stamped = land-is_stamped row column revision outcome t h.stamped;
    tended = λ r c. land-attended row column revision outcome t r c (h.tended r c);
  };
  restart_source = λ search t h. record { stamped = h.stamped; tended = λ r c. refl };
}

-- For a script whose functions write nothing to the table of their cell before their first wait,
-- whatever the script, the canvas, the source and the cells' work do to a table, and in whatever
-- order: a cell that waits has work that can be started or is on its way for its row as it stands,
-- a cell that stopped and offers a retry has the work to call again, and what is on its way for a
-- row as it stands has a cell to land in.
pub perform_all-attended :
    (writes : ℕ → LiveTable → List Write) (depth : ℕ) (columns : List String) (source : Source)
    (page_size : Option ℕ) (ops : List TableOperation) (row column : ℕ)
    → ((work : ℕ) (t : LiveTable) → writes work t ≡ [])
    → attended
        (perform_all ⦃script = script_of writes depth⦄ ops (table columns source page_size))
        row
        column
      ≡ true
unfolding new_table attended
perform_all-attended writes depth columns source page_size ops row column quiet =
    let drawn = table columns source page_size in
    subst
      (λ (script : Script).
        attended (perform_all ⦃script = script⦄ ops (table columns source page_size)) row column
        ≡ true)
      (sym (script_of-silent writes depth quiet))
      ((perform_all-kept IsTended IsTended-IsKept ops drawn (
          table-kept IsTended IsTended-IsKept columns source page_size
            (record { stamped = refl; tended = λ r c. refl }))).tended
        row column)
