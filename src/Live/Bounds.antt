-- ===== src/Live/Bounds.antt =====
-- ui/src/kaja.ts: how many cells of a table are fetched at once.
use kaja.Prelude.{ap, ℕ, String, Option, List, arith}
use kaja.Live.{Script, silent, LiveTable}
use kaja.Live.Rows.{Source, table, new_table}
use kaja.Live.Scripts.{Write, script_of}
use kaja.Live.Pulls.{restart_source}
use kaja.Live.Reach.{TableOperation, perform_all}
use kaja.Live.Keeps.{CellState, IsKept, perform_all-kept, table-kept}
use kaja.Live.Slots.{
  IsWithin, IsRoomy, like, declare_row-IsWithin, start_cell-IsWithin, admit-IsWithin, land-IsWithin,
  script_of-IsRoomy,
}

IsWithin-IsKept : ⦃script : Script⦄ (depth : ℕ) → IsRoomy script depth → IsKept (IsWithin depth)
unfolding restart_source
IsWithin-IsKept depth roomy = record {
  same = λ t u e h. like depth t u (ap CellState.running e) h;
  declare_row = declare_row-IsWithin depth roomy;
  start_cell = start_cell-IsWithin depth roomy;
  admit = admit-IsWithin depth roomy;
  land = land-IsWithin depth;
  restart_source = λ search t h. h;
}

-- Whatever the script, the canvas, the source and the cells' work do to a table, and in whatever
-- order: at most six functions of its cells are on their way, and as many more as the depth to which
-- the functions start one another by writing to the table before their first wait. Where none
-- writes there, the depth is 0.
pub perform_all-IsWithin :
    (writes : ℕ → LiveTable → List Write) (depth : ℕ) (columns : List String) (source : Source)
    (page_size : Option ℕ) (ops : List TableOperation)
    → IsWithin depth
        (perform_all ⦃script = script_of writes depth⦄ ops (table columns source page_size))
unfolding new_table
perform_all-IsWithin writes depth columns source page_size ops =
    perform_all-kept ⦃script = script_of writes depth⦄ (IsWithin depth)
      (IsWithin-IsKept ⦃script = script_of writes depth⦄ depth (script_of-IsRoomy writes depth)) ops
      (table columns source page_size)
      (table-kept (IsWithin depth)
        (IsWithin-IsKept ⦃script = silent⦄ depth (λ work t h. omega (arith, h))) columns source
        page_size (omega arith))
