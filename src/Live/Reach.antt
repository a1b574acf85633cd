-- ===== src/Live/Reach.antt =====
-- ui/src/kaja.ts: what the script, the canvas, the source and the work of the cells do to a table,
-- in any order.
use kaja.Prelude.{ℕ, String, false, Option, List, [], ◌∷◌}
use kaja.Live
use kaja.Live.Cells
use kaja.Live.Rows
use kaja.Live.Pulls
use kaja.Live.{LiveTable, Script, CellRef, Outcome}
use kaja.Live.Rows.{CellInput}
use kaja.Live.Pulls.{Answer}

-- `let_go` is a table's leaving the live tables, as newer ones come.
pub data TableOperation : Type 0 where
  push_row : List CellInput → TableOperation
  update_row : ℕ → List CellInput → TableOperation
  add_column : String → TableOperation
  set_total : Option ℕ → TableOperation
  pull_cells : List CellRef → TableOperation
  pull_table : String → ℕ → Option String → TableOperation
  answer : ℕ → Answer → TableOperation
  admit : ℕ → ℕ → ℕ → TableOperation
  land : ℕ → ℕ → ℕ → Outcome → TableOperation
  let_go : TableOperation

abbrev pub release : LiveTable → LiveTable
release t = record t { held = false }

module _ ⦃script : Script⦄ where
  unfoldable pub perform : TableOperation → LiveTable → LiveTable
  unfolding Rows.push_row Rows.update_row Rows.add_column Rows.set_total Cells.pull_cells
      Pulls.pull_table Pulls.answer Cells.admit Live.land
  perform (TableOperation.push_row cells) t = Rows.push_row cells t
  perform (TableOperation.update_row index cells) t = Rows.update_row index cells t
  perform (TableOperation.add_column name) t = Rows.add_column name t
  perform (TableOperation.set_total count) t = Rows.set_total count t
  perform (TableOperation.pull_cells refs) t = (Cells.pull_cells refs t).0
  perform (TableOperation.pull_table search want opening) t =
      (Pulls.pull_table search want opening t).0
  perform (TableOperation.answer id given) t = Pulls.answer id given t
  perform (TableOperation.admit row column revision) t = Cells.admit row column revision t
  perform (TableOperation.land row column revision outcome) t =
      Live.land row column revision outcome t
  perform TableOperation.let_go t = release t

  unfoldable pub perform_all : List TableOperation → LiveTable → LiveTable
  unfolding perform
  perform_all [] t = t
  perform_all (op ∷ ops) t = perform_all ops (perform op t)
