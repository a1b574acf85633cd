-- ===== src/Live/Scripts.antt =====
-- ui/src/kaja.ts: what the functions of a script write to their cell's table before their first wait.
-- The functions stand for code of the user: what each writes is a parameter.
use kaja.Prelude.{ℕ, zero, suc, String, Option, List, [], ◌∷◌}
use kaja.Live.{Script, silent, LiveTable}
use kaja.Live.Rows.{CellInput, push_row, update_row, add_column, set_total}

-- What a script writes through the handles of a table.
pub data Write : Type 0 where
  row : List CellInput → Write
  update : ℕ → List CellInput → Write
  column : String → Write
  total : Option ℕ → Write

module _ ⦃script : Script⦄ where
  unfoldable pub run_write : Write → LiveTable → LiveTable
  unfolding push_row update_row add_column set_total
  run_write (Write.row cells) t = push_row cells t
  run_write (Write.update index cells) t = update_row index cells t
  run_write (Write.column name) t = add_column name t
  run_write (Write.total count) t = set_total count t

  unfoldable pub run_writes : List Write → LiveTable → LiveTable
  unfolding run_write
  run_writes [] t = t
  run_writes (write ∷ writes) t = run_writes writes (run_write write t)

-- A script whose functions write to their cell's table at once: those that one of them starts by
-- writing write in turn, as deep as `depth`.
unfoldable pub script_of : (ℕ → LiveTable → List Write) → ℕ → Script
unfolding run_writes
script_of writes zero = silent
script_of writes (suc depth) = record {
  begin = λ work t. run_writes ⦃script = script_of writes depth⦄ (writes work t) t;
}
