-- ===== src/Tests/Tables.antt =====
-- The theorems on the tables of a script, at example tables.
use kaja.Prelude.{
  nat_eq, if◌then◌else◌, ℕ, ◌≤◌, ◌≡◌, refl, String, true, false, none, some, List, [], ◌∷◌, arith,
  length,
}
use kaja.Live.{LiveTable, Outcome, land, set_cell, cell_at, clear_failure}
use kaja.Live.Cells.{start_cell, start_work, fill_cell}
use kaja.Live.Rows.{
  push_row, declare_row, declare_cells, declare_cell, await_cell, expect_cell, stamp_row, CellInput,
  Source, table, update_row, with_source, new_table,
}
use kaja.Live.Scripts.{run_writes, run_write, Write, script_of}
use kaja.Live.Pulls.{Answer, pull_table}
use kaja.Live.Reach.{TableOperation, perform_all}
use kaja.Live.Slots.{slots, IsWithin}
use kaja.Live.Bounds.{perform_all-IsWithin}
use kaja.Live.Attended.{attended}
use kaja.Live.Tended.{perform_all-attended}
use kaja.Live.Late.{land-update_row}
use kaja.Live.Single.{IsSingle, flight}
use kaja.Live.Single.Flows.{perform_all-IsSingle}
use kaja.Live.Handed.{IsHanded, perform_all-IsHanded}
use kaja.Live.Progress.{answer_rows, answer_rows-pull_table}
use kaja.Live.Registry.{open_table, get, owner}
use kaja.Live.Registry.Bounds.{Opening, open_tables, get-open_tables}

abbrev columns : List String
columns = "id" ∷ "status" ∷ []

abbrev source : Source
source = Source.opened true true

abbrev first_row : List CellInput
first_row = CellInput.value "1" ∷ CellInput.lazy 7 ∷ []

-- A page is pulled, a row comes with a cell to fetch, it fails and is asked for again, and then
-- the search changes while the second row is on its way.
abbrev operations : List TableOperation
operations =
    TableOperation.pull_table "" 2 none
    ∷ TableOperation.answer 0 (Answer.row first_row)
    ∷ TableOperation.land 0 1 1 (Outcome.failed "timed out")
    ∷ TableOperation.pull_cells (record { row = 0; column = 1; retry = true } ∷ [])
    ∷ TableOperation.pull_table "open" 2 none
    ∷ TableOperation.answer 0 Answer.done
    ∷ TableOperation.land 0 1 1 (Outcome.landed "shipped")
    ∷ []

-- A function writes nothing at once.
abbrev quiet : ℕ → LiveTable → List Write
quiet work t = []

perform_all-attended_example :
    attended (perform_all ⦃script = script_of quiet 2⦄ operations (table columns source none)) 0 1
    ≡ true
perform_all-attended_example =
    perform_all-attended quiet 2 columns source none operations 0 1 (λ work t. refl)

-- The function of the first row writes a row with a function of its own, which reports a total.
abbrev writes : ℕ → LiveTable → List Write
writes work t =
    if nat_eq work 7
    then Write.row (CellInput.value "3" ∷ CellInput.lazy 8 ∷ []) ∷ []
    else Write.total (some 3) ∷ []

perform_all-IsWithin_example :
    IsWithin 2 (perform_all ⦃script = script_of writes 2⦄ operations (table columns source none))
perform_all-IsWithin_example = perform_all-IsWithin writes 2 columns source none operations

-- A function that writes a row with itself for a cell, seven deep, is called eight times at once.
abbrev again : ℕ → LiveTable → List Write
again work t = Write.row (CellInput.lazy work ∷ []) ∷ []

abbrev crowded : LiveTable
crowded =
    push_row ⦃script = script_of again 7⦄ (CellInput.lazy 1 ∷ [])
      (table columns Source.no_rows none)

slots-crowded : slots crowded ≡ 8
unfolding push_row declare_row declare_cells declare_cell await_cell expect_cell start_cell
    start_work fill_cell clear_failure set_cell stamp_row cell_at script_of run_writes run_write
    table with_source new_table
slots-crowded = refl

-- The inner row is lost, and the second cell of the outer row is left without work for its row.
abbrev overwritten : LiveTable
overwritten =
    push_row ⦃script = script_of again 1⦄ (CellInput.lazy 1 ∷ CellInput.lazy 2 ∷ [])
      (table columns Source.no_rows none)

length-overwritten : (length overwritten.block.rows ≡ 1) × (attended overwritten 0 1 ≡ false)
unfolding push_row declare_row declare_cells declare_cell await_cell expect_cell start_cell
    start_work fill_cell clear_failure set_cell stamp_row cell_at script_of run_writes run_write
    table with_source new_table attended
length-overwritten = (refl, refl)

perform_all-IsSingle_example :
    IsSingle
      (flight (perform_all ⦃script = script_of writes 2⦄ operations (table columns source none)))
perform_all-IsSingle_example = perform_all-IsSingle writes 2 columns source none operations

perform_all-IsHanded_example :
    IsHanded (perform_all ⦃script = script_of writes 2⦄ operations (table columns source none))
perform_all-IsHanded_example = perform_all-IsHanded writes 2 columns source none operations

-- A table of one row whose second cell is on its way.
abbrev fetching : LiveTable
fetching = table columns (Source.given (first_row ∷ [])) none

fetching-rows : length fetching.block.rows ≡ 1
unfolding table
fetching-rows = refl

abbrev rewritten : LiveTable
rewritten =
    perform_all ⦃script = script_of writes 2⦄ []
      (update_row ⦃script = script_of writes 2⦄ 0 first_row fetching)

land-update_row_example :
    ((land 0 1 1 (Outcome.landed "shipped") rewritten).block ≡ rewritten.block)
    × ((land 0 1 1 (Outcome.landed "shipped") rewritten).published ≡ rewritten.published)
unfolding table
land-update_row_example =
    land-update_row writes 2 0 first_row fetching 1 1 (Outcome.landed "shipped") [] (omega arith)
      (omega arith)

abbrev drawn : LiveTable
drawn = perform_all ⦃script = script_of writes 2⦄ [] (table columns source none)

answer_rows-pull_table_example :
    ((answer_rows ⦃script = script_of writes 2⦄ drawn.next_pull
        (first_row ∷ first_row ∷ [])
        (pull_table "" 2 none drawn).0).block.loading
      ≡ false)
    × (2
        ≤ length
            (answer_rows ⦃script = script_of writes 2⦄ drawn.next_pull
              (first_row ∷ first_row ∷ [])
              (pull_table "" 2 none drawn).0).block.rows)
unfolding perform_all table with_source new_table
answer_rows-pull_table_example =
    answer_rows-pull_table writes 2 columns source none [] "" 2 (first_row ∷ first_row ∷ []) drawn
      refl refl refl refl (omega arith)

abbrev opening : Opening ℕ
opening = record { block_id = "b1"; table = 1; owner = "r1" }

get-open_tables_example :
    (length (open_table "b2" 2 "r1" (open_tables (opening ∷ []) [])) ≤ 24)
    × (get "b2" (open_table "b2" 2 "r1" (open_tables (opening ∷ []) [])) ≡ some 2)
    × (owner "b2" (open_table "b2" 2 "r1" (open_tables (opening ∷ []) [])) ≡ some "r1")
get-open_tables_example = get-open_tables (opening ∷ []) "b2" 2 "r1"
