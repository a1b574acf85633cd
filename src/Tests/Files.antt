-- ===== src/Tests/Files.antt =====
-- The theorems on the consoles of files, at example files.
use kaja.Prelude.{◌≡◌, ◌≢◌, ◌≤◌, ◌<◌, refl, some, List, [], ◌∷◌, length, last?, All, String}
use kaja.Prelude.Dict
use kaja.Run.{Run}
use kaja.FileConsole
use kaja.FileConsole.{FileConsole}
use kaja.FileConsole.Record.{hold}
use kaja.FileConsole.Runs
use kaja.FileConsole.Runs.{number_of, next_run_number}
use kaja.FileConsole.Queue.{IsQueue, live, enqueue, hold_lem, empty-IsQueue}
use kaja.FileConsole.Bounds.{IsBounded}
use kaja.FileConsole.Reach
use kaja.FileConsole.Reach.{FileOperation, perform_all-IsBounded}
use kaja.FileConsole.Numbers.{start_run-numbered}
use kaja.Consoles.{Consoles, empty, write, evict, touch, paint, paint_all, flags_changed}
use kaja.Consoles.Files
use kaja.Consoles.Writes
use kaja.Consoles.Files.{rename_file}
use kaja.Consoles.Recency.{Operation, perform, perform_all, perform_all-IsRecent, start_run-last}
use kaja.Consoles.Renaming.{write-rename_file}
use kaja.Tests.{started_run, issued_call, failed_call}

hold_example :
    IsQueue (hold 7 FileConsole.empty)
    × (live (hold 7 FileConsole.empty) ≡ enqueue (live FileConsole.empty) 7)
hold_example = hold_lem 7 FileConsole.empty empty-IsQueue

start_run-numbered_example :
    (length (Runs.start_run started_run FileConsole.empty).runs ≤ 25)
    × (last? (Runs.start_run started_run FileConsole.empty).runs
        ≡ some (record started_run { number = some (next_run_number FileConsole.empty) }))
    × All
        (λ (older : Run).
          number_of older
          < number_of (record started_run { number = some (next_run_number FileConsole.empty) }))
        FileConsole.empty.runs
start_run-numbered_example = start_run-numbered started_run FileConsole.empty

-- A draft is put back, and its tab is chosen.
abbrev operations : List Operation
operations =
    Operation.put_file "users.ts" FileConsole.empty
    ∷ Operation.put_file "orders.ts" FileConsole.empty
    ∷ Operation.drop_file "users.ts"
    ∷ []

operations-mru : (perform_all operations empty).mru ≡ some "orders.ts"
unfolding perform_all perform Files.put_file Files.drop_file Files.take_file evict touch paint
    paint_all flags_changed empty
operations-mru = refl

perform_all-IsRecent_example :
    last? (Dict.keys (perform_all operations empty).files) ≡ some "orders.ts"
perform_all-IsRecent_example = perform_all-IsRecent operations "orders.ts" operations-mru

named : ◌≢◌ {A = String} "users.ts" ""
named e = cc e

start_run-last_example :
    (length (Writes.start_run started_run 1000 (perform_all operations empty)).files ≤ 50)
    × (last? (Dict.keys (Writes.start_run started_run 1000 (perform_all operations empty)).files)
        ≡ some "users.ts")
start_run-last_example = start_run-last operations started_run 1000 refl named

-- The file "orders.ts" is the most recent one.
abbrev two_files : Consoles
two_files = record empty {
  files = ("users.ts", FileConsole.empty) ∷ ("orders.ts", FileConsole.empty) ∷ [];
  mru = some "orders.ts";
}

write-rename_file_example :
    last? (
      Dict.keys
        (write "orders.ts" 1000
          (Runs.clear 1000)
          (rename_file "users.ts" "people.ts" two_files)).files)
    ≡ some "people.ts"
write-rename_file_example =
    write-rename_file two_files "users.ts" "people.ts" "orders.ts" refl refl refl refl 1000
      (Runs.clear 1000)

-- A run that makes a call, which fails, is cleared away while another one starts.
abbrev file_operations : List FileOperation
file_operations =
    FileOperation.start_run started_run
    ∷ FileOperation.record_call "i1" "r1" issued_call
    ∷ FileOperation.record_call "i1" "r1" failed_call
    ∷ FileOperation.settle_run "r1" 40
    ∷ FileOperation.clear 2000
    ∷ FileOperation.start_run (record started_run { id = "r2" })
    ∷ []

perform_all-IsBounded_example : IsBounded (Reach.perform_all file_operations FileConsole.empty)
perform_all-IsBounded_example = perform_all-IsBounded file_operations
