-- ===== src/Consoles/Recency.antt =====
-- ui/src/consoles.ts: sequences of operations on the consoles, and the most recent file.
use kaja.Prelude.{
  ℕ, suc, ◌≤◌, ◌≡◌, ◌≢◌, refl, ap, String, true, Option, some, List, [], ◌∷◌, length, last?, arith,
}
use kaja.Prelude.Dict
use kaja.Prelude.Dict.{Dict}
use kaja.Call.{MethodCall}
use kaja.Block.{Block}
use kaja.Run.{Run, Log, LogLevel, ConsoleTab, ConsoleView, LogFloor, RunSelection}
use kaja.FileConsole.{FileConsole}
use kaja.FileConsole.Runs
use kaja.FileConsole.Runs.{Stored}
use kaja.Consoles.{Consoles, empty, write, evict, touch, flags_changed, frame_due as run_frame}
use kaja.Consoles.Writes
use kaja.Consoles.Writes.{for_file, flags_changed_if}
use kaja.Consoles.Files
use kaja.Consoles.Files.{choose, forget_mru, same_selection, same_tab, same_view, same_floor}
use kaja.Consoles.Order.{
  IsRecent, SameKeys-trans, touch-SameKeys, flags_changed-SameKeys, length-evict,
}
use kaja.Consoles.Steps.{
  start_run-Front, perform_start, perform_record_call, perform_record_block, perform_logs,
  perform_printed, perform_settle, perform_selection, perform_tab, perform_view, perform_floor,
  perform_adopt, perform_clear, perform_put, perform_take, perform_frame,
}

-- What the window and the running scripts do to the consoles, the renaming of a file left out.
pub data Operation : Type 0 where
  start_run : Run → ℕ → Operation
  record_call : Option String → String → String → MethodCall → ℕ → Operation
  record_block : Option String → String → String → Block → ℕ → Operation
  record_logs : Option String → String → String → List Log → ℕ → Operation
  record_printed : Option String → String → String → LogLevel → String → ℕ → Operation
  settle_run : Option String → String → ℕ → ℕ → Operation
  adopt_stored_runs : String → Option Stored → ℕ → Operation
  set_selection : Option String → Option RunSelection → ℕ → Operation
  set_tab : Option String → ConsoleTab → ℕ → Operation
  set_view : Option String → ConsoleView → ℕ → Operation
  set_log_floor : Option String → LogFloor → ℕ → Operation
  clear_file : String → ℕ → Operation
  take_file : String → Operation
  put_file : String → FileConsole → Operation
  drop_file : String → Operation
  frame_due : Operation

unfoldable pub perform : Operation → Consoles → Consoles
perform (Operation.start_run run now) = Writes.start_run run now
perform (Operation.record_call f fresh r call now) = Writes.record_call f fresh r call now
perform (Operation.record_block f r b block now) = Writes.record_block f r b block now
perform (Operation.record_logs f fresh r logs now) = Writes.record_logs f fresh r logs now
perform (Operation.record_printed f fresh r level m now) =
    Writes.record_printed f fresh r level m now
perform (Operation.settle_run f r d now) = Writes.settle_run f r d now
perform (Operation.adopt_stored_runs id stored now) = Files.adopt_stored_runs id stored now
perform (Operation.set_selection f selection now) = Files.set_selection f selection now
perform (Operation.set_tab f tab now) = Files.set_tab f tab now
perform (Operation.set_view f view now) = Files.set_view f view now
perform (Operation.set_log_floor f floor now) = Files.set_log_floor f floor now
perform (Operation.clear_file id now) = Files.clear_file id now
perform (Operation.take_file id) = λ s. (Files.take_file id s).1
perform (Operation.put_file id c) = Files.put_file id c
perform (Operation.drop_file id) = Files.drop_file id
perform Operation.frame_due = run_frame

unfoldable pub perform_all : List Operation → Consoles → Consoles
perform_all [] s = s
perform_all (op ∷ ops) s = perform_all ops (perform op s)

perform-IsRecent : (op : Operation) (s : Consoles) → IsRecent s → IsRecent (perform op s)
unfolding perform Files.drop_file
perform-IsRecent (Operation.start_run run now) s r = perform_start s r run now
perform-IsRecent (Operation.record_call f fresh run_id call now) s r =
    perform_record_call s r f fresh run_id call now
perform-IsRecent (Operation.record_block f run_id id block now) s r =
    perform_record_block s r f run_id id block now
perform-IsRecent (Operation.record_logs f fresh run_id logs now) s r =
    perform_logs s r f fresh run_id logs now
perform-IsRecent (Operation.record_printed f fresh run_id level m now) s r =
    perform_printed s r f fresh run_id level m now
perform-IsRecent (Operation.settle_run f run_id d now) s r = perform_settle s r f run_id d now
perform-IsRecent (Operation.adopt_stored_runs id stored now) s r = perform_adopt s r id stored now
perform-IsRecent (Operation.set_selection f selection now) s r =
    perform_selection s r f selection now
perform-IsRecent (Operation.set_tab f tab now) s r = perform_tab s r f tab now
perform-IsRecent (Operation.set_view f view now) s r = perform_view s r f view now
perform-IsRecent (Operation.set_log_floor f floor now) s r = perform_floor s r f floor now
perform-IsRecent (Operation.clear_file id now) s r = perform_clear s r id now
perform-IsRecent (Operation.take_file id) s r = perform_take s r id
perform-IsRecent (Operation.put_file id c) s r = perform_put s r id c
perform-IsRecent (Operation.drop_file id) s r = perform_take s r id
perform-IsRecent Operation.frame_due s r = perform_frame s r

perform_all-keeps :
    (ops : List Operation) (s : Consoles) → IsRecent s → IsRecent (perform_all ops s)
unfolding perform_all
perform_all-keeps [] s r = r
perform_all-keeps (op ∷ ops) s r = perform_all-keeps ops (perform op s) (perform-IsRecent op s r)

-- After any operations but renamings, the file that the consoles take for the most recent one,
-- where there is one, is in the map, and is its last.
pub perform_all-IsRecent :
    (ops : List Operation) (id : String)
    → (perform_all ops empty).mru ≡ some id
    → last? (Dict.keys (perform_all ops empty).files) ≡ some id
perform_all-IsRecent ops = perform_all-keeps ops empty (unfold empty in λ id e. cc e)

for_file-some :
    (id : String) (f : String → Consoles → Consoles) (s : Consoles)
    → id ≢ ""
    → for_file (some id) f s ≡ f id s
for_file-some String.[] f s h = absurd (h refl)
for_file-some (String.◌∷◌ c id) f s h = refl

for_file_at :
    (file_id : Option String) (id : String) (f : String → Consoles → Consoles) (s : Consoles)
    (P : Consoles → Type 0)
    → file_id ≡ some id
    → id ≢ ""
    → P (f id s)
    → P (for_file file_id f s)
for_file_at file_id id f s P e named p = rw (e, for_file-some id f s named) p

length-keys : (files : Dict FileConsole) → length (Dict.keys files) ≡ length files
length-keys [] = refl
length-keys ((k, c) ∷ files) = ap suc (length-keys files)

started_within :
    (run : Run) (now : ℕ) (id : String) (s : Consoles)
    → length (flags_changed (touch id true (evict (write id now (Runs.start_run run) s)))).files
      ≤ 50
started_within run now id s =
    let w = write id now (Runs.start_run run) s in
    let t = touch id true (evict w) in
    let k = SameKeys-trans (touch-SameKeys id true (evict w)) (flags_changed-SameKeys t) in
    omega (
      arith,
      length-evict w,
      length-keys (evict w).files,
      length-keys (flags_changed t).files,
      ap length k.keys,
    )

-- After any operations but renamings, the press of Run on a file with an identifier leaves at most
-- 50 files with a console, and the file that was run is the last of them.
pub start_run-last :
    (ops : List Operation) (run : Run) (now : ℕ) {id : String}
    → run.file_id ≡ some id
    → id ≢ ""
    → (length (Writes.start_run run now (perform_all ops empty)).files ≤ 50)
      × (last? (Dict.keys (Writes.start_run run now (perform_all ops empty)).files) ≡ some id)
unfolding Writes.start_run
start_run-last ops run now {id} e named =
    let s = perform_all ops empty in
    for_file_at run.file_id id _ s
      (λ t. (length t.files ≤ 50) × (last? (Dict.keys t.files) ≡ some id)) e named
      (started_within run now id s, (start_run-Front s (perform_all-IsRecent ops) run now id).last)
