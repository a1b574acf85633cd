-- ===== src/Consoles/Writes.antt =====
-- ui/src/consoles.ts: what a running script reports to the console of its file. A report with no
-- file is dropped.
use kaja.Prelude.{ℕ, String, Bool, true, false, not, Option, none, some, List, if◌then◌else◌}
use kaja.Call.{MethodCall}
use kaja.Block.{Block}
use kaja.Run.{Run, Log, LogLevel}
use kaja.FileConsole
use kaja.FileConsole.{FileConsole}
use kaja.FileConsole.Record
use kaja.FileConsole.Runs
use kaja.Consoles.{Consoles, ensure, store, write, evict, touch, flags_changed, maybe_quiet}

-- `if (!fileId) return`: a missing and an empty identifier are the same.
abbrev pub for_file : Option String → (String → Consoles → Consoles) → Consoles → Consoles
for_file none f s = s
for_file (some String.[]) f s = s
for_file (some (String.◌∷◌ c id)) f s = f (String.◌∷◌ c id) s

unfoldable pub start_run : Run → ℕ → Consoles → Consoles
unfolding write evict touch flags_changed
start_run run now = for_file run.file_id (λ file_id s.
    flags_changed (touch file_id true (evict (write file_id now (Runs.start_run run) s))))

unfoldable pub record_call : Option String → String → String → MethodCall → ℕ → Consoles → Consoles
unfolding write touch maybe_quiet
record_call file_id fresh run_id call now = for_file file_id (λ id s.
    maybe_quiet id run_id (touch id false (write id now (Record.record_call fresh run_id call) s)))

abbrev bool_eq : Bool → Bool → Bool
bool_eq true b = b
bool_eq false b = not b

abbrev pub flags_changed_if : Bool → Consoles → Consoles
flags_changed_if true s = flags_changed s
flags_changed_if false s = s

-- A question drawn or answered is told at once, and changes the flags.
unfoldable pub record_block : Option String → String → String → Block → ℕ → Consoles → Consoles
unfolding ensure touch maybe_quiet flags_changed
record_block file_id run_id block_id block now = for_file file_id (λ id s.
    let (c, s') = ensure id now s in
    let c' = Record.record_block run_id block_id block now c in
    let changed = not (bool_eq (FileConsole.waiting c') (FileConsole.waiting c)) in
    maybe_quiet id run_id (flags_changed_if changed (touch id changed (store id c' s'))))

unfoldable pub record_logs : Option String → String → String → List Log → ℕ → Consoles → Consoles
unfolding write touch
record_logs file_id fresh run_id logs now =
    for_file file_id
      (λ id s. touch id false (write id now (Record.record_logs fresh run_id logs now) s))

unfoldable pub record_printed :
    Option String → String → String → LogLevel → String → ℕ → Consoles → Consoles
unfolding write touch
record_printed file_id fresh run_id level message now =
    for_file file_id (λ id s.
      touch id false (write id now (Record.record_printed fresh run_id level message now) s))

-- The flag of the result is that of the file's `settleRun`; where no run settled nothing is told.
unfoldable pub settle_run : Option String → String → ℕ → ℕ → Consoles → Consoles
unfolding ensure touch flags_changed
settle_run file_id run_id duration_ms now = for_file file_id (λ id s.
    let (c, s') = ensure id now s in
    let (c', settled) = Runs.settle_run run_id duration_ms c in
    let s'' = store id c' s' in if settled then flags_changed (touch id true s'') else s'')
