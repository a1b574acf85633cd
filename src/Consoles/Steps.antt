-- ===== src/Consoles/Steps.antt =====
-- ui/src/consoles.ts: what each operation on the consoles does to the order of the files.
use kaja.Prelude.{
  ℕ, ◌≡◌, refl, ap, sym, ◌∙◌, String, Bool, true, false, Option, none, some, List, last?, arith,
  Option-cases, Bool-cases, inl, inr, if◌then◌else◌, ◌==◌,
}
use kaja.Prelude.Dict
use kaja.Prelude.Dict.{Dict}
use kaja.Prelude.Dict.Keys.{last?-insert_new, has-remove, last?-remove}
use kaja.Call.{MethodCall}
use kaja.Block.{Block}
use kaja.Run.{Run, Log, LogLevel, ConsoleTab, ConsoleView, LogFloor, RunSelection}
use kaja.FileConsole.{FileConsole}
use kaja.FileConsole.Record
use kaja.FileConsole.Runs
use kaja.FileConsole.Runs.{Stored}
use kaja.Consoles.{
  Consoles, store, write, evict, touch, flags_changed, maybe_quiet, frame_due as run_frame,
}
use kaja.Consoles.Writes
use kaja.Consoles.Writes.{for_file, flags_changed_if}
use kaja.Consoles.Files
use kaja.Consoles.Files.{choose, forget_mru, same_selection, same_tab, same_view, same_floor}
use kaja.Consoles.Order.{
  Front, IsRecent, IsRecent-Front, SameKeys, SameKeys-trans, Front-SameKeys, ensure-Front,
  store-SameKeys, touch-SameKeys, flags_changed-SameKeys, maybe_quiet-SameKeys, paint-SameKeys,
  evict-Front, write-Front,
}

IsRecent-SameKeys : (s t : Consoles) → SameKeys s t → IsRecent s → IsRecent t
IsRecent-SameKeys s t k h id e = ap last? k.keys ∙ h id (sym k.mru ∙ e)

for_file-IsRecent :
    (file_id : Option String) (f : String → Consoles → Consoles) (s : Consoles)
    → ((id : String) → IsRecent (f id s))
    → IsRecent s
    → IsRecent (for_file file_id f s)
for_file-IsRecent none f s h r = r
for_file-IsRecent (some String.[]) f s h r = r
for_file-IsRecent (some (String.◌∷◌ c id)) f s h r = h (String.◌∷◌ c id)

-- A write, and what is told about it.
touch-Front : {id : String} {s : Consoles} (now : Bool) → Front id s → Front id (touch id now s)
touch-Front now f = Front-SameKeys f (touch-SameKeys _ now _)

flags-Front : {id : String} {s : Consoles} → Front id s → Front id (flags_changed s)
flags-Front f = Front-SameKeys f (flags_changed-SameKeys _)

quiet-Front : {id : String} {s : Consoles} (r : String) → Front id s → Front id (maybe_quiet id r s)
quiet-Front r f = Front-SameKeys f (maybe_quiet-SameKeys _ r _)

store-Front : {id : String} {s : Consoles} (c : FileConsole) → Front id s → Front id (store id c s)
store-Front c f = Front-SameKeys f (store-SameKeys _ c _)

if-Front :
    {id : String} {s t : Consoles} (b : Bool)
    → Front id s
    → Front id t
    → Front id (if b then s else t)
if-Front true f g = f
if-Front false f g = g

flags_if-Front :
    {id : String} {s : Consoles} (b : Bool) → Front id s → Front id (flags_changed_if b s)
flags_if-Front true f = flags-Front f
flags_if-Front false f = f

module _ (s : Consoles) (r : IsRecent s) where
  pub start_run-Front :
      (run : Run) (now : ℕ) (id : String)
      → Front id (flags_changed (touch id true (evict (write id now (Runs.start_run run) s))))
  start_run-Front run now id =
      flags-Front
        (touch-Front true (evict-Front id _ (write-Front id now (Runs.start_run run) s r)))

  pub perform_start : (run : Run) (now : ℕ) → IsRecent (Writes.start_run run now s)
  unfolding Writes.start_run
  perform_start run now =
      for_file-IsRecent run.file_id _ s (λ id. IsRecent-Front id _ (start_run-Front run now id)) r

  pub perform_record_call :
      (f : Option String) (fresh run_id : String) (call : MethodCall) (now : ℕ)
      → IsRecent (Writes.record_call f fresh run_id call now s)
  unfolding Writes.record_call
  perform_record_call f fresh run_id call now =
      for_file-IsRecent f _ s
        (λ id. IsRecent-Front id _ (
          quiet-Front run_id
            (touch-Front false (write-Front id now (Record.record_call fresh run_id call) s r))))
        r

  pub perform_record_block :
      (f : Option String) (run_id block_id : String) (block : Block) (now : ℕ)
      → IsRecent (Writes.record_block f run_id block_id block now s)
  unfolding Writes.record_block
  perform_record_block f run_id block_id block now =
      for_file-IsRecent f _ s
        (λ id. IsRecent-Front id _ (
          quiet-Front run_id
            (flags_if-Front _ (touch-Front _ (store-Front _ (ensure-Front id now s r))))))
        r

  pub perform_logs :
      (f : Option String) (fresh run_id : String) (logs : List Log) (now : ℕ)
      → IsRecent (Writes.record_logs f fresh run_id logs now s)
  unfolding Writes.record_logs
  perform_logs f fresh run_id logs now =
      for_file-IsRecent f _ s
        (λ id.
          IsRecent-Front id _
            (touch-Front false (write-Front id now (Record.record_logs fresh run_id logs now) s r)))
        r

  pub perform_printed :
      (f : Option String) (fresh run_id : String) (level : LogLevel) (message : String) (now : ℕ)
      → IsRecent (Writes.record_printed f fresh run_id level message now s)
  unfolding Writes.record_printed
  perform_printed f fresh run_id level message now =
      for_file-IsRecent f _ s
        (λ id. IsRecent-Front id _ (
          touch-Front false
            (write-Front id now (Record.record_printed fresh run_id level message now) s r)))
        r

  pub perform_settle :
      (f : Option String) (run_id : String) (d now : ℕ)
      → IsRecent (Writes.settle_run f run_id d now s)
  unfolding Writes.settle_run
  perform_settle f run_id d now =
      for_file-IsRecent f _ s
        (λ id. IsRecent-Front id _ (
          if-Front _ (flags-Front (touch-Front true (store-Front _ (ensure-Front id now s r))))
            (store-Front _ (ensure-Front id now s r))))
        r

  choose-Front :
      (same : FileConsole → Bool) (change : FileConsole → FileConsole) (now : ℕ) (id : String)
      → Front id (choose same change now id s)
  unfolding choose
  choose-Front same change now id =
      if-Front _ (store-Front _ (ensure-Front id now s r))
        (touch-Front true (store-Front _ (ensure-Front id now s r)))

  pub perform_selection :
      (f : Option String) (selection : Option RunSelection) (now : ℕ)
      → IsRecent (Files.set_selection f selection now s)
  unfolding Files.set_selection
  perform_selection f selection now =
      for_file-IsRecent f _ s
        (λ id. IsRecent-Front id _ (
          choose-Front (λ c. same_selection c.selection selection)
            (λ c. record c { selection = selection }) now id))
        r

  pub perform_tab :
      (f : Option String) (tab : ConsoleTab) (now : ℕ) → IsRecent (Files.set_tab f tab now s)
  unfolding Files.set_tab
  perform_tab f tab now =
      for_file-IsRecent f _ s
        (λ id.
          IsRecent-Front id _
            (choose-Front (λ c. same_tab c.tab tab) (λ c. record c { tab = tab }) now id))
        r

  pub perform_view :
      (f : Option String) (view : ConsoleView) (now : ℕ) → IsRecent (Files.set_view f view now s)
  unfolding Files.set_view
  perform_view f view now =
      for_file-IsRecent f _ s
        (λ id.
          IsRecent-Front id _
            (choose-Front (λ c. same_view c.view view) (λ c. record c { view = some view }) now id))
        r

  pub perform_floor :
      (f : Option String) (floor : LogFloor) (now : ℕ)
      → IsRecent (Files.set_log_floor f floor now s)
  unfolding Files.set_log_floor
  perform_floor f floor now =
      for_file-IsRecent f _ s
        (λ id. IsRecent-Front id _ (
          choose-Front (λ c. same_floor c.log_floor floor) (λ c. record c { log_floor = floor }) now
            id))
        r

  pub perform_adopt :
      (id : String) (stored : Option Stored) (now : ℕ)
      → IsRecent (Files.adopt_stored_runs id stored now s)
  unfolding Files.adopt_stored_runs
  perform_adopt id stored now = IsRecent-Front id _ (
      if-Front _ (store-Front _ (ensure-Front id now s r))
        (touch-Front true (evict-Front id _ (store-Front _ (ensure-Front id now s r)))))

  pub perform_clear : (id : String) (now : ℕ) → IsRecent (Files.clear_file id now s)
  unfolding Files.clear_file
  perform_clear id now =
      IsRecent-Front id _ (flags-Front (touch-Front true (write-Front id now (Runs.clear now) s r)))

  pub perform_put : (id : String) (c : FileConsole) → IsRecent (Files.put_file id c s)
  unfolding Files.put_file
  perform_put id c = IsRecent-Front id _ (
      flags-Front (
        touch-Front true (
          evict-Front id
            (record s { files = Dict.insert id c (Dict.remove id s.files); mru = some id })
            (record {
              mru = refl;
              last = last?-insert_new id c (Dict.remove id s.files) (has-remove id s.files);
            }))))

  taken-IsRecent :
      (id : String)
      → IsRecent (record s { files = Dict.remove id s.files; mru = forget_mru id s.mru })
  taken-IsRecent id k e = keep s.mru refl e
    where
      keep :
          (mru : Option String)
          → s.mru ≡ mru
          → forget_mru id mru ≡ some k
          → last? (Dict.keys (Dict.remove id s.files)) ≡ some k
      keep none m e' = absurd (cc e')
      keep (some other) m e' = elim (Bool-cases (other == id)) [
        | inl gone ↦ absurd (ground (arith, e'))
        | inr other_file ↦
            (let same : other ≡ k = ground (arith, e') in
              last?-remove id k s.files (r k (m ∙ ap some same)) (rw (← same) other_file))
      ]

  pub perform_take : (id : String) → IsRecent (Files.take_file id s).1
  unfolding Files.take_file
  perform_take id = elim (Option-cases (Dict.lookup id s.files)) [
    | inl gone ↦ rw (gone, Files.take_file) r
    | inr (c, here) ↦
        rw (here, Files.take_file)
          (IsRecent-SameKeys
            (record s { files = Dict.remove id s.files; mru = forget_mru id s.mru }) _
            (SameKeys-trans (touch-SameKeys id true _) (flags_changed-SameKeys _))
            (taken-IsRecent id))
  ]

  pub perform_frame : IsRecent (run_frame s)
  unfolding run_frame
  perform_frame = elim (Bool-cases s.frame) [
    | inl due ↦ rw due (IsRecent-SameKeys (record s { frame = false }) _ (paint-SameKeys _) r)
    | inr idle ↦ rw idle r
  ]
