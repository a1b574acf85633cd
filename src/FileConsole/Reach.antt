-- ===== src/FileConsole/Reach.antt =====
-- ui/src/consoles.ts: the states of a file's console that runs and the store lead to.
use kaja.Prelude.{
  ℕ, refl, String, Bool, true, false, not, Option, none, some, List, [], ◌∷◌, ◌++◌, length, any,
  filter, map, is_nil, arith, Bool-cases, Option-cases, inl, inr, find_index?, length-map, ◌==◌,
}
use kaja.Prelude.Dict
use kaja.Call.{MethodCall}
use kaja.Block.{Block}
use kaja.Run.{Run, Log, LogLevel, ConsoleItem}
use kaja.Group.Bounds.{new_group-IsSound}
use kaja.FileConsole.{FileConsole, empty}
use kaja.FileConsole.Record
use kaja.FileConsole.Runs
use kaja.FileConsole.Record.{after_append, call_item}
use kaja.FileConsole.Runs.{
  trim_runs, Stored, adopt_runs, adopt_items, new_groups, insert_all, is_known,
}
use kaja.FileConsole.Queue.{empty-IsQueue}
use kaja.FileConsole.Keeps.{
  Keeps-trans, AreSound-append, append_item-Keeps, known_call-Keeps, known_block-Keeps,
  set_runs-Keeps, settle_at-Keeps, adopt_items-Keeps, new_groups-AreSound,
}
use kaja.FileConsole.Bounds.{
  IsBounded, Keeps-IsBounded, Keeps-IsQueue, hold-IsBounded, trim_runs-IsBounded,
}

-- What a run and the store do to the console of a file.
pub data FileOperation : Type 0 where
  start_run : Run → FileOperation
  record_call : String → String → MethodCall → FileOperation
  record_block : String → String → Block → ℕ → FileOperation
  record_logs : String → String → List Log → ℕ → FileOperation
  record_printed : String → String → LogLevel → String → ℕ → FileOperation
  settle_run : String → ℕ → FileOperation
  adopt : Option Stored → FileOperation
  clear : ℕ → FileOperation
  rename : String → FileOperation

unfoldable pub perform : FileOperation → FileConsole → FileConsole
perform (FileOperation.start_run run) = Runs.start_run run
perform (FileOperation.record_call fresh run_id call) = Record.record_call fresh run_id call
perform (FileOperation.record_block run_id id block now) = Record.record_block run_id id block now
perform (FileOperation.record_logs fresh run_id logs now) = Record.record_logs fresh run_id logs now
perform (FileOperation.record_printed fresh run_id level message now) =
    Record.record_printed fresh run_id level message now
perform (FileOperation.settle_run run_id duration_ms) =
    λ c. (Runs.settle_run run_id duration_ms c).0
perform (FileOperation.adopt stored) = Runs.adopt stored
perform (FileOperation.clear now) = Runs.clear now
perform (FileOperation.rename file_id) = Runs.rename file_id

unfoldable pub perform_all : List FileOperation → FileConsole → FileConsole
perform_all [] c = c
perform_all (op ∷ ops) c = perform_all ops (perform op c)

module _ (c : FileConsole) (h : IsBounded c) where
  start_run-IsBounded : (run : Run) → IsBounded (Runs.start_run run c)
  unfolding Runs.start_run
  start_run-IsBounded run = trim_runs-IsBounded _ (record {
    queue = record { head = h.queue.head; bounded = h.queue.bounded; cut = h.queue.cut };
    groups = AreSound-append c.group_heap _ h.groups (new_group-IsSound _);
  })

  after_append-IsBounded :
      (call_id : String) (ref : ℕ) (result : FileConsole × Bool)
      → IsBounded result.0
      → IsBounded (after_append call_id ref result)
  after_append-IsBounded call_id ref (d, true) k = hold-IsBounded ref _ (record {
    runs = k.runs;
    queue = record { head = k.queue.head; bounded = k.queue.bounded; cut = k.queue.cut };
    groups = k.groups;
  })
  after_append-IsBounded call_id ref (d, false) k = record {
    runs = k.runs;
    queue = record { head = k.queue.head; bounded = k.queue.bounded; cut = k.queue.cut };
    groups = k.groups;
  }

  record_call-IsBounded :
      (fresh run_id : String) (call : MethodCall)
      → IsBounded (Record.record_call fresh run_id call c)
  unfolding Record.record_call
  record_call-IsBounded fresh run_id call = elim (Option-cases (Dict.lookup call.id c.by_call)) [
    | inr (ref, here) ↦
        rw (here, Record.record_call) (Keeps-IsBounded c _ (known_call-Keeps ref call c) h)
    | inl new_one ↦ elim (Bool-cases (any (λ id. id == call.id) c.ignored)) [
      | inl skip ↦ rw (new_one, Record.record_call) (rw skip h)
      | inr issue ↦
          rw (new_one, Record.record_call)
            (rw issue (
              after_append-IsBounded call.id (length c.item_heap) _
                (Keeps-IsBounded c _ (append_item-Keeps run_id (call_item fresh run_id call) c) h)))
    ]
  ]

  record_block-IsBounded :
      (run_id id : String) (block : Block) (now : ℕ)
      → IsBounded (Record.record_block run_id id block now c)
  unfolding Record.record_block
  record_block-IsBounded run_id id block now = elim (Option-cases (Dict.lookup id c.by_item)) [
    | inr (place, here) ↦
        rw (here, Record.record_block) (Keeps-IsBounded c _ (known_block-Keeps place block c) h)
    | inl new_one ↦
        rw (new_one, Record.record_block) (Keeps-IsBounded c _ (append_item-Keeps run_id _ c) h)
  ]

  settle_run-IsBounded :
      (run_id : String) (duration_ms : ℕ) → IsBounded (Runs.settle_run run_id duration_ms c).0
  unfolding Runs.settle_run
  settle_run-IsBounded run_id duration_ms =
      elim (Option-cases (find_index? (λ (run : Run). run.id == run_id) c.runs)) [
        | inl gone ↦ rw (gone, Runs.settle_run) h
        | inr (index, here) ↦
            rw (here, Runs.settle_run)
              (Keeps-IsBounded c _ (settle_at-Keeps index duration_ms run_id c) h)
      ]

  clear-IsBounded : (now : ℕ) → IsBounded (Runs.clear now c)
  unfolding Runs.clear
  clear-IsBounded now = record {
    runs = omega arith;
    queue = record { head = omega arith; bounded = omega arith; cut = omega arith };
    groups = h.groups;
  }

  rename-IsBounded : (file_id : String) → IsBounded (Runs.rename file_id c)
  unfolding Runs.rename
  rename-IsBounded file_id =
      let runs = map (λ (run : Run). record run { file_id = some file_id }) c.runs in
      Keeps-IsBounded c _
        (Keeps-trans c (record c { runs = runs }) _
          (record { runs = length-map _ c.runs; holding = refl; held = refl; groups = λ k. k })
          (set_runs-Keeps runs _))
        h

  adopt_runs-IsBounded :
      (older : List Run) (items : List ConsoleItem)
      → IsBounded (adopt_runs older items (record c { loaded = true }))
  adopt_runs-IsBounded older items =
      let made = new_groups older c.group_heap [] in
      let start : FileConsole = record c {
        loaded = true;
        group_heap = made.0;
        runs = older ++ c.runs;
        groups = insert_all made.1 c.groups;
      } in
      let kept = adopt_items-Keeps made.1 items start in
      trim_runs-IsBounded (adopt_items made.1 items start) (record {
        queue =
            Keeps-IsQueue start _ kept
              (record { head = h.queue.head; bounded = h.queue.bounded; cut = h.queue.cut });
        groups = kept.groups (new_groups-AreSound older c.group_heap [] h.groups);
      })

  loaded-IsBounded : IsBounded (record c { loaded = true })
  loaded-IsBounded = record {
    runs = h.runs;
    queue = record { head = h.queue.head; bounded = h.queue.bounded; cut = h.queue.cut };
    groups = h.groups;
  }

  adopt-IsBounded : (stored : Option Stored) → IsBounded (Runs.adopt stored c)
  unfolding Runs.adopt
  adopt-IsBounded none = loaded-IsBounded
  adopt-IsBounded (some stored) =
      elim (Bool-cases (is_nil (filter (λ run. not (is_known c run)) stored.runs))) [
        | inl all_known ↦ rw all_known loaded-IsBounded
        | inr more ↦
            rw more
              (adopt_runs-IsBounded (filter (λ run. not (is_known c run)) stored.runs) stored.items)
      ]

perform-IsBounded : (op : FileOperation) (c : FileConsole) → IsBounded c → IsBounded (perform op c)
unfolding perform Record.record_logs Record.record_printed
perform-IsBounded (FileOperation.start_run run) c h = start_run-IsBounded c h run
perform-IsBounded (FileOperation.record_call fresh run_id call) c h =
    record_call-IsBounded c h fresh run_id call
perform-IsBounded (FileOperation.record_block run_id id block now) c h =
    record_block-IsBounded c h run_id id block now
perform-IsBounded (FileOperation.record_logs fresh run_id logs now) c h =
    Keeps-IsBounded c _ (append_item-Keeps run_id _ c) h
perform-IsBounded (FileOperation.record_printed fresh run_id level message now) c h =
    Keeps-IsBounded c _ (append_item-Keeps run_id _ c) h
perform-IsBounded (FileOperation.settle_run run_id duration_ms) c h =
    settle_run-IsBounded c h run_id duration_ms
perform-IsBounded (FileOperation.adopt stored) c h = adopt-IsBounded c h stored
perform-IsBounded (FileOperation.clear now) c h = clear-IsBounded c h now
perform-IsBounded (FileOperation.rename file_id) c h = rename-IsBounded c h file_id

perform_all-keeps :
    (ops : List FileOperation) (c : FileConsole) → IsBounded c → IsBounded (perform_all ops c)
unfolding perform_all
perform_all-keeps [] c h = h
perform_all-keeps (op ∷ ops) c h = perform_all-keeps ops (perform op c) (perform-IsBounded op c h)

empty-IsBounded : IsBounded empty
unfolding empty
empty-IsBounded = record { runs = omega arith; queue = empty-IsQueue; groups = tt }

-- Whatever runs start, report and settle, and whatever the store brings back, in any order: the
-- console of a file keeps at most 25 runs, its queue of payloads is well formed with at most 500
-- of them, and every run's log has at most 20,000 items and marks that do not pass its counter.
pub perform_all-IsBounded : (ops : List FileOperation) → IsBounded (perform_all ops empty)
perform_all-IsBounded ops = perform_all-keeps ops empty empty-IsBounded
