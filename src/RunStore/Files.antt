-- ===== src/RunStore/Files.antt =====
-- ui/src/runStore.ts: a file's console as it is stored and read back. `size` stands for the length of
-- `JSON.stringify`, which is none where that throws.
use kaja.Prelude.{
  ℕ, ◌+◌, ◌-◌, ◌*◌, String, Bool, true, false, ◌||◌, Option, none, some, List, [], ◌∷◌, ◌++◌, ltb,
  length, drop, get_or, if◌then◌else◌, ◌==◌,
}
use kaja.Call.{MethodCall}
use kaja.Run.{Run, ConsoleItem}
use kaja.RunStore.{StoredCall, StoredFile, StoredItem, StoredRun, from_stored_call, to_stored_item}

abbrev pub max_stored_runs_per_file : ℕ
max_stored_runs_per_file = 3

abbrev pub max_payload_bytes : ℕ
max_payload_bytes = 512 * 1024

abbrev pub read_calls : Option StoredCall → Option MethodCall
read_calls none = none
read_calls (some call) = some (from_stored_call call)

unfoldable pub from_stored_item : String → StoredItem → ConsoleItem
unfolding from_stored_call
from_stored_item run_id item = record {
  id = item.id;
  run_id = run_id;
  timestamp = item.timestamp;
  call = read_calls item.call;
  logs = item.logs;
  block = item.block;
  printed = item.printed;
  key = none;
  payloads_dropped = false;
}

abbrev pub stale_run : Bool → Run → Run
stale_run expired run = record run { stale = true; payloads_expired = expired }

-- The runs and their items, as the console has them back.
pub record LoadedRuns : Type 0 where
  pub runs : List Run
  pub items : List ConsoleItem

unfoldable pub run_items : String → List StoredItem → List ConsoleItem
unfolding from_stored_item
run_items run_id [] = []
run_items run_id (item ∷ items) = from_stored_item run_id item ∷ run_items run_id items

unfoldable pub read_runs : List StoredRun → LoadedRuns
unfolding run_items
read_runs [] = record { runs = []; items = [] }
read_runs (entry ∷ entries) =
    let rest = read_runs entries in
    record {
      runs = entry.run ∷ rest.runs;
      items = run_items entry.run.id entry.items ++ rest.items;
    }

unfoldable pub deserialize_file : StoredFile → LoadedRuns
unfolding read_runs
deserialize_file stored = read_runs stored.runs

unfoldable pub stored_items : String → List ConsoleItem → List StoredItem
unfolding to_stored_item
stored_items run_id [] = []
stored_items run_id (item ∷ items) =
    let rest = stored_items run_id items in
    if item.run_id == run_id then to_stored_item item ∷ rest else rest

abbrev pub kept_runs : List Run → List Run
kept_runs runs = drop (length runs - max_stored_runs_per_file) runs

module _ (size : List StoredItem → Option ℕ) where
  unfoldable pub payload_bytes : List StoredItem → ℕ
  payload_bytes items = get_or (size items) (max_payload_bytes + 1)

  -- The runs that are kept, newest last, as they are stored with what is left of the budget: it is
  -- spent on the newest first.
  unfoldable pub store_runs : List Run → List ConsoleItem → List StoredRun × ℕ
  unfolding payload_bytes stored_items
  store_runs [] items = ([], max_payload_bytes)
  store_runs (run ∷ runs) items =
      let (stored, budget) = store_runs runs items in
      let payload = stored_items run.id items in
      let bytes = payload_bytes payload in
      if run.payloads_expired || ltb budget bytes
      then (record { run = stale_run true run; items = [] } ∷ stored, budget)
      else (record { run = stale_run false run; items = payload } ∷ stored, budget - bytes)

  unfoldable pub serialize_file : List Run → List ConsoleItem → ℕ → StoredFile
  unfolding store_runs
  serialize_file runs items now = record {
    runs = (store_runs (kept_runs runs) items).0;
    stored_at = now;
  }
