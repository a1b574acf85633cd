-- ===== src/Tests/Store.antt =====
-- The theorems on what is kept between sessions, at an example file.
use kaja.Prelude.{
  All, ◌⊎◌, ℕ, zero, suc, ◌-◌, ◌≤◌, ◌≡◌, refl, String, true, false, Option, none, some, List, [],
  ◌∷◌, arith, all, drop, length, map, sum_by,
}
use kaja.Prelude.Dict
use kaja.Block.{Block, AskAnswerType}
use kaja.Run.{Run, ConsoleItem}
use kaja.RunStore.{StoredItem, StoredFile, to_stored_item}
use kaja.RunStore.Files.{serialize_file, deserialize_file, from_stored_item}
use kaja.RunStore.Archive.{
  RunArchive, found, last_run_at, expire, prune_archive, save_runs, load_runs,
}
use kaja.RunStore.Budget.{spent, IsFit, IsStated, run_id, serialize_file-budget}
use kaja.RunStore.Settled.{settled_item, deserialize_file-settled}
use kaja.RunStore.Again.{to_stored_item-from_stored_item}
use kaja.RunStore.Kept.{ran_since, prune_archive-kept}
use kaja.RunStore.Reading.{load_runs-save_runs}
use kaja.Tests.{started_run, issued_call, failed_call, item_of}

-- A thousand bytes for each item.
abbrev size : List StoredItem → Option ℕ
size [] = some 2
size (item ∷ items) = some 1000

abbrev asked : ConsoleItem
asked = record (item_of "i9" issued_call) {
  call = none;
  block = some (
      Block.ask (record {
        question = "Which user?";
        answer_type = AskAnswerType.str;
        choices = none;
        answer = none;
        cancelled = false;
      }));
}

abbrev items : List ConsoleItem
items = item_of "i1" failed_call ∷ asked ∷ []

serialize_file-budget_example :
    (sum_by (spent size) (serialize_file size (started_run ∷ []) items 2000).runs ≤ 524288)
    × All (IsStated items) (serialize_file size (started_run ∷ []) items 2000).runs
    × IsFit size items
        (drop (length (started_run ∷ []) - 3) (started_run ∷ []))
        (serialize_file size (started_run ∷ []) items 2000).runs
    × (map run_id (serialize_file size (started_run ∷ []) items 2000).runs
        ≡ map (λ (run : Run). run.id) (drop (length (started_run ∷ []) - 3) (started_run ∷ [])))
    × (length (drop (length (started_run ∷ []) - 3) (started_run ∷ [])) ≤ 3)
serialize_file-budget_example = serialize_file-budget size (started_run ∷ []) items 2000

deserialize_file-settled_example :
    all settled_item (deserialize_file (serialize_file size (started_run ∷ []) items 2000)).items
    ≡ true
deserialize_file-settled_example = deserialize_file-settled size (started_run ∷ []) items 2000

to_stored_item-from_stored_item_example :
    to_stored_item (from_stored_item "r1" (to_stored_item asked)) ≡ to_stored_item asked
to_stored_item-from_stored_item_example = to_stored_item-from_stored_item "r1" asked

load_runs-save_runs_example :
    load_runs "users.ts" 2000 (save_runs size "users.ts" (started_run ∷ []) items 2000 [])
    ≡ some (deserialize_file (serialize_file size (started_run ∷ []) items 2000))
load_runs-save_runs_example =
    load_runs-save_runs size "users.ts" (started_run ∷ []) items 2000 [] refl (omega arith) refl

-- Files whose names are one letter, over and over, each run later than the shorter ones.
abbrev name : ℕ → String
name zero = ""
name (suc n) = String.◌∷◌ "f" (name n)

abbrev file_at : ℕ → StoredFile
file_at time = record {
  runs = record { run = record started_run { started_at = time }; items = [] } ∷ [];
  stored_at = time;
}

abbrev files : ℕ → RunArchive
files zero = []
files (suc n) = (name n, some (file_at n)) ∷ files n

prune_archive-kept_example :
    (length (prune_archive (files 51) 100) ≤ 50)
    × ((found (Dict.lookup "" (prune_archive (files 51) 100)) ≡ some (expire 0 (file_at 0)))
        ⊎ ((Dict.has "" (prune_archive (files 51) 100) ≡ false)
            × (all (ran_since (last_run_at (file_at 0))) (prune_archive (files 51) 100) ≡ true)))
prune_archive-kept_example = prune_archive-kept (files 51) 100 "" (file_at 0) refl refl
