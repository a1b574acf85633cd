-- ===== src/RunStore/Archive.antt =====
-- ui/src/runStore.ts: the archive of the files' consoles. An entry whose shape an older build wrote
-- is none. The operations take what the storage holds and give what they leave in it.
use kaja.Prelude.{
  ℕ, ◌-◌, ◌*◌, String, true, Option, none, some, List, [], ◌∷◌, map, ltb, leb, take, last?, is_nil,
  if◌then◌else◌,
}
use kaja.Prelude.Dict
use kaja.Prelude.Dict.{Dict}
use kaja.Run.{Run, ConsoleItem}
use kaja.RunStore.{StoredFile, StoredRun, StoredItem}
use kaja.RunStore.Files.{LoadedRuns, serialize_file, deserialize_file}

abbrev pub max_stored_files : ℕ
max_stored_files = 50

abbrev pub payload_days : ℕ
payload_days = 7

abbrev pub RunArchive : Type 0
RunArchive = Dict (Option StoredFile)

abbrev pub last_start : List StoredRun → ℕ
last_start runs = elim (last? runs) [ none ↦ 0 | some entry ↦ entry.run.started_at ]

unfoldable pub last_run_at : StoredFile → ℕ
last_run_at stored = last_start stored.runs

-- The entries that can be read.
unfoldable pub readable : RunArchive → Dict StoredFile
readable [] = []
readable ((id, none) ∷ archive) = readable archive
readable ((id, some stored) ∷ archive) = (id, stored) ∷ readable archive

-- The sort is stable: of two files that ran at the same time the first stays first.
unfoldable pub insert_by_time : String × StoredFile → Dict StoredFile → Dict StoredFile
unfolding last_run_at
insert_by_time entry [] = entry ∷ []
insert_by_time entry (other ∷ entries) =
    let rest = insert_by_time entry entries in
    if leb (last_run_at other.1) (last_run_at entry.1)
    then entry ∷ other ∷ entries
    else other ∷ rest

unfoldable pub by_time : Dict StoredFile → Dict StoredFile
unfolding insert_by_time
by_time [] = []
by_time (entry ∷ entries) = insert_by_time entry (by_time entries)

abbrev pub without_payload : StoredRun → StoredRun
without_payload entry = record { run = record entry.run { payloads_expired = true }; items = [] }

unfoldable pub expire : ℕ → StoredFile → StoredFile
expire cutoff stored =
    if ltb stored.stored_at cutoff
    then record stored { runs = map without_payload stored.runs }
    else stored

unfoldable pub expire_all : ℕ → Dict StoredFile → RunArchive
unfolding expire
expire_all cutoff [] = []
expire_all cutoff ((id, stored) ∷ entries) =
    (id, some (expire cutoff stored)) ∷ expire_all cutoff entries

-- A cutoff before the start of time lets nothing expire.
unfoldable pub prune_archive : RunArchive → ℕ → RunArchive
unfolding expire_all by_time readable
prune_archive archive now =
    expire_all (now - payload_days * 24 * 60 * 60 * 1000)
      (take max_stored_files (by_time (readable archive)))

abbrev pub found : Option (Option StoredFile) → Option StoredFile
found none = none
found (some stored) = stored

unfoldable pub drop_stored_file : String → RunArchive → RunArchive
drop_stored_file file_id archive =
    if Dict.has file_id archive then Dict.remove file_id archive else archive

unfoldable pub save_runs :
    (List StoredItem → Option ℕ)
    → String
    → List Run
    → List ConsoleItem
    → ℕ
    → RunArchive
    → RunArchive
unfolding drop_stored_file prune_archive serialize_file
save_runs size file_id runs items now archive =
    if is_nil runs
    then drop_stored_file file_id archive
    else prune_archive (Dict.insert file_id (some (serialize_file size runs items now)) archive) now

unfoldable pub load_runs : String → ℕ → RunArchive → Option LoadedRuns
unfolding prune_archive deserialize_file
load_runs file_id now archive = elim (found (Dict.lookup file_id (prune_archive archive now))) [
  | none ↦ none
  | some stored ↦ some (deserialize_file stored)
]

abbrev pub renamed_run : String → StoredRun → StoredRun
renamed_run new_id entry = record entry { run = record entry.run { file_id = some new_id } }

-- An entry of an older shape ends the renaming, before anything is written.
unfoldable pub rename_stored_file : String → String → RunArchive → RunArchive
rename_stored_file old_id new_id archive = elim (found (Dict.lookup old_id archive)) [
  | none ↦ archive
  | some stored ↦
      Dict.insert new_id (some (record stored { runs = map (renamed_run new_id) stored.runs }))
        (Dict.remove old_id archive)
]
