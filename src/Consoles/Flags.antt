-- ===== src/Consoles/Flags.antt =====
-- ui/src/consoles.ts: which files are running, run by an agent or waiting, and the memo of it.
use kaja.Prelude.{String, Bool, none, some, List, [], ◌∷◌, nat_eq, if◌then◌else◌}
use kaja.Prelude.Dict.{Dict}
use kaja.FileConsole
use kaja.FileConsole.{FileConsole}
use kaja.Consoles.{Consoles, FlagSets}

-- The keys of the files that pass a test.
unfoldable pub files_that : (FileConsole → Bool) → Dict FileConsole → List String
files_that p [] = []
files_that p ((id, c) ∷ files) = let rest = files_that p files in if p c then id ∷ rest else rest

unfoldable pub compute_flags : Dict FileConsole → FlagSets
unfolding files_that
compute_flags files = record {
  running = files_that FileConsole.running files;
  agent = files_that FileConsole.agent_running files;
  waiting = files_that FileConsole.waiting files;
}

abbrev fresh_sets : Consoles → FlagSets × Consoles
fresh_sets s =
    let sets = compute_flags s.files in
    (sets, record s { flags_cache = some (record { version = s.flags; sets = sets }) })

unfoldable pub flag_sets : Consoles → FlagSets × Consoles
unfolding compute_flags
flag_sets s = elim s.flags_cache [
  | none ↦ fresh_sets s
  | some cache ↦ if nat_eq cache.version s.flags then (cache.sets, s) else fresh_sets s
]
