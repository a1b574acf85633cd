-- ===== src/FileConsole/Runs.antt =====
-- ui/src/consoles.ts: the runs of a file, from the press of Run to the store and back.
use kaja.Prelude.{
  ℕ, ◌+◌, ◌-◌, max, String, Bool, true, false, not, Option, none, some, List, [], ◌∷◌, ◌++◌, leb,
  length, get_elem?, set, take, drop, any, filter, find_index?, get_or, is_nil, map, if◌then◌else◌,
  ◌==◌,
}
use kaja.Prelude.Dict
use kaja.Prelude.Dict.{Dict}
use kaja.Run.{Run, ConsoleItem}
use kaja.Group.{Group, new_group}
use kaja.FileConsole.{FileConsole, append_to, new_item}

abbrev pub max_runs_per_file : ℕ
max_runs_per_file = 25

abbrev pub number_of : Run → ℕ
number_of run = get_or run.number 0

-- `#nextRunNumber`, the reduction and its last step.
abbrev pub highest_number : List Run → ℕ
highest_number [] = 0
highest_number (run ∷ runs) = max (number_of run) (highest_number runs)

unfoldable pub next_run_number : FileConsole → ℕ
next_run_number c = highest_number c.runs + 1

abbrev pub forget_groups : List Run → Dict ℕ → Dict ℕ
forget_groups [] groups = groups
forget_groups (run ∷ runs) groups = forget_groups runs (Dict.remove run.id groups)

unfoldable pub trim_runs : FileConsole → FileConsole
trim_runs c =
    if leb (length c.runs) max_runs_per_file
    then c
    else (let excess = length c.runs - max_runs_per_file in
        record c {
          runs = drop excess c.runs;
          groups = forget_groups (take excess c.runs) c.groups;
        })

unfoldable pub start_run : Run → FileConsole → FileConsole
unfolding trim_runs next_run_number new_group
start_run run c =
    let numbered : Run = record run { number = some (next_run_number c) } in
    trim_runs (record c {
      runs = c.runs ++ numbered ∷ [];
      group_heap = c.group_heap ++ new_group numbered ∷ [];
      groups = Dict.insert numbered.id (length c.group_heap) c.groups;
    })

-- `if (group) group.run = run`
abbrev pub set_run : Option ℕ → Run → FileConsole → FileConsole
set_run none run c = c
set_run (some ref) run c = elim (get_elem? c.group_heap ref) [
  | none ↦ c
  | some g ↦ record c { group_heap = set c.group_heap ref (record g { run = run }) }
]

abbrev pub settle_at : ℕ → ℕ → String → FileConsole → FileConsole × Bool
settle_at index duration_ms run_id c = elim (get_elem? c.runs index) [
  | none ↦ (c, false)
  | some run ↦
      (let settled : Run = record run { duration_ms = some duration_ms } in
        (
          set_run (Dict.lookup run_id c.groups) settled
              (record c { runs = set c.runs index settled }),
          true,
        ))
]

unfoldable pub settle_run : String → ℕ → FileConsole → FileConsole × Bool
settle_run run_id duration_ms c = elim (find_index? (λ (run : Run). run.id == run_id) c.runs) [
  | none ↦ (c, false)
  | some index ↦ settle_at index duration_ms run_id c
]

pub record Stored : Type 0 where
  pub runs : List Run
  pub items : List ConsoleItem

-- `for (const run of older) groups.set(run.id, new Group(run))`
abbrev pub new_groups : List Run → List Group → Dict ℕ → List Group × Dict ℕ
new_groups [] heap groups = (heap, groups)
new_groups (run ∷ runs) heap groups =
    new_groups runs (heap ++ new_group run ∷ []) (Dict.insert run.id (length heap) groups)

abbrev pub insert_all : Dict ℕ → Dict ℕ → Dict ℕ
insert_all [] groups = groups
insert_all ((id, ref) ∷ rest) groups = insert_all rest (Dict.insert id ref groups)

abbrev pub adopt_item : Option ℕ → ConsoleItem → FileConsole → FileConsole
adopt_item none item c = c
adopt_item (some group_ref) item c = elim (get_elem? c.group_heap group_ref) [
  | none ↦ c
  | some g ↦ (append_to group_ref g (length c.item_heap) item (new_item item c)).0
]

unfoldable pub adopt_items : Dict ℕ → List ConsoleItem → FileConsole → FileConsole
unfolding append_to
adopt_items groups [] c = c
adopt_items groups (item ∷ items) c =
    adopt_items groups items (adopt_item (Dict.lookup item.run_id groups) item c)

abbrev pub is_known : FileConsole → Run → Bool
is_known c run = any (λ (known : Run). known.id == run.id) c.runs

abbrev pub adopt_runs : List Run → List ConsoleItem → FileConsole → FileConsole
adopt_runs older items c =
    let (heap, groups) = new_groups older c.group_heap [] in
    trim_runs (
      adopt_items groups items (record c {
        group_heap = heap;
        runs = older ++ c.runs;
        groups = insert_all groups c.groups;
      }))

unfoldable pub adopt : Option Stored → FileConsole → FileConsole
unfolding adopt_items trim_runs new_group
adopt none c = record c { loaded = true }
adopt (some stored) c =
    let older = filter (λ run. not (is_known c run)) stored.runs in
    if is_nil older
    then record c { loaded = true }
    else adopt_runs older stored.items (record c { loaded = true })

-- The heaps keep their objects; nothing but them does.
unfoldable pub clear : ℕ → FileConsole → FileConsole
clear now c = record c {
  runs = [];
  groups = [];
  by_call = [];
  by_item = [];
  holding = [];
  held = 0;
  selection = none;
  loaded = true;
  touched_at = now;
}

abbrev pub set_runs : List Run → FileConsole → FileConsole
set_runs [] c = c
set_runs (run ∷ runs) c = set_runs runs (set_run (Dict.lookup run.id c.groups) run c)

unfoldable pub rename : String → FileConsole → FileConsole
rename file_id c =
    let runs = map (λ (run : Run). record run { file_id = some file_id }) c.runs in
    set_runs runs (record c { runs = runs })
