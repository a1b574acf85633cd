-- ===== src/FileConsole.antt =====
-- ui/src/consoles.ts: `FileConsole`, the runs of one file. Items and groups are objects that the
-- source shares between its lists and maps, so they live in two heaps that only grow, and the maps
-- hold their places. The memo of `get groups` is not kept: every operation that moves it clears it.
pub mod Record
pub mod Runs
pub mod Numbers
pub mod Queue
pub mod Keeps
pub mod Bounds
pub mod Reach
use kaja.Prelude.{
  ℕ, zero, suc, ◌+◌, ◌-◌, String, Bool, true, false, not, ◌&&◌, ◌||◌, Option, none, some, List, [],
  ◌∷◌, ◌++◌, length, get_elem?, set, any, is_nil, is_some, if◌then◌else◌, ◌==◌,
}
use kaja.Prelude.Dict
use kaja.Prelude.Dict.{Dict}
use kaja.Run.{Run, ConsoleItem, ConsoleTab, ConsoleView, LogFloor, RunSelection}
use kaja.Block.{Block}
use kaja.Group.{Group, append, patched, is_running, group_in_flight, awaiting}

pub record ItemPlace : Type 0 where
  pub item : ℕ
  pub group : ℕ

pub record FileConsole : Type 0 where
  pub item_heap : List ConsoleItem
  pub group_heap : List Group
  pub runs : List Run
  pub selection : Option RunSelection
  pub tab : ConsoleTab
  pub view : Option ConsoleView
  pub log_floor : LogFloor
  pub loaded : Bool
  pub touched_at : ℕ
  pub version : ℕ
  pub groups : Dict ℕ
  pub by_call : Dict ℕ
  pub by_item : Dict ItemPlace
  pub ignored : List String
  pub holding : List (Option ℕ)
  pub held : ℕ

-- `new FileConsole()`
unfoldable pub empty : FileConsole
empty = record {
  item_heap = [];
  group_heap = [];
  runs = [];
  selection = none;
  tab = ConsoleTab.response;
  view = none;
  log_floor = LogFloor.off;
  loaded = false;
  touched_at = 0;
  version = 0;
  groups = [];
  by_call = [];
  by_item = [];
  ignored = [];
  holding = [];
  held = 0;
}

-- `this.#groups.get(runId)`
abbrev pub group_at : FileConsole → Option ℕ → Option Group
group_at c none = none
group_at c (some ref) = get_elem? c.group_heap ref

unfoldable pub group : FileConsole → String → Option Group
group c run_id = group_at c (Dict.lookup run_id c.groups)

-- `get groups`: the groups of the runs, in the order of the runs.
abbrev groups_of : FileConsole → List Run → List Group
groups_of c [] = []
groups_of c (run ∷ runs) =
    let rest = groups_of c runs in
    elim (group_at c (Dict.lookup run.id c.groups)) [ none ↦ rest | some g ↦ g ∷ rest ]

unfoldable pub ordered_groups : FileConsole → List Group
ordered_groups c = groups_of c c.runs

abbrev pub is_empty : FileConsole → Bool
is_empty c = is_nil c.runs

unfoldable pub running : FileConsole → Bool
running c = any is_running c.runs

unfoldable pub agent_running : FileConsole → Bool
agent_running c = any (λ (run : Run). is_running run && is_some run.origin) c.runs

unfoldable pub waiting : FileConsole → Bool
unfolding ordered_groups awaiting
waiting c = any (λ g. is_some (awaiting c.item_heap g)) (ordered_groups c)

unfoldable pub has_work_in_flight : FileConsole → String → Bool
unfolding group
has_work_in_flight c run_id = elim (group c run_id) [ none ↦ false | some g ↦ group_in_flight g ]

-- The places of the items of every run, run by run.
abbrev items_of : List Group → List ℕ
items_of [] = []
items_of (g ∷ gs) = g.items ++ items_of gs

unfoldable pub all_items : FileConsole → List ℕ
unfolding ordered_groups
all_items c = items_of (ordered_groups c)

abbrev pub set_group : ℕ → Group → FileConsole → FileConsole
set_group ref g c = record c { group_heap = set c.group_heap ref g }

abbrev pub set_item : ℕ → ConsoleItem → FileConsole → FileConsole
set_item ref item c = record c { item_heap = set c.item_heap ref item }

-- A new object: its place is the end of the heap.
abbrev pub new_item : ConsoleItem → FileConsole → FileConsole
new_item item c = record c { item_heap = c.item_heap ++ item ∷ [] }

-- Appending the item at `item_ref` to the group at `group_ref`.
unfoldable pub append_to : ℕ → Group → ℕ → ConsoleItem → FileConsole → FileConsole × Bool
unfolding append
append_to group_ref g item_ref item c =
    let (g', kept) = append item_ref item g in
    (
      if kept
          then record c {
            group_heap = set c.group_heap group_ref g';
            by_item = Dict.insert item.id (record { item = item_ref; group = group_ref }) c.by_item;
          }
          else set_group group_ref g' c,
      kept,
    )

abbrev pub append_at : Option ℕ → ConsoleItem → FileConsole → FileConsole × Bool
append_at none item c = (c, false)
append_at (some group_ref) item c = elim (get_elem? c.group_heap group_ref) [
  | none ↦ (c, false)
  | some g ↦ append_to group_ref g (length c.item_heap) item (new_item item c)
]

-- `#append`
unfoldable pub append_item : String → ConsoleItem → FileConsole → FileConsole × Bool
unfolding append_to
append_item run_id item c = append_at (Dict.lookup run_id c.groups) item c

-- `group.patched(item)` on the object at `group_ref`.
unfoldable pub patch_at : ℕ → ℕ → ConsoleItem → FileConsole → FileConsole
unfolding patched
patch_at group_ref item_ref item c = elim (get_elem? c.group_heap group_ref) [
  | none ↦ c
  | some g ↦ set_group group_ref (patched item_ref item g) c
]

pub record FoundBlock : Type 0 where
  pub run : Run
  pub block : Block

abbrev found_at : FileConsole → ItemPlace → Option FoundBlock
found_at c place = elim (get_elem? c.item_heap place.item) [
  | none ↦ none
  | some item ↦ elim item.block [
    | none ↦ none
    | some block ↦ elim (get_elem? c.group_heap place.group) [
      | none ↦ none
      | some g ↦ some (record { run = g.run; block = block })
    ]
  ]
]

unfoldable pub find_block : FileConsole → String → Option FoundBlock
find_block c block_id = elim (Dict.lookup block_id c.by_item) [
  | none ↦ none
  | some place ↦ found_at c place
]
