-- ===== src/Group.antt =====
-- ui/src/consoles.ts: `Group`, one run and everything under it, kept as the run happens, and the
-- questions of ui/src/runs.ts about a group. An item is an object that several lists share, so the
-- lists hold its place in the file's heap of items.
pub mod Notices
pub mod Rows
pub mod Bounds
pub mod Stated
pub mod Follows
use kaja.Prelude.{
  ℕ, ◌+◌, String, Bool, true, false, not, ◌&&◌, ◌||◌, Option, none, some, List, [], ◌∷◌, ◌++◌, ltb,
  leb, nat_eq, length, get_elem?, any, find?, filter, is_some, if◌then◌else◌,
}
use kaja.Prelude.Dict
use kaja.Prelude.Dict.{Dict}
use kaja.Block.{is_awaiting_user}
use kaja.Run.{Run, ConsoleItem, RunStatus}
use kaja.Run.Stats
use kaja.Run.Stats.{ItemStats}
use kaja.Strip
use kaja.Strip.{RunStrip}

abbrev pub max_items_per_run : ℕ
max_items_per_run = 20000

pub record Failed : Type 0 where
  pub item : ℕ
  pub seq : ℕ

pub record Group : Type 0 where
  pub run : Run
  pub items : List ℕ
  pub calls : List ℕ
  pub printed : List ℕ
  pub drawn : List ℕ
  pub stats : ItemStats
  pub strip : RunStrip
  pub drew : Bool
  pub dropped : ℕ
  pub asked : List ℕ
  pub seq : ℕ
  pub drawn_at : ℕ
  pub failed : Dict Failed

-- `new Group(run)`
unfoldable pub new_group : Run → Group
new_group run = record {
  run = run;
  items = [];
  calls = [];
  printed = [];
  drawn = [];
  stats = Stats.empty;
  strip = Strip.empty;
  drew = false;
  dropped = 0;
  asked = [];
  seq = 0;
  drawn_at = 0;
  failed = [];
}

-- Printing is not drawing.
abbrev pub is_drawing : ConsoleItem → Bool
is_drawing item = is_some item.block || is_some item.logs && not item.printed

abbrev pub item_awaits : ConsoleItem → Bool
item_awaits item = elim item.block [ none ↦ false | some block ↦ is_awaiting_user block ]

abbrev pub has_error : ConsoleItem → Bool
has_error item = elim item.call [ none ↦ false | some call ↦ is_some call.error ]

-- `#mark`: the counter moves on, and what was drawn or what failed takes its value.
unfoldable pub mark : ℕ → ConsoleItem → Group → Group
mark ref item g =
    let seq = g.seq + 1 in
    if is_drawing item
    then record g { seq = seq; drawn_at = seq }
    else (if has_error item
        then record g {
          seq = seq;
          failed = Dict.insert item.id (record { item = ref; seq = seq }) g.failed;
        }
        else record g { seq = seq })

-- What both `append` and `patched` do at their end.
unfoldable pub account : ℕ → ConsoleItem → Group → Group
unfolding mark
account ref item g =
    mark ref item (record g { stats = Stats.add item g.stats; strip = Strip.add item g.strip })

abbrev push_if : Bool → List ℕ → ℕ → List ℕ
push_if b refs ref = if b then refs ++ ref ∷ [] else refs

-- The lists that an appended item goes to.
unfoldable pub enlist : ℕ → ConsoleItem → Group → Group
enlist ref item g = record g {
  items = g.items ++ ref ∷ [];
  calls = push_if (is_some item.call) g.calls ref;
  printed = push_if item.printed g.printed ref;
  drawn = push_if (is_drawing item) g.drawn ref;
  drew = g.drew || is_drawing item;
  asked = push_if (item_awaits item) g.asked ref;
}

unfoldable pub append : ℕ → ConsoleItem → Group → Group × Bool
unfolding enlist account
append ref item g =
    if leb max_items_per_run (length g.items)
    then (record g { dropped = g.dropped + 1 }, false)
    else (account ref item (enlist ref item g), true)

unfoldable pub patched : ℕ → ConsoleItem → Group → Group
unfolding account
patched ref item g =
    account ref item (record g {
      asked = push_if (item_awaits item && not (any (nat_eq ref) g.asked)) g.asked ref;
    })

abbrev pub group_status : Group → RunStatus
group_status g = Stats.stats_status g.stats

abbrev pub group_in_flight : Group → Bool
group_in_flight g = not g.run.stale && Stats.in_flight g.stats

abbrev pub is_running : Run → Bool
is_running run = not run.stale && not (is_some run.duration_ms)

abbrev pub group_running : Group → Bool
group_running g = is_running g.run

abbrev pub group_failures : Group → ℕ
group_failures g = Stats.failures g.stats

abbrev awaits_at : List ConsoleItem → ℕ → Bool
awaits_at heap ref = elim (get_elem? heap ref) [ none ↦ false | some item ↦ item_awaits item ]

-- The item that the run is parked on.
unfoldable pub awaiting : List ConsoleItem → Group → Option ℕ
awaiting heap g = find? (awaits_at heap) g.asked
