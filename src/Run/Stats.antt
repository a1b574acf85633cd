-- ===== src/Run/Stats.antt =====
-- ui/src/runs.ts: `ItemStats`, what a set of items says of itself, counted as they arrive, and
-- `worstStatus`, the definition that it is held to.
use kaja.Prelude.{
  ℕ, ◌+◌, ◌-◌, min, max, String, Bool, true, false, Option, none, some, List, [], ltb, nat_eq, any,
  is_some, is_nil, length, map, if◌then◌else◌,
}
use kaja.Prelude.Dict
use kaja.Prelude.Dict.{Dict}
use kaja.Run.{
  ConsoleItem, RunStatus, pending, streaming, success, error, status_eq, item_status,
  item_in_flight,
}

-- What was last counted for an item.
pub record Counted : Type 0 where
  pub status : RunStatus
  pub in_flight : Bool
  pub duration : Option ℕ

pub record Counts : Type 0 where
  pub pending : ℕ
  pub streaming : ℕ
  pub success : ℕ
  pub error : ℕ

-- `start` and `end_at` are none where the source holds `Infinity` and `-Infinity`.
pub record ItemStats : Type 0 where
  pub of : Dict Counted
  pub counts : Counts
  pub in_flight_count : ℕ
  pub settled : ℕ
  pub slowest_ms : ℕ
  pub start : Option ℕ
  pub end_at : Option ℕ

unfoldable pub empty : ItemStats
empty = record {
  of = [];
  counts = record { pending = 0; streaming = 0; success = 0; error = 0 };
  in_flight_count = 0;
  settled = 0;
  slowest_ms = 0;
  start = none;
  end_at = none;
}

abbrev pub count_of : RunStatus → Counts → ℕ
count_of pending c = c.pending
count_of streaming c = c.streaming
count_of success c = c.success
count_of error c = c.error

abbrev one_more : RunStatus → Counts → Counts
one_more pending c = record c { pending = c.pending + 1 }
one_more streaming c = record c { streaming = c.streaming + 1 }
one_more success c = record c { success = c.success + 1 }
one_more error c = record c { error = c.error + 1 }

abbrev one_less : RunStatus → Counts → Counts
one_less pending c = record c { pending = c.pending - 1 }
one_less streaming c = record c { streaming = c.streaming - 1 }
one_less success c = record c { success = c.success - 1 }
one_less error c = record c { error = c.error - 1 }

abbrev pub item_duration : ConsoleItem → Option ℕ
item_duration item = elim item.call [ none ↦ none | some call ↦ call.duration_ms ]

-- `Math.min(this.#start, t)` from `Infinity`, `Math.max(this.#end, t)` from `-Infinity`.
abbrev min_of : Option ℕ → ℕ → ℕ
min_of none t = t
min_of (some s) t = min s t

abbrev max_of : Option ℕ → ℕ → ℕ
max_of none t = t
max_of (some s) t = max s t

-- Taking back what was counted for the item before.
abbrev forget : Option Counted → ItemStats → ItemStats
forget none s = s
forget (some was) s = record s {
  counts = one_less was.status s.counts;
  in_flight_count = if was.in_flight then s.in_flight_count - 1 else s.in_flight_count;
}

abbrev count : RunStatus → Bool → ItemStats → ItemStats
count status in_flight s = record s {
  counts = one_more status s.counts;
  in_flight_count = if in_flight then s.in_flight_count + 1 else s.in_flight_count;
}

-- The first time that a duration is there it moves the window outward.
abbrev settle : Option ℕ → Bool → ℕ → ItemStats → ItemStats
settle none known timestamp s = s
settle (some duration) true timestamp s = s
settle (some duration) false timestamp s = record s {
  settled = s.settled + 1;
  slowest_ms = max s.slowest_ms duration;
  start = some (min_of s.start timestamp);
  end_at = some (max_of s.end_at (timestamp + duration));
}

abbrev had_duration : Option Counted → Bool
had_duration none = false
had_duration (some was) = is_some was.duration

unfoldable pub add : ConsoleItem → ItemStats → ItemStats
add item s =
    let was = Dict.lookup item.id s.of in
    let status = item_status item in
    let in_flight = item_in_flight item in
    let duration = item_duration item in
    let s' =
      settle duration (had_duration was) item.timestamp (count status in_flight (forget was s)) in
    record s' {
      of =
          Dict.insert item.id
            (record { status = status; in_flight = in_flight; duration = duration }) s'.of;
    }

unfoldable pub has : String → ItemStats → Bool
has id s = Dict.has id s.of

abbrev pub size : ItemStats → ℕ
size s = length s.of

unfoldable pub stats_status : ItemStats → RunStatus
stats_status s =
    if is_nil s.of
    then pending
    else (if ltb 0 s.counts.error
        then error
        else (if ltb 0 s.counts.pending
            then pending
            else (if ltb 0 s.counts.streaming then streaming else success)))

abbrev pub failures : ItemStats → ℕ
failures s = s.counts.error

abbrev pub in_flight : ItemStats → Bool
in_flight s = ltb 0 s.in_flight_count

unfoldable pub slowest : ItemStats → Option ℕ
slowest s = if ltb 1 s.settled then some s.slowest_ms else none

-- `end < start ? undefined : end - start`; with no window at all, `end` is below `start`.
abbrev span : Option ℕ → Option ℕ → Option ℕ
span (some start) (some finish) = if ltb finish start then none else some (finish - start)
span _ _ = none

unfoldable pub stats_duration : ItemStats → Option ℕ
stats_duration s =
    if is_nil s.of
    then none
    else (if nat_eq s.settled (size s) then span s.start s.end_at else none)

-- `worstStatus`, over the statuses of the items.
unfoldable pub worst_of : List RunStatus → RunStatus
worst_of statuses =
    if is_nil statuses
    then pending
    else (if any (status_eq error) statuses
        then error
        else (if any (status_eq pending) statuses
            then pending
            else (if any (status_eq streaming) statuses then streaming else success)))

unfoldable pub worst_status : List ConsoleItem → RunStatus
unfolding worst_of
worst_status items = worst_of (map item_status items)
