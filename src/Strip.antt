-- ===== src/Strip.antt =====
-- ui/src/runStrip.ts: the calls of a run as one row of marks. While there is room a mark is a call;
-- past that a bucket holds a contiguous run of calls.
pub mod Fill
pub mod Sums
pub mod Marks
pub mod Drawn
use kaja.Prelude.{
  ℕ, zero, suc, ◌+◌, ◌-◌, ◌*◌, ◌/◌, min, max, String, Bool, true, false, not, ◌&&◌, ◌||◌, Option,
  none, some, List, [], ◌∷◌, ◌++◌, ltb, leb, nat_eq, length, take, drop, sum_by, map, get_elem?,
  last?, is_some, is_nil, get_or, if◌then◌else◌,
}
use kaja.Prelude.Dict
use kaja.Prelude.Dict.{Dict}
use kaja.Call.{MethodCall, call_name}
use kaja.Run.{ConsoleItem}

abbrev pub slot_width : ℕ
slot_width = 5

abbrev pub max_slots : ℕ
max_slots = 200

abbrev pub min_strip_width : ℕ
min_strip_width = 240

unfoldable pub slots_for : ℕ → ℕ
slots_for available_width =
    if ltb available_width min_strip_width then 0 else min max_slots (available_width / slot_width)

pub record Bucket : Type 0 where
  pub item_id : String
  pub calls : ℕ
  pub failures : ℕ
  pub slowest : ℕ
  pub method : Option String

pub record Seen : Type 0 where
  pub ordinal : ℕ
  pub failed : Bool
  pub duration : Option ℕ

pub record RunStrip : Type 0 where
  pub buckets : List Bucket
  pub capacity : ℕ
  pub of : Dict Seen
  pub methods : Dict ℕ
  pub calls : ℕ
  pub failures : ℕ

unfoldable pub empty : RunStrip
empty = record { buckets = []; capacity = 1; of = []; methods = []; calls = 0; failures = 0 }

abbrev pub slowest_in : List Bucket → ℕ
slowest_in [] = 0
slowest_in (b ∷ bs) = max b.slowest (slowest_in bs)

abbrev pub bucket_calls : List Bucket → ℕ
bucket_calls = sum_by (λ (b : Bucket). b.calls)

abbrev pub bucket_failures : List Bucket → ℕ
bucket_failures = sum_by (λ (b : Bucket). b.failures)

-- One bucket in place of a group of them, which starts with `first`.
abbrev pub merge_group : Bucket → List Bucket → Bucket
merge_group first group = record {
  item_id = first.item_id;
  calls = bucket_calls group;
  failures = bucket_failures group;
  slowest = slowest_in group;
  method = none;
}

-- The loop of `mergeEvery`; a round takes at least one bucket, so their number is enough fuel.
pub merge_fuel : ℕ → ℕ → List Bucket → List Bucket
merge_fuel zero factor buckets = []
merge_fuel (suc fuel) factor [] = []
merge_fuel (suc fuel) factor (b ∷ bs) =
    merge_group b (take factor (b ∷ bs)) ∷ merge_fuel fuel factor (drop factor (b ∷ bs))

unfoldable pub merge_every : List Bucket → ℕ → List Bucket
unfolding merge_fuel
merge_every buckets factor = merge_fuel (length buckets) factor buckets

unfoldable pub merge : RunStrip → RunStrip
merge s = record s { buckets = merge_every s.buckets 2; capacity = s.capacity * 2 }

-- The last bucket with one call more.
unfoldable pub bump_last : List Bucket → List Bucket
bump_last [] = []
bump_last (b ∷ []) = record b { calls = b.calls + 1 } ∷ []
bump_last (b ∷ c ∷ bs) = b ∷ bump_last (c ∷ bs)

abbrev new_bucket : String → String → ℕ → Bucket
new_bucket item_id method capacity = record {
  item_id = item_id;
  calls = 1;
  failures = 0;
  slowest = 0;
  method = if nat_eq capacity 1 then some method else none;
}

-- Whether the last bucket has room.
unfoldable pub has_room : List Bucket → ℕ → Bool
has_room buckets capacity = elim (last? buckets) [ none ↦ false | some b ↦ ltb b.calls capacity ]

abbrev pub place_last : RunStrip → RunStrip
place_last s = record s { buckets = bump_last s.buckets }

abbrev pub place_new : String → String → RunStrip → RunStrip
place_new item_id method s = record s {
  buckets = s.buckets ++ new_bucket item_id method s.capacity ∷ [];
}

-- `push` calls itself after a merge; none is a run out of fuel.
unfoldable pub push_fuel : ℕ → String → String → RunStrip → Option RunStrip
unfolding has_room
push_fuel zero item_id method s = none
push_fuel (suc fuel) item_id method s =
    let again = push_fuel fuel item_id method (merge s) in
    if has_room s.buckets s.capacity
    then some (place_last s)
    else (if leb max_slots (length s.buckets) then again else some (place_new item_id method s))

-- One merge halves the buckets, so the call after it has room.
unfoldable pub push : String → String → RunStrip → RunStrip
push item_id method s = get_or (push_fuel 2 item_id method s) s

abbrev pub update_at : ℕ → (Bucket → Bucket) → List Bucket → List Bucket
update_at i f [] = []
update_at zero f (b ∷ bs) = f b ∷ bs
update_at (suc i) f (b ∷ bs) = b ∷ update_at i f bs

-- The branch of `add` for a call that has not been seen.
unfoldable pub arrive : String → String → RunStrip → RunStrip
arrive item_id method s = push item_id method (record s {
  of = Dict.insert item_id (record { ordinal = s.calls; failed = false; duration = none }) s.of;
  calls = s.calls + 1;
  methods = Dict.insert method (get_or (Dict.lookup method s.methods) 0 + 1) s.methods;
})

-- Whether the call says something that is not yet counted.
abbrev pub fails_now : MethodCall → Seen → Bool
fails_now call seen = is_some call.error && not seen.failed

abbrev pub times_now : MethodCall → Seen → Bool
times_now call seen = is_some call.duration_ms && not (is_some seen.duration)

abbrev note_seen : MethodCall → Seen → Seen
note_seen call seen = record seen {
  failed = seen.failed || fails_now call seen;
  duration = if times_now call seen then call.duration_ms else seen.duration;
}

abbrev note_bucket : MethodCall → Seen → Bucket → Bucket
note_bucket call seen b = record b {
  failures = if fails_now call seen then b.failures + 1 else b.failures;
  slowest = if times_now call seen then max b.slowest (get_or call.duration_ms 0) else b.slowest;
}

-- The rest of `add`: a failure and a duration are each counted once, in the call's bucket.
unfoldable pub note : String → MethodCall → Seen → RunStrip → RunStrip
note item_id call seen s =
    let at = seen.ordinal / s.capacity in
    if ltb at (length s.buckets)
    then record s {
      of = Dict.insert item_id (note_seen call seen) s.of;
      failures = if fails_now call seen then s.failures + 1 else s.failures;
      buckets = update_at at (note_bucket call seen) s.buckets;
    }
    else s

abbrev note_found : String → MethodCall → RunStrip → RunStrip
note_found item_id call s = elim (Dict.lookup item_id s.of) [
  | none ↦ s
  | some seen ↦ note item_id call seen s
]

unfoldable pub add_call : String → MethodCall → RunStrip → RunStrip
unfolding arrive note
add_call item_id call s =
    note_found item_id call (if Dict.has item_id s.of then s else arrive item_id (call_name call) s)

unfoldable pub add : ConsoleItem → RunStrip → RunStrip
unfolding add_call
add item s = elim item.call [ none ↦ s | some call ↦ add_call item.id call s ]

pub data Mode : Type 0 where
  ticks bars : Mode

pub record StripView : Type 0 where
  pub mode : Mode
  pub slots : List Bucket

-- `Math.ceil(n / slots)`
abbrev pub ceil_div : ℕ → ℕ → ℕ
ceil_div n slots = (n + slots - 1) / slots

unfoldable pub merged : ℕ → List Bucket → List Bucket
merged factor bs = if leb factor 1 then bs else merge_every bs factor

-- Only a mark that is one call can name one.
abbrev pub slot_of : Bool → Bucket → Bucket
slot_of single b = record b { method = if single then b.method else none }

unfoldable pub draw : ℕ → RunStrip → StripView
unfolding merged
draw slots s =
    let factor = ceil_div (length s.buckets) slots in
    let single = nat_eq s.capacity 1 && nat_eq factor 1 in
    record {
      mode = if single then Mode.ticks else Mode.bars;
      slots = map (slot_of single) (merged factor s.buckets);
    }

unfoldable pub view : ℕ → RunStrip → StripView
unfolding draw
view slots s =
    if nat_eq slots 0 || is_nil s.buckets
    then record { mode = Mode.ticks; slots = [] }
    else draw slots s

abbrev pub bar_min_height : ℕ
bar_min_height = 3

abbrev pub bar_max_height : ℕ
bar_max_height = 11

-- `Math.round(3 + fraction * 8)` with the fraction `slowest / run_slowest`, at most 1, over the
-- rational numbers.
unfoldable pub bar_height : ℕ → Option ℕ → ℕ
bar_height slowest none = bar_min_height
bar_height slowest (some run_slowest) =
    if leb run_slowest 0 || leb slowest 0
    then bar_min_height
    else max bar_min_height (
        (2 * bar_min_height * run_slowest
          + 2 * (bar_max_height - bar_min_height) * min slowest run_slowest
          + run_slowest)
        / (2 * run_slowest))
