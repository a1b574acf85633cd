-- ===== src/FileConsole/Record.antt =====
-- ui/src/consoles.ts: what a run reports to the console of its file. The call that the client
-- hands over again is the object that the console holds, so its content takes the place of what the
-- heap held. A fresh item's identifier is an argument.
use kaja.Prelude.{
  ℕ, ◌+◌, ◌-◌, String, Bool, true, false, Option, none, some, List, [], ◌∷◌, ◌++◌, ltb, leb, length,
  get_elem?, set, drop, any, if◌then◌else◌, ◌==◌,
}
use kaja.Prelude.Dict
use kaja.Value.{Value}
use kaja.LoopKey.{loop_key}
use kaja.Call.{MethodCall}
use kaja.Block.{Block}
use kaja.Run.{ConsoleItem, Log, LogLevel}
use kaja.FileConsole.{FileConsole, ItemPlace, append_item, patch_at, set_item}

abbrev pub max_payloads_per_file : ℕ
max_payloads_per_file = 500

abbrev pub call_item : String → String → MethodCall → ConsoleItem
call_item id run_id call = record {
  id = id;
  run_id = run_id;
  timestamp = call.timestamp;
  call = some call;
  logs = none;
  block = none;
  printed = false;
  key = loop_key call.input;
  payloads_dropped = false;
}

-- What a call keeps when its payload is let go.
abbrev pub without_payload : MethodCall → MethodCall
without_payload call = record call {
  input = Value.undefined;
  output = none;
  stream_outputs = elim call.stream_outputs [ none ↦ none | some outputs ↦ some [] ];
}

abbrev pub release_item : ConsoleItem → ConsoleItem
release_item item = elim item.call [
  | none ↦ item
  | some call ↦ record item { call = some (without_payload call); payloads_dropped = true }
]

abbrev pub release_at : Option ℕ → FileConsole → FileConsole
release_at none c = c
release_at (some ref) c = elim (get_elem? c.item_heap ref) [
  | none ↦ c
  | some item ↦ set_item ref (release_item item) c
]

-- The slot at the head of the queue; past the end there is nothing.
abbrev pub slot_at : List (Option ℕ) → ℕ → Option ℕ
slot_at holding i = elim (get_elem? holding i) [ none ↦ none | some slot ↦ slot ]

-- The head moves on; what lies before it is cut off once it is long.
abbrev pub advance : FileConsole → FileConsole
advance c =
    let holding = set c.holding c.held none in
    let held = c.held + 1 in
    if ltb 4096 held
    then record c { holding = drop held holding; held = 0 }
    else record c { holding = holding; held = held }

unfoldable pub hold : ℕ → FileConsole → FileConsole
hold ref c =
    let pushed : FileConsole = record c { holding = c.holding ++ some ref ∷ [] } in
    if leb (length pushed.holding - pushed.held) max_payloads_per_file
    then pushed
    else release_at (slot_at pushed.holding pushed.held) (advance pushed)

abbrev pub known_call : ℕ → MethodCall → FileConsole → FileConsole
known_call ref call c = elim (get_elem? c.item_heap ref) [
  | none ↦ c
  | some item ↦
      (let item' : ConsoleItem = record item { call = some call } in
        elim (Dict.lookup item.run_id c.groups) [
          | none ↦ set_item ref item' c
          | some group_ref ↦ patch_at group_ref ref item' (set_item ref item' c)
        ])
]

abbrev pub after_append : String → ℕ → FileConsole × Bool → FileConsole
after_append call_id ref (c, true) =
    hold ref (record c { by_call = Dict.insert call_id ref c.by_call })
after_append call_id ref (c, false) = record c { ignored = c.ignored ++ call_id ∷ [] }

unfoldable pub record_call : String → String → MethodCall → FileConsole → FileConsole
unfolding append_item patch_at hold
record_call fresh run_id call c = elim (Dict.lookup call.id c.by_call) [
  | some ref ↦ known_call ref call c
  | none ↦
      if any (λ id. id == call.id) c.ignored
      then c
      else after_append call.id (length c.item_heap)
          (append_item run_id (call_item fresh run_id call) c)
]

abbrev block_item : String → String → Block → ℕ → ConsoleItem
block_item id run_id block now = record {
  id = id;
  run_id = run_id;
  timestamp = now;
  call = none;
  logs = none;
  block = some block;
  printed = false;
  key = none;
  payloads_dropped = false;
}

abbrev pub known_block : ItemPlace → Block → FileConsole → FileConsole
known_block place block c = elim (get_elem? c.item_heap place.item) [
  | none ↦ c
  | some item ↦
      (let item' : ConsoleItem = record item { block = some block } in
        patch_at place.group place.item item' (set_item place.item item' c))
]

unfoldable pub record_block : String → String → Block → ℕ → FileConsole → FileConsole
unfolding append_item patch_at
record_block run_id block_id block now c = elim (Dict.lookup block_id c.by_item) [
  | some place ↦ known_block place block c
  | none ↦ (append_item run_id (block_item block_id run_id block now) c).0
]

abbrev logs_item : String → String → List Log → Bool → ℕ → ConsoleItem
logs_item id run_id logs printed now = record {
  id = id;
  run_id = run_id;
  timestamp = now;
  call = none;
  logs = some logs;
  block = none;
  printed = printed;
  key = none;
  payloads_dropped = false;
}

unfoldable pub record_logs : String → String → List Log → ℕ → FileConsole → FileConsole
unfolding append_item
record_logs fresh run_id logs now c =
    (append_item run_id (logs_item fresh run_id logs false now) c).0

unfoldable pub record_printed : String → String → LogLevel → String → ℕ → FileConsole → FileConsole
unfolding append_item
record_printed fresh run_id level message now c =
    (append_item run_id
      (logs_item fresh run_id (record { level = level; message = message } ∷ []) true now) c).0
