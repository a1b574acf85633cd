-- ===== src/Run.antt =====
-- ui/src/runs.ts: a run, the items that the console keeps under it, and what an item says of
-- itself: its status, its level and whether it is still in the air.
pub mod Stats
pub mod Verdict
use kaja.Prelude.{
  ℕ, String, Bool, true, false, Option, none, some, List, [], ◌∷◌, ltb, leb, nat_eq, any, is_some,
  if◌then◌else◌,
}
use kaja.Call.{MethodCall, ErrorValue, is_call_in_flight}
use kaja.Block.{Block, is_awaiting_user}

pub data LogLevel : Type 0 where
  level_debug level_info level_warn level_error : LogLevel

-- The numbers of the enumeration, by which levels are compared.
abbrev pub rank : LogLevel → ℕ
rank level_debug = 0
rank level_info = 1
rank level_warn = 2
rank level_error = 3

pub record Log : Type 0 where
  pub level : LogLevel
  pub message : String

pub data Origin : Type 0 where
  agent : Origin

pub record Run : Type 0 where
  pub id : String
  pub title : String
  pub number : Option ℕ
  pub file_id : Option String
  pub started_at : ℕ
  pub origin : Option Origin
  pub duration_ms : Option ℕ
  pub stale : Bool
  pub payloads_expired : Bool

pub record ConsoleItem : Type 0 where
  pub id : String
  pub run_id : String
  pub timestamp : ℕ
  pub call : Option MethodCall
  pub logs : Option (List Log)
  pub block : Option Block
  pub printed : Bool
  pub key : Option String
  pub payloads_dropped : Bool

pub data RunStatus : Type 0 where
  pending streaming success error : RunStatus

abbrev pub status_eq : RunStatus → RunStatus → Bool
status_eq pending pending = true
status_eq streaming streaming = true
status_eq success success = true
status_eq error error = true
status_eq _ _ = false

-- `if (call.error)`: an error counts here if it is truthy.
abbrev pub is_truthy : Option ErrorValue → Bool
is_truthy none = false
is_truthy (some e) = e.truthy

unfoldable pub call_status : MethodCall → RunStatus
call_status c =
    if is_truthy c.error
    then error
    else (if is_some c.stream_outputs
        then (if c.stream_complete
            then (if is_some c.output then success else pending)
            else streaming)
        else (if is_some c.output then success else pending))

unfoldable pub logs_status : List Log → RunStatus
logs_status logs = if any (λ log. nat_eq (rank log.level) 3) logs then error else success

unfoldable pub block_status : Block → RunStatus
unfolding is_awaiting_user
block_status block = if is_awaiting_user block then pending else success

-- What an item with no call and no block says.
abbrev rest_status : Bool → Option (List Log) → RunStatus
rest_status true logs = success
rest_status false none = success
rest_status false (some logs) = logs_status logs

unfoldable pub item_status : ConsoleItem → RunStatus
unfolding call_status block_status
item_status item = elim item.call [
  | some call ↦ call_status call
  | none ↦ elim item.block [
    | some block ↦ block_status block
    | none ↦ rest_status item.printed item.logs
  ]
]

-- The worst level of an item's lines, from `LEVEL_DEBUG` up.
unfoldable pub worst_level : LogLevel → List Log → LogLevel
worst_level worst [] = worst
worst_level worst (log ∷ logs) =
    worst_level (if ltb (rank worst) (rank log.level) then log.level else worst) logs

unfoldable pub printed_level : ConsoleItem → LogLevel
unfolding worst_level
printed_level item = elim item.logs [
  | none ↦ level_debug
  | some logs ↦ worst_level level_debug logs
]

-- The test of `ItemStats.add` for an item that is not over.
unfoldable pub item_in_flight : ConsoleItem → Bool
unfolding is_call_in_flight is_awaiting_user
item_in_flight item = elim item.call [
  | some call ↦ is_call_in_flight call
  | none ↦ elim item.block [ some block ↦ is_awaiting_user block | none ↦ false ]
]

-- A floor on what the calls view shows of the printed lines.
pub data LogFloor : Type 0 where
  off error warn all : LogFloor

unfoldable pub log_floor_level : LogFloor → Option LogLevel
log_floor_level LogFloor.off = none
log_floor_level LogFloor.error = some level_error
log_floor_level LogFloor.warn = some level_warn
log_floor_level LogFloor.all = some level_debug

pub data ConsoleTab : Type 0 where
  request response headers : ConsoleTab

pub data ConsoleView : Type 0 where
  calls canvas : ConsoleView

pub record RunSelection : Type 0 where
  pub run_id : String
  pub item_id : Option String
