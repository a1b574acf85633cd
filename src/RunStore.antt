-- ===== src/RunStore.antt =====
-- ui/src/runStore.ts and ui/src/httpEnvelope.ts: what is stored of an item of a file's console.
pub mod Files
pub mod Archive
pub mod Budget
pub mod Settled
pub mod Again
pub mod Order
pub mod Kept
pub mod Reading
use kaja.Prelude.{
  ℕ, zero, suc, ◌+◌, ◌-◌, ◌*◌, String, Bool, true, false, not, ◌&&◌, ◌||◌, Option, none, some, List,
  [], ◌∷◌, ◌++◌, map, ltb, leb, length, drop, filter, is_some, get_or, if◌then◌else◌, ◌==◌,
}
use kaja.Prelude.Text.{decimal, ◌+++◌}
use kaja.Prelude.Dict.{Dict}
use kaja.Value.{Value, Fields}
use kaja.Call.{MethodCall, ErrorValue, MessageType, FieldInfo}
use kaja.Block.{Block, AskBlock, ApproveBlock, TableBlock, Decision, is_awaiting_user}
use kaja.Run.{Run, ConsoleItem, Log}

pub record StoredCall : Type 0 where
  pub app_name : String
  pub service : String
  pub method : String
  pub input : Value
  pub output : Option Value
  pub stream_outputs : Option (List Value)
  pub error : Option ErrorValue
  pub request_headers : Option (Dict String)
  pub response_headers : Option (Dict String)
  pub upstream_request_headers : Option (Dict String)
  pub upstream_response_headers : Option (Dict String)
  pub url : Option String
  pub timestamp : ℕ
  pub duration_ms : Option ℕ

pub record StoredItem : Type 0 where
  pub id : String
  pub timestamp : ℕ
  pub call : Option StoredCall
  pub logs : Option (List Log)
  pub printed : Bool
  pub block : Option Block

pub record StoredRun : Type 0 where
  pub run : Run
  pub items : List StoredItem

pub record StoredFile : Type 0 where
  pub runs : List StoredRun
  pub stored_at : ℕ

abbrev single_field : List FieldInfo → Option FieldInfo
single_field [] = none
single_field (field ∷ []) = if field.is_http_payload then some field else none
single_field (field ∷ other ∷ fields) = none

unfoldable pub envelope_field : Option MessageType → Option FieldInfo
envelope_field none = none
envelope_field (some message_type) = single_field message_type.fields

-- `value[name]` of an object; a name that is not there gives `undefined`.
abbrev property : String → Fields → Value
property name Fields.end = Value.undefined
property name (Fields.field key value fields) = if key == name then value else property name fields

-- The name is never an index or `length`, so an array has nothing under it.
abbrev unwrap_field : FieldInfo → Value → Value
unwrap_field field (Value.obj fields) = property field.local_name fields
unwrap_field field (Value.arr _) = Value.undefined
unwrap_field field value = value

unfoldable pub unwrap_envelope : Option MessageType → Value → Value
unfolding envelope_field
unwrap_envelope message_type value = elim (envelope_field message_type) [
  | none ↦ value
  | some field ↦ unwrap_field field value
]

-- A response that is `undefined` is an absent one.
abbrev pub defined : Value → Option Value
defined Value.undefined = none
defined value = some value

abbrev pub map_option : (Value → Value) → Option Value → Option Value
map_option f none = none
map_option f (some value) = defined (f value)

abbrev pub map_options : (Value → Value) → Option (List Value) → Option (List Value)
map_options f none = none
map_options f (some values) = some (map f values)

-- A thrown `Error` is stored as an object with its message and its name.
unfoldable pub serializable_error : ErrorValue → ErrorValue
serializable_error error = elim error.thrown [
  | none ↦ error
  | some name ↦ record {
    truthy = true;
    status = none;
    code = some name;
    message = error.message;
    thrown = none;
  }
]

abbrev pub stored_error : Option ErrorValue → Option ErrorValue
stored_error none = none
stored_error (some error) = some (serializable_error error)

unfoldable pub to_stored_call : MethodCall → StoredCall
unfolding unwrap_envelope serializable_error
to_stored_call call = record {
  app_name = call.app_name;
  service = call.service;
  method = call.method;
  input = call.input;
  output = map_option (unwrap_envelope call.output_type) call.output;
  stream_outputs = map_options (unwrap_envelope call.output_type) call.stream_outputs;
  error = stored_error call.error;
  request_headers = call.request_headers;
  response_headers = call.response_headers;
  upstream_request_headers = call.upstream_request_headers;
  upstream_response_headers = call.upstream_response_headers;
  url = call.url;
  timestamp = call.timestamp;
  duration_ms = call.duration_ms;
}

unfoldable pub from_stored_call : StoredCall → MethodCall
unfolding decimal
from_stored_call stored = record {
  id = stored.service +++ "." +++ stored.method +++ ":" +++ decimal stored.timestamp;
  app_name = stored.app_name;
  service = stored.service;
  method = stored.method;
  input = stored.input;
  output = stored.output;
  output_type = none;
  stream_outputs = stored.stream_outputs;
  stream_complete = is_some stored.stream_outputs;
  error = stored.error;
  request_headers = stored.request_headers;
  response_headers = stored.response_headers;
  upstream_request_headers = stored.upstream_request_headers;
  upstream_response_headers = stored.upstream_response_headers;
  url = stored.url;
  timestamp = stored.timestamp;
  duration_ms = stored.duration_ms;
}

abbrev pub expired_table : TableBlock → TableBlock
expired_table block = record block { live = false; loading = false; error = none; expired = true }

-- A block that waits for the user is stored as settled, and a live table as what it had.
unfoldable pub stored_block : Block → Block
stored_block (Block.ask block) =
    if not (is_some block.answer) && not block.cancelled
    then Block.ask (record block { cancelled = true })
    else Block.ask block
stored_block (Block.approve block) =
    if not (is_some block.decision)
    then Block.approve (record block { decision = some Decision.rejected })
    else Block.approve block
stored_block (Block.table block) =
    if block.live && not block.exhausted
    then Block.table (expired_table block)
    else Block.table block
stored_block (Block.text text) = Block.text text
stored_block (Block.code code language) = Block.code code language

abbrev pub stored_calls : Option MethodCall → Option StoredCall
stored_calls none = none
stored_calls (some call) = some (to_stored_call call)

abbrev pub stored_blocks : Option Block → Option Block
stored_blocks none = none
stored_blocks (some block) = some (stored_block block)

unfoldable pub to_stored_item : ConsoleItem → StoredItem
unfolding to_stored_call stored_block
to_stored_item item = record {
  id = item.id;
  timestamp = item.timestamp;
  call = stored_calls item.call;
  logs = item.logs;
  printed = item.printed;
  block = stored_blocks item.block;
}
