-- ===== src/Call.antt =====
-- ui/src/kaja.ts: a method call as the console sees it. Only the names of its service and its
-- method are read; what it carries the console holds, counts, stores and lets go.
use kaja.Prelude.{ℕ, String, Bool, false, not, Option, List, is_some, if◌then◌else◌}
use kaja.Prelude.Text.{◌+++◌}
use kaja.Prelude.Dict.{Dict}
use kaja.Value.{Value}

-- What the console reads of an error: whether the value is truthy, its `status` where that is a
-- number, and its `code` and `message` where those are texts; and the `name` of a thrown `Error`.
pub record ErrorValue : Type 0 where
  pub truthy : Bool
  pub status : Option ℕ
  pub code : Option String
  pub message : Option String
  pub thrown : Option String

-- A field of a message type, as far as the envelope of an HTTP payload is read from it.
pub record FieldInfo : Type 0 where
  pub local_name : String
  pub is_http_payload : Bool

pub record MessageType : Type 0 where
  pub fields : List FieldInfo

pub record MethodCall : Type 0 where
  pub id : String
  pub app_name : String
  pub service : String
  pub method : String
  pub input : Value
  pub output : Option Value
  pub output_type : Option MessageType
  pub stream_outputs : Option (List Value)
  pub stream_complete : Bool
  pub error : Option ErrorValue
  pub request_headers : Option (Dict String)
  pub response_headers : Option (Dict String)
  pub upstream_request_headers : Option (Dict String)
  pub upstream_response_headers : Option (Dict String)
  pub url : Option String
  pub timestamp : ℕ
  pub duration_ms : Option ℕ

unfoldable pub is_call_in_flight : MethodCall → Bool
is_call_in_flight c =
    if is_some c.error
    then false
    else (if is_some c.stream_outputs then not c.stream_complete else not (is_some c.output))

-- `${service.name}.${method.name}`
abbrev pub call_name : MethodCall → String
call_name c = c.service +++ "." +++ c.method
