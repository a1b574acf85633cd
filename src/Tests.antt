-- ===== src/Tests.antt =====
-- Runs, calls and files that the examples of the modules below are about.
pub mod Runs
pub mod Files
pub mod Sidebar
pub mod Tables
pub mod Store
pub mod Memory
pub mod Questions
use kaja.Prelude.{ℕ, String, Option, none, some, List, [], ◌∷◌, false, true}
use kaja.Value.{Value}
use kaja.Call.{MethodCall, ErrorValue}
use kaja.Run.{Run, ConsoleItem}
use kaja.Block.{Block}

abbrev pub started_run : Run
started_run = record {
  id = "r1";
  title = "List users";
  number = none;
  file_id = some "users.ts";
  started_at = 1000;
  origin = none;
  duration_ms = none;
  stale = false;
  payloads_expired = false;
}

abbrev pub issued_call : MethodCall
issued_call = record {
  id = "c1";
  app_name = "users";
  service = "Users";
  method = "GetUser";
  input = Value.undefined;
  output = none;
  output_type = none;
  stream_outputs = none;
  stream_complete = false;
  error = none;
  request_headers = none;
  response_headers = none;
  upstream_request_headers = none;
  upstream_response_headers = none;
  url = none;
  timestamp = 1000;
  duration_ms = none;
}

abbrev pub not_found : ErrorValue
not_found = record {
  truthy = true;
  status = some 404;
  code = none;
  message = some "no such user";
  thrown = none;
}

abbrev pub failed_call : MethodCall
failed_call = record issued_call { error = some not_found; duration_ms = some 12 }

abbrev pub settled_call : MethodCall
settled_call = record issued_call {
  id = "c2";
  output = some Value.undefined;
  duration_ms = some 30;
}

abbrev pub item_of : String → MethodCall → ConsoleItem
item_of id call = record {
  id = id;
  run_id = "r1";
  timestamp = call.timestamp;
  call = some call;
  logs = none;
  block = none;
  printed = false;
  key = none;
  payloads_dropped = false;
}

abbrev pub drawn_item : ConsoleItem
drawn_item = record (item_of "i3" issued_call) { call = none; block = some (Block.text "done") }

-- A call that is issued, another that settles, and the first again as it fails.
abbrev pub arrivals : List ConsoleItem
arrivals = item_of "i1" issued_call ∷ item_of "i2" settled_call ∷ item_of "i1" failed_call ∷ []
