-- ===== src/Group/Notices.antt =====
-- ui/src/runs.ts: the failures that a script never said anything about, stated once for each kind.
use kaja.Prelude.{
  ℕ, ◌+◌, String, Option, none, some, List, [], ◌∷◌, ltb, leb, get_elem?, get_or, filter,
  if◌then◌else◌,
}
use kaja.Prelude.Dict
use kaja.Prelude.Dict.{Dict}
use kaja.Prelude.Text.{◌+++◌, decimal, trim, first_line_of, text_length, text_take, text_is_empty}
use kaja.Call.{MethodCall, ErrorValue, call_name}
use kaja.Run.{ConsoleItem}
use kaja.Group.{Group, Failed}

pub record FailureNotice : Type 0 where
  pub item_id : String
  pub method : String
  pub count : ℕ
  pub code : Option String
  pub message : Option String

-- A code that is short enough to say.
abbrev code_text : Option String → Option String
code_text none = none
code_text (some code) =
    if ltb 0 (text_length code)
    then (if leb (text_length code) 24 then some code else none)
    else none

unfoldable pub failure_code : ErrorValue → Option String
unfolding decimal
failure_code e = elim e.status [
  | none ↦ code_text e.code
  | some status ↦ if ltb 0 status then some (decimal status) else code_text e.code
]

abbrev cut_line : String → String
cut_line line = if ltb 120 (text_length line) then text_take 119 line +++ "…" else line

unfoldable pub failure_message : ErrorValue → Option String
failure_message e = elim e.message [
  | none ↦ none
  | some message ↦
      if text_is_empty message then none else some (cut_line (first_line_of (trim message)))
]

-- What makes two failures the same.
unfoldable pub notice_key : MethodCall → ErrorValue → String
unfolding failure_code failure_message
notice_key call e =
    call_name call +++ " " +++ get_or (failure_code e) "" +++ " " +++ get_or (failure_message e) ""

unfoldable pub first_notice : String → MethodCall → ErrorValue → FailureNotice
unfolding failure_code failure_message
first_notice item_id call e = record {
  item_id = item_id;
  method = call_name call;
  count = 1;
  code = failure_code e;
  message = failure_message e;
}

unfoldable pub add_notice :
    String → MethodCall → ErrorValue → Dict FailureNotice → Dict FailureNotice
unfolding notice_key first_notice
add_notice item_id call e notices = elim (Dict.lookup (notice_key call e) notices) [
  | none ↦ Dict.insert (notice_key call e) (first_notice item_id call e) notices
  | some known ↦ Dict.insert (notice_key call e) (record known { count = known.count + 1 }) notices
]

-- `if (!item.call?.error) continue`
unfoldable pub note_item : ConsoleItem → Dict FailureNotice → Dict FailureNotice
unfolding add_notice
note_item item notices = elim item.call [
  | none ↦ notices
  | some call ↦ elim call.error [
    | none ↦ notices
    | some e ↦ if e.truthy then add_notice item.id call e notices else notices
  ]
]

unfoldable pub notices_from : List ConsoleItem → Dict FailureNotice → Dict FailureNotice
unfolding note_item
notices_from [] notices = notices
notices_from (item ∷ items) notices = notices_from items (note_item item notices)

unfoldable pub failure_notices : List ConsoleItem → List FailureNotice
unfolding notices_from
failure_notices items = Dict.values (notices_from items [])

abbrev pub items_at : List ConsoleItem → List Failed → List ConsoleItem
items_at heap [] = []
items_at heap (failed ∷ rest) = elim (get_elem? heap failed.item) [
  | none ↦ items_at heap rest
  | some item ↦ item ∷ items_at heap rest
]

-- The failures after the last thing drawn.
unfoldable pub late_failures : Group → List Failed
late_failures g = filter (λ failed. ltb g.drawn_at failed.seq) (Dict.values g.failed)

unfoldable pub unreported : List ConsoleItem → Group → List FailureNotice
unfolding late_failures failure_notices
unreported heap g = failure_notices (items_at heap (late_failures g))
