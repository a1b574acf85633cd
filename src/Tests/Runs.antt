-- ===== src/Tests/Runs.antt =====
-- The theorems on runs, their strip and their notices, at the example run.
use kaja.Prelude.{false, true, none, filter, ◌≡◌, ◌≤◌, refl, arith, some, [], ◌∷◌, any, length}
use kaja.Prelude.Dict
use kaja.Run.{item_in_flight}
use kaja.Value.{Value, Fields}
use kaja.LoopKey.{
  loop_key, find_first, find, find_nested, identifying, identifying_text, truncate, test, codes_eq,
  codes_end, is_zero_text, some_zeros, all_zeros,
}
use kaja.LoopKey.Bounds.{text_length-loop_key-le}
use kaja.Prelude.Text.{text_length}
use kaja.Run.{RunSelection}
use kaja.Group.Notices.{failure_notices}
use kaja.Group.Stated.{stated, item_fails, stated-failure_notices}
use kaja.Group.Rows.{follow_selection}
use kaja.Group.Follows.{is_among, follow_selection-among}
use kaja.Run.Stats
use kaja.Run.Stats.{stats_status, in_flight}
use kaja.Run.Verdict
use kaja.Run.Verdict.{latest, stats_status-arrive, in_flight-arrive}
use kaja.Strip
use kaja.Strip.{push_fuel, RunStrip, bucket_calls, bucket_failures, view, bar_height}
use kaja.Strip.Marks.{push_fuel-add_all, add_all, IsConsistent, add_all-IsConsistent}
use kaja.Strip.Drawn.{view-add_all}
use kaja.Group.{Group, new_group, append}
use kaja.Group.Notices.{late_failures}
use kaja.Group.Bounds.{late_failures-append-drawing, new_group-IsSound}
use kaja.Tests.{started_run, arrivals, drawn_item}

stats_status-arrive_example :
    stats_status (Verdict.arrive arrivals Stats.empty)
    ≡ Stats.worst_status (Dict.values (latest arrivals []))
stats_status-arrive_example = stats_status-arrive arrivals

in_flight-arrive_example :
    in_flight (Verdict.arrive arrivals Stats.empty)
    ≡ any item_in_flight (Dict.values (latest arrivals []))
in_flight-arrive_example = in_flight-arrive arrivals

add_all-IsConsistent_example : IsConsistent (add_all arrivals Strip.empty)
add_all-IsConsistent_example = add_all-IsConsistent arrivals

view-add_all_example :
    (length (view 100 (add_all arrivals Strip.empty)).slots ≤ 100)
    × (bucket_calls (view 100 (add_all arrivals Strip.empty)).slots
        ≡ (add_all arrivals Strip.empty).calls)
    × (bucket_failures (view 100 (add_all arrivals Strip.empty)).slots
        ≡ (add_all arrivals Strip.empty).failures)
view-add_all_example = view-add_all 100 arrivals (omega arith)

abbrev fresh_group : Group
fresh_group = new_group started_run

late_failures-append-drawing_example : late_failures (append 1 drawn_item fresh_group).0 ≡ []
unfolding new_group
late_failures-append-drawing_example =
    late_failures-append-drawing 1 drawn_item fresh_group (new_group-IsSound started_run) refl refl

stated-failure_notices_example :
    stated (failure_notices arrivals) ≡ length (filter item_fails arrivals)
stated-failure_notices_example = stated-failure_notices arrivals

-- A run that is gone is selected, and another run is there.
follow_selection-among_example :
    (selection : RunSelection) × (follow_selection []
        (some (record { run_id = "r0"; item_id = none }))
        (fresh_group ∷ [])
        false
        true
      ≡ some selection)
    × (is_among (fresh_group ∷ []) selection ≡ true)
follow_selection-among_example =
    follow_selection-among [] (some (record { run_id = "r0"; item_id = none })) (fresh_group ∷ [])
      false true (omega arith)

-- The request of a call for one user, in an envelope.
abbrev get_user_input : Value
get_user_input =
    Value.obj (
      Fields.field "user" (Value.obj (Fields.field "id" (Value.str "alice") Fields.end)) Fields.end)

get_user_input-loop_key : loop_key get_user_input ≡ some "alice"
unfolding loop_key find_first find find_nested identifying identifying_text truncate test codes_eq
    codes_end is_zero_text some_zeros all_zeros
get_user_input-loop_key = refl

text_length-loop_key-le_example : text_length "alice" ≤ 22
text_length-loop_key-le_example = text_length-loop_key-le get_user_input get_user_input-loop_key

push_fuel-add_all_example :
    (t : RunStrip) × (push_fuel 2 "i4" "Users.GetUser" (add_all arrivals Strip.empty) ≡ some t)
push_fuel-add_all_example = push_fuel-add_all arrivals "i4" "Users.GetUser"
