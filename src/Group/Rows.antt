-- ===== src/Group/Rows.antt =====
-- ui/src/runs.ts: the rows of the calls view, the counts of printed lines, the view that a run
-- opens in and the selection that follows it.
use kaja.Prelude.{
  ℕ, String, Bool, true, false, not, ◌&&◌, ◌||◌, Option, none, some, List, leb, nat_eq, is_nil,
  length, get_elem?, any, last?, is_some, if◌then◌else◌, ◌==◌, filter,
}
use kaja.Run.{
  ConsoleItem, LogLevel, LogFloor, log_floor_level, printed_level, rank, ConsoleView, RunSelection,
}
use kaja.Group.{Group, group_running}

-- Whether an item is a row: a call, or a printed line at the floor or above it.
unfoldable pub is_row : LogLevel → ConsoleItem → Bool
unfolding printed_level
is_row least item =
    if is_some item.call then true else item.printed && leb (rank least) (rank (printed_level item))

abbrev pub row_at : List ConsoleItem → LogLevel → ℕ → Bool
row_at heap least ref = elim (get_elem? heap ref) [ none ↦ false | some item ↦ is_row least item ]

unfoldable pub call_rows : List ConsoleItem → Group → LogFloor → List ℕ
unfolding log_floor_level
call_rows heap g floor = elim (log_floor_level floor) [
  | none ↦ g.calls
  | some least ↦
      (let rows = filter (row_at heap least) g.items in
        if is_nil g.printed
        then g.calls
        else (if nat_eq (length rows) (length g.calls) then g.calls else rows))
]

abbrev is_error_at : List ConsoleItem → ℕ → Bool
is_error_at heap ref = elim (get_elem? heap ref) [
  | none ↦ false
  | some item ↦ nat_eq (rank (printed_level item)) 3
]

pub record PrintedCounts : Type 0 where
  pub lines : ℕ
  pub errors : ℕ

unfoldable pub printed_counts : List ConsoleItem → Group → PrintedCounts
unfolding printed_level
printed_counts heap g = record {
  lines = length g.printed;
  errors = length (filter (is_error_at heap) g.printed);
}

unfoldable pub default_view : Option Group → ConsoleView
default_view none = ConsoleView.calls
default_view (some g) = if g.drew then ConsoleView.canvas else ConsoleView.calls

pub data Presentation : Type 0 where
  present wait drop : Presentation

unfoldable pub present_run : Option Group → Presentation
present_run none = Presentation.wait
present_run (some g) =
    if g.drew
    then Presentation.present
    else (if group_running g then Presentation.wait else Presentation.drop)

abbrev item_id_at : List ConsoleItem → Option ℕ → Option String
item_id_at heap none = none
item_id_at heap (some ref) = elim (get_elem? heap ref) [ none ↦ none | some item ↦ some item.id ]

abbrev pub newest_selection : List ConsoleItem → Group → RunSelection
newest_selection heap newest = record {
  run_id = newest.run.id;
  item_id = item_id_at heap (last? newest.calls);
}

-- Whether the selection stays where it is.
abbrev pub keeps_selection : List Group → Group → Bool → Bool → RunSelection → Bool
keeps_selection groups newest is_new_run tailing current =
    not is_new_run
    && any (λ (g : Group). g.run.id == current.run_id) groups
    && (not (current.run_id == newest.run.id) || not tailing)

unfoldable pub follow_selection :
    List ConsoleItem → Option RunSelection → List Group → Bool → Bool → Option RunSelection
follow_selection heap current groups is_new_run tailing = elim (last? groups) [
  | none ↦ none
  | some newest ↦ elim current [
    | none ↦ some (newest_selection heap newest)
    | some selection ↦
        if keeps_selection groups newest is_new_run tailing selection
        then some selection
        else some (newest_selection heap newest)
  ]
]
