-- ===== src/Live/Pulls.antt =====
-- ui/src/kaja.ts: how the rows of a live table are pulled from its source. What opening the source
-- gives is an argument; what it yields arrives as an event of its own.
use kaja.Prelude.{
  ℕ, suc, String, Bool, true, false, not, ◌&&◌, ◌||◌, Option, none, some, List, [], ◌∷◌, ◌++◌, leb,
  nat_eq, find?, filter, length, is_some, if◌then◌else◌, ◌==◌,
}
use kaja.Live.{LiveTable, Script, Pull, publish, set_block}
use kaja.Live.Rows.{CellInput, push_row}

abbrev pub remove_pull : ℕ → List Pull → List Pull
remove_pull id pulls = filter (λ (pull : Pull). not (nat_eq pull.id id)) pulls

abbrev pub clear_pulling : ℕ → Option ℕ → Option ℕ
clear_pulling id none = none
clear_pulling id (some current) = if nat_eq current id then none else some current

-- A pull is over, and `pulling` is let go where it is still this one.
unfoldable pub end_pull : ℕ → LiveTable → LiveTable
end_pull id t = record t { pulls = remove_pull id t.pulls; pulling = clear_pulling id t.pulling }

-- The `finally` of a fill that was not superseded.
unfoldable pub finish_fill : ℕ → LiveTable → LiveTable
unfolding end_pull
finish_fill id t = end_pull id (publish (set_block (record t.block { loading = false }) t))

unfoldable pub fail_fill : ℕ → String → LiveTable → LiveTable
unfolding finish_fill
fail_fill id message t =
    finish_fill id
      (set_block (record t.block { error = some message }) (record t { restart = t.restartable }))

-- The test of the loop: it waits for the next row, or has as many as it wants.
unfoldable pub continue_fill : Pull → LiveTable → LiveTable
unfolding finish_fill
continue_fill pull t = if leb pull.want (length t.block.rows) then finish_fill pull.id t else t

abbrev pub open_source : Pull → Option String → LiveTable → LiveTable
open_source pull none t = continue_fill pull (record t { iterating = true })
open_source pull (some message) t =
    if t.iterating then continue_fill pull t else fail_fill pull.id message t

abbrev pub new_pull : ℕ → LiveTable → Pull
new_pull want t = record { id = t.next_pull; want = want; generation = t.generation }

-- A new pull, that `pulling` names from now on.
unfoldable pub begin_pull : ℕ → LiveTable → LiveTable
begin_pull want t = publish (
    set_block (record t.block { loading = true; error = none })
      (record t {
        pulls = t.pulls ++ new_pull want t ∷ [];
        pulling = some t.next_pull;
        next_pull = suc t.next_pull;
      }))

-- `#fill` as far as its first wait. `opening` is what the source throws where it is opened.
unfoldable pub start_fill : ℕ → Option String → LiveTable → LiveTable
unfolding begin_pull continue_fill fail_fill
start_fill want opening t = open_source (new_pull want t) opening (begin_pull want t)

unfoldable pub restart_source : String → LiveTable → LiveTable
restart_source search t =
    set_block
      (record t.block {
        rows = [];
        exhausted = false;
        loaded_search = some search;
        cells = none;
        total = none;
      })
      (record t {
        search = search;
        restart = false;
        iterating = false;
        generation = suc t.generation;
        cells = [];
        row_revision = [];
      })

abbrev pub is_new_search : LiveTable → String → Bool
is_new_search t search = t.block.server_search && not (t.search == search)

-- A pull that joins one on its way waits for it and changes nothing.
unfoldable pub pull_table : String → ℕ → Option String → LiveTable → LiveTable × Bool
unfolding start_fill restart_source
pull_table search want opening t =
    if not (t.held && t.has_open)
    then (t, false)
    else (if is_new_search t search || t.restart
        then (start_fill want opening (restart_source search t), true)
        else (if is_some t.pulling then (t, true) else (start_fill want opening t, true)))

-- What a source gives when it is asked for its next row.
pub data Answer : Type 0 where
  row : List CellInput → Answer
  done : Answer
  threw : String → Answer

module _ ⦃script : Script⦄ where
  unfoldable pub take_answer : Pull → Answer → LiveTable → LiveTable
  unfolding push_row continue_fill finish_fill fail_fill
  take_answer pull (Answer.row cells) t = continue_fill pull (push_row cells t)
  take_answer pull Answer.done t =
      finish_fill pull.id (set_block (record t.block { exhausted = true }) t)
  take_answer pull (Answer.threw message) t = fail_fill pull.id message t

  -- The answer to a pull that a restart superseded is dropped.
  unfoldable pub answer : ℕ → Answer → LiveTable → LiveTable
  unfolding take_answer end_pull
  answer id given t = elim (find? (λ (pull : Pull). nat_eq pull.id id) t.pulls) [
    | none ↦ t
    | some pull ↦
        if nat_eq pull.generation t.generation then take_answer pull given t else end_pull pull.id t
  ]
