-- ===== src/Live/Handed.antt =====
-- ui/src/kaja.ts: what the canvas was last handed of a table.
use kaja.Prelude.{
  ℕ, zero, suc, ltb, ◌≡◌, refl, true, not, ◌||◌, String, Option, none, some, List, [], ◌∷◌, arith,
  find?, filter, is_some, leb, length, nat_eq, Option-cases, inl, inr,
}
use kaja.Block.{CellStatus}
use kaja.Live.{
  Script, has_slot, LiveTable, Task, Outcome, CellRef, Pull, set_cell, clear_failure, write_cell,
  reopen, settle, land, has_failed,
}
use kaja.Live.Cells.{
  begin_work, waits, fill_cell, start_work, start_cell, start_all, pull_cells, admit,
}
use kaja.Live.Rows.{CellInput, Source, push_row, update_row, add_column, set_total, table}
use kaja.Live.Scripts.{Write, run_write, run_writes, script_of}
use kaja.Live.Pulls.{
  Answer, end_pull, finish_fill, fail_fill, continue_fill, new_pull, begin_pull, start_fill,
  restart_source, pull_table, take_answer, answer,
}
use kaja.Live.Steps.{if-kept, start_cell-case, IsBegun}
use kaja.Live.Reach.{TableOperation, perform, perform_all}
use kaja.Live.Attended.Effects.{flies, reopen-block}
use kaja.Live.Attended.Landing.{without_task}
use kaja.Live.Late.{reopen-published}

-- The canvas holds the table's block as it is.
abbrev pub IsHanded : LiveTable → Type 0
IsHanded t = t.published ≡ some t.block

abbrev IsHanding : Script → Type 0
IsHanding script = IsBegun script IsHanded

write_cell-IsHanded :
    (row column revision : ℕ) (text : Option String) (status : Option CellStatus) (t : LiveTable)
    → IsHanded t
    → IsHanded (write_cell row column revision text status t)
unfolding write_cell
write_cell-IsHanded row column revision text status t h = ground (arith, h)

settle-IsHanded :
    (task : Task) (outcome : Outcome) (t : LiveTable)
    → IsHanded t
    → IsHanded (settle task outcome t)
unfolding settle
settle-IsHanded task (Outcome.landed text) t h =
    write_cell-IsHanded task.row task.column task.revision (some text) none t h
settle-IsHanded task (Outcome.failed message) t h =
    write_cell-IsHanded task.row task.column task.revision none
      (some (record { error = some message; retry = is_some task.work }))
      (reopen task.row task.column task.revision task.work t)
      (ground (
        arith,
        h,
        reopen-block task.row task.column task.revision t 0 0 task.work,
        reopen-published task.row task.column task.revision task.work t,
      ))

land-IsHanded :
    (row column revision : ℕ) (outcome : Outcome) (t : LiveTable)
    → IsHanded t
    → IsHanded (land row column revision outcome t)
unfolding land
land-IsHanded row column revision outcome t h =
    elim (Option-cases (find? (flies row column revision) t.running)) [
      | inl gone ↦ rw (gone, land) h
      | inr (task, found) ↦
          rw (found, land) (settle-IsHanded task outcome (without_task row column revision t) h)
    ]

continue_fill-IsHanded :
    (pull : Pull) (t : LiveTable) → IsHanded t → IsHanded (continue_fill pull t)
unfolding continue_fill finish_fill end_pull
continue_fill-IsHanded pull t h =
    if-kept IsHanded (leb pull.want (length t.block.rows)) (finish_fill pull.id t) t refl h

start_fill-IsHanded :
    (want : ℕ) (opening : Option String) (t : LiveTable) → IsHanded (start_fill want opening t)
unfolding start_fill begin_pull fail_fill finish_fill end_pull
start_fill-IsHanded want none t =
    continue_fill-IsHanded (new_pull want t) (record (begin_pull want t) { iterating = true }) refl
start_fill-IsHanded want (some message) t =
    if-kept IsHanded t.iterating (continue_fill (new_pull want t) (begin_pull want t))
      (fail_fill t.next_pull message (begin_pull want t))
      (continue_fill-IsHanded (new_pull want t) (begin_pull want t) refl) refl

pull_table-IsHanded :
    (search : String) (want : ℕ) (opening : Option String) (t : LiveTable)
    → IsHanded t
    → IsHanded (pull_table search want opening t).0
unfolding pull_table
pull_table-IsHanded search want opening t h = ground (
  arith,
  h,
  start_fill-IsHanded want opening t,
  start_fill-IsHanded want opening (restart_source search t),
)

module _ ⦃script : Script⦄ (handing : IsHanding script) where
  begin_work-IsHanded :
      (work : Option ℕ) (t : LiveTable) → IsHanded t → IsHanded (begin_work work t)
  begin_work-IsHanded none t h = h
  begin_work-IsHanded (some work) t h = handing work t h

  fill_cell-IsHanded :
      (row column revision : ℕ) (work : Option ℕ) (t : LiveTable)
      → IsHanded t
      → IsHanded (fill_cell row column revision work t)
  unfolding fill_cell
  fill_cell-IsHanded row column revision work t h =
      if-kept IsHanded (has_slot t) (begin_work work t) t (begin_work-IsHanded work t h) h

  start_cell-IsHanded :
      (row column : ℕ) (t : LiveTable) → IsHanded t → IsHanded (start_cell row column t)
  unfolding start_work clear_failure set_cell
  start_cell-IsHanded row column t h = start_cell-case IsHanded row column t h (λ cell work here.
      let taken = set_cell row column (record cell { work = none }) t in
      fill_cell-IsHanded row column cell.revision (some work) (clear_failure row column taken)
        (ground (arith, h)))

  start_all-IsHanded :
      (refs : List CellRef) (t : LiveTable) → IsHanded t → IsHanded (start_all refs t)
  start_all-IsHanded [] t h = h
  start_all-IsHanded (ref ∷ refs) t h =
      start_all-IsHanded refs (start_cell ref.row ref.column t)
        (start_cell-IsHanded ref.row ref.column t h)

  pull_cells-IsHanded :
      (refs : List CellRef) (t : LiveTable) → IsHanded t → IsHanded (pull_cells refs t).0
  unfolding pull_cells
  pull_cells-IsHanded refs t h =
      let asked =
        filter (λ (ref : CellRef). ref.retry || not (has_failed t ref.row ref.column)) refs in
      ground (arith, h, start_all-IsHanded asked t h)

  admit-IsHanded :
      (row column revision : ℕ) (t : LiveTable)
      → IsHanded t
      → IsHanded (admit row column revision t)
  unfolding admit
  admit-IsHanded row column revision t h =
      elim (Option-cases (find? (waits row column revision) t.running)) [
        | inl gone ↦ rw (gone, admit) h
        | inr (task, here) ↦
            rw (here, admit)
              (if-kept IsHanded (has_slot t) _ t (begin_work-IsHanded task.work t h) h)
      ]

  update_row-IsHanded :
      (index : ℕ) (cells : List CellInput) (t : LiveTable)
      → IsHanded t
      → IsHanded (update_row index cells t)
  unfolding update_row
  update_row-IsHanded index cells t h =
      if-kept IsHanded (ltb index (length t.block.rows)) _ t refl h

  take_answer-IsHanded :
      (pull : Pull) (given : Answer) (t : LiveTable)
      → IsHanded t
      → IsHanded (take_answer pull given t)
  unfolding take_answer push_row finish_fill fail_fill end_pull
  take_answer-IsHanded pull (Answer.row cells) t h =
      continue_fill-IsHanded pull (push_row cells t) refl
  take_answer-IsHanded pull Answer.done t h = refl
  take_answer-IsHanded pull (Answer.threw message) t h = refl

  answer-IsHanded :
      (id : ℕ) (given : Answer) (t : LiveTable) → IsHanded t → IsHanded (answer id given t)
  unfolding answer end_pull
  answer-IsHanded id given t h =
      elim (Option-cases (find? (λ (pull : Pull). nat_eq pull.id id) t.pulls)) [
        | inl gone ↦ rw (gone, answer) h
        | inr (pull, here) ↦
            rw (here, answer)
              (if-kept IsHanded (nat_eq pull.generation t.generation) (take_answer pull given t)
                (end_pull pull.id t) (take_answer-IsHanded pull given t h) h)
      ]

  perform-IsHanded : (op : TableOperation) (t : LiveTable) → IsHanded t → IsHanded (perform op t)
  unfolding perform push_row add_column set_total
  perform-IsHanded (TableOperation.push_row cells) t h = refl
  perform-IsHanded (TableOperation.update_row index cells) t h = update_row-IsHanded index cells t h
  perform-IsHanded (TableOperation.add_column name) t h = refl
  perform-IsHanded (TableOperation.set_total count) t h = refl
  perform-IsHanded (TableOperation.pull_cells refs) t h = pull_cells-IsHanded refs t h
  perform-IsHanded (TableOperation.pull_table search want opening) t h =
      pull_table-IsHanded search want opening t h
  perform-IsHanded (TableOperation.answer id given) t h = answer-IsHanded id given t h
  perform-IsHanded (TableOperation.admit row column revision) t h =
      admit-IsHanded row column revision t h
  perform-IsHanded (TableOperation.land row column revision outcome) t h =
      land-IsHanded row column revision outcome t h
  perform-IsHanded TableOperation.let_go t h = h

  performed-IsHanded :
      (ops : List TableOperation) (t : LiveTable) → IsHanded t → IsHanded (perform_all ops t)
  unfolding perform_all
  performed-IsHanded [] t h = h
  performed-IsHanded (op ∷ ops) t h =
      performed-IsHanded ops (perform op t) (perform-IsHanded op t h)

run_writes-IsHanded :
    ⦃script : Script⦄ (writes : List Write) (t : LiveTable)
    → IsHanding script
    → IsHanded t
    → IsHanded (run_writes writes t)
unfolding run_writes run_write push_row add_column set_total
run_writes-IsHanded [] t handing h = h
run_writes-IsHanded (Write.row cells ∷ writes) t handing h =
    run_writes-IsHanded writes (push_row cells t) handing refl
run_writes-IsHanded (Write.update index cells ∷ writes) t handing h =
    run_writes-IsHanded writes (update_row index cells t) handing
      (update_row-IsHanded handing index cells t h)
run_writes-IsHanded (Write.column name ∷ writes) t handing h =
    run_writes-IsHanded writes (add_column name t) handing refl
run_writes-IsHanded (Write.total count ∷ writes) t handing h =
    run_writes-IsHanded writes (set_total count t) handing refl

script_of-IsHanding :
    (writes : ℕ → LiveTable → List Write) (depth : ℕ) → IsHanding (script_of writes depth)
unfolding script_of
script_of-IsHanding writes zero work t h = h
script_of-IsHanding writes (suc depth) work t h =
    run_writes-IsHanded ⦃script = script_of writes depth⦄ (writes work t) t
      (script_of-IsHanding writes depth) h

-- After whatever the script, the canvas, the source and the cells' work did to a table, the writes
-- that the cells' functions make at once to any depth included, the block that the canvas was last
-- handed is the table's block.
pub perform_all-IsHanded :
    (writes : ℕ → LiveTable → List Write) (depth : ℕ) (columns : List String) (source : Source)
    (page_size : Option ℕ) (ops : List TableOperation)
    → IsHanded (perform_all ⦃script = script_of writes depth⦄ ops (table columns source page_size))
unfolding table
perform_all-IsHanded writes depth columns source page_size ops =
    performed-IsHanded ⦃script = script_of writes depth⦄ (script_of-IsHanding writes depth) ops
      (table columns source page_size) refl
