-- ===== src/Live/Keeps.antt =====
-- ui/src/kaja.ts: what the operations on a table keep, once the steps that touch its cells keep it.
use kaja.Prelude.{
  ℕ, suc, ◌≡◌, refl, String, true, not, ◌||◌, Option, none, some, List, [], ◌∷◌, arith, leb, ltb,
  nat_eq, find?, filter, length, Option-cases, inl, inr,
}
use kaja.Prelude.NatDict.{NatDict}
use kaja.Block.{CellStatus}
use kaja.Live
use kaja.Live.Cells
use kaja.Live.Rows
use kaja.Live.Pulls
use kaja.Live.{Script, silent, LiveCell, Task, LiveTable, Pull, CellRef, Outcome, has_failed}
use kaja.Live.Cells.{start_all, pull_cells}
use kaja.Live.Rows.{
  CellInput, Source, declare_rows, with_source, table, new_table, push_row, update_row, add_column,
  set_total,
}
use kaja.Live.Pulls.{
  Answer, end_pull, finish_fill, fail_fill, continue_fill, open_source, new_pull, begin_pull,
  start_fill, is_new_search, pull_table, take_answer, answer,
}
use kaja.Live.Steps.{if-kept}
use kaja.Live.Reach.{TableOperation, perform, perform_all, release}

-- What the cells of a table are.
pub record CellState : Type 0 where
  pub statuses : Option (NatDict (NatDict CellStatus))
  pub cells : NatDict (NatDict LiveCell)
  pub row_revision : NatDict ℕ
  pub revision : ℕ
  pub running : List Task

abbrev pub cell_state : LiveTable → CellState
cell_state t = record {
  statuses = t.block.cells;
  cells = t.cells;
  row_revision = t.row_revision;
  revision = t.revision;
  running = t.running;
}

module _ ⦃script : Script⦄ where
  -- A property of the cells that each step on them keeps.
  pub record IsKept (P : LiveTable → Type 0) : Type 0 where
    pub same : (t u : LiveTable) → cell_state u ≡ cell_state t → P t → P u
    pub declare_row :
        (index : ℕ) (cells : List CellInput) (t : LiveTable)
        → P t
        → P (Rows.declare_row index cells t)
    pub start_cell : (row column : ℕ) (t : LiveTable) → P t → P (Cells.start_cell row column t)
    pub admit :
        (row column revision : ℕ) (t : LiveTable) → P t → P (Cells.admit row column revision t)
    pub land :
        (row column revision : ℕ) (outcome : Outcome) (t : LiveTable)
        → P t
        → P (Live.land row column revision outcome t)
    pub restart_source : (search : String) (t : LiveTable) → P t → P (Pulls.restart_source search t)

  module _ (P : LiveTable → Type 0) (kept : IsKept P) where
    push_row-kept : (cells : List CellInput) (t : LiveTable) → P t → P (push_row cells t)
    unfolding push_row
    push_row-kept cells t h =
        let declared = Rows.declare_row (length t.block.rows) cells t in
        kept.same declared (push_row cells t) refl
          (kept.declare_row (length t.block.rows) cells t h)

    update_row-kept :
        (index : ℕ) (cells : List CellInput) (t : LiveTable) → P t → P (update_row index cells t)
    unfolding update_row
    update_row-kept index cells t h =
        let declared = Rows.declare_row index cells t in
        if-kept P (ltb index (length t.block.rows)) _ t
          (kept.same declared _ refl (kept.declare_row index cells t h)) h

    start_all-kept : (refs : List CellRef) (t : LiveTable) → P t → P (start_all refs t)
    start_all-kept [] t h = h
    start_all-kept (ref ∷ refs) t h =
        start_all-kept refs (Cells.start_cell ref.row ref.column t)
          (kept.start_cell ref.row ref.column t h)

    finish_fill-kept : (id : ℕ) (t : LiveTable) → P t → P (finish_fill id t)
    unfolding finish_fill end_pull
    finish_fill-kept id t h = kept.same t (finish_fill id t) refl h

    fail_fill-kept : (id : ℕ) (message : String) (t : LiveTable) → P t → P (fail_fill id message t)
    unfolding fail_fill finish_fill end_pull
    fail_fill-kept id message t h = kept.same t (fail_fill id message t) refl h

    continue_fill-kept : (pull : Pull) (t : LiveTable) → P t → P (continue_fill pull t)
    unfolding continue_fill
    continue_fill-kept pull t h =
        if-kept P (leb pull.want (length t.block.rows)) (finish_fill pull.id t) t
          (finish_fill-kept pull.id t h) h

    open_source-kept :
        (pull : Pull) (opening : Option String) (t : LiveTable)
        → P t
        → P (open_source pull opening t)
    open_source-kept pull none t h =
        continue_fill-kept pull (record t { iterating = true })
          (kept.same t (record t { iterating = true }) refl h)
    open_source-kept pull (some message) t h =
        if-kept P t.iterating (continue_fill pull t) (fail_fill pull.id message t)
          (continue_fill-kept pull t h) (fail_fill-kept pull.id message t h)

    start_fill-kept :
        (want : ℕ) (opening : Option String) (t : LiveTable) → P t → P (start_fill want opening t)
    unfolding start_fill begin_pull
    start_fill-kept want opening t h =
        open_source-kept (new_pull want t) opening (begin_pull want t)
          (kept.same t (begin_pull want t) refl h)

    pull_table-kept :
        (search : String) (want : ℕ) (opening : Option String) (t : LiveTable)
        → P t
        → P (pull_table search want opening t).0
    unfolding pull_table
    pull_table-kept search want opening t h =
        let restarted =
          start_fill-kept want opening (Pulls.restart_source search t)
            (kept.restart_source search t h) in
        ground (arith, h, restarted, start_fill-kept want opening t h)

    take_answer-kept :
        (pull : Pull) (given : Answer) (t : LiveTable) → P t → P (take_answer pull given t)
    unfolding take_answer
    take_answer-kept pull (Answer.row cells) t h =
        continue_fill-kept pull (push_row cells t) (push_row-kept cells t h)
    take_answer-kept pull Answer.done t h =
        let ended : LiveTable = Live.set_block (record t.block { exhausted = true }) t in
        finish_fill-kept pull.id ended (kept.same t ended refl h)
    take_answer-kept pull (Answer.threw message) t h = fail_fill-kept pull.id message t h

    answer-kept : (id : ℕ) (given : Answer) (t : LiveTable) → P t → P (answer id given t)
    unfolding answer end_pull
    answer-kept id given t h =
        elim (Option-cases (find? (λ (pull : Pull). nat_eq pull.id id) t.pulls)) [
          | inl gone ↦ rw (gone, answer) h
          | inr (pull, here) ↦
              rw (here, answer)
                (if-kept P (nat_eq pull.generation t.generation) (take_answer pull given t)
                  (end_pull pull.id t) (take_answer-kept pull given t h)
                  (kept.same t (end_pull pull.id t) refl h))
        ]

    pull_cells-kept : (refs : List CellRef) (t : LiveTable) → P t → P (pull_cells refs t).0
    unfolding pull_cells
    pull_cells-kept refs t h =
        let asked =
          filter (λ (ref : CellRef). ref.retry || not (has_failed t ref.row ref.column)) refs in
        ground (arith, h, start_all-kept asked t h)

    -- Whatever is done to a table keeps what the steps on its cells keep.
    pub perform-kept : (op : TableOperation) (t : LiveTable) → P t → P (perform op t)
    unfolding perform add_column set_total
    perform-kept (TableOperation.push_row cells) t h = push_row-kept cells t h
    perform-kept (TableOperation.update_row index cells) t h = update_row-kept index cells t h
    perform-kept (TableOperation.add_column name) t h = kept.same t (add_column name t) refl h
    perform-kept (TableOperation.set_total count) t h = kept.same t (set_total count t) refl h
    perform-kept (TableOperation.pull_cells refs) t h = pull_cells-kept refs t h
    perform-kept (TableOperation.pull_table search want opening) t h =
        pull_table-kept search want opening t h
    perform-kept (TableOperation.answer id given) t h = answer-kept id given t h
    perform-kept (TableOperation.admit row column revision) t h = kept.admit row column revision t h
    perform-kept (TableOperation.land row column revision outcome) t h =
        kept.land row column revision outcome t h
    perform-kept TableOperation.let_go t h = kept.same t (release t) refl h

    pub perform_all-kept : (ops : List TableOperation) (t : LiveTable) → P t → P (perform_all ops t)
    unfolding perform_all
    perform_all-kept [] t h = h
    perform_all-kept (op ∷ ops) t h = perform_all-kept ops (perform op t) (perform-kept op t h)

module _ (P : LiveTable → Type 0) (kept : IsKept ⦃script = silent⦄ P) where
  declare_rows-kept :
      (index : ℕ) (rows : List (List CellInput)) (t : LiveTable)
      → P t
      → P (declare_rows ⦃script = silent⦄ index rows t)
  unfolding declare_rows
  declare_rows-kept index [] t h = h
  declare_rows-kept index (row ∷ rows) t h =
      declare_rows-kept (suc index) rows (Rows.declare_row ⦃script = silent⦄ index row t)
        (kept.declare_row index row t h)

  -- A table is drawn from one that is empty.
  pub table-kept :
      (columns : List String) (source : Source) (page_size : Option ℕ)
      → P (new_table columns page_size)
      → P (table columns source page_size)
  unfolding table with_source
  table-kept columns Source.no_rows page_size h =
      kept.same (new_table columns page_size) (table columns Source.no_rows page_size) refl h
  table-kept columns (Source.given rows) page_size h =
      kept.same (declare_rows ⦃script = silent⦄ 0 rows (new_table columns page_size))
        (table columns (Source.given rows) page_size) refl
        (declare_rows-kept 0 rows (new_table columns page_size) h)
  table-kept columns (Source.opened restartable takes_search) page_size h =
      kept.same (new_table columns page_size)
        (table columns (Source.opened restartable takes_search) page_size) refl h
