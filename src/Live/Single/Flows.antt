-- ===== src/Live/Single/Flows.antt =====
-- ui/src/kaja.ts: the pulls of a table through every order of events.
use kaja.Prelude.{
  ℕ, suc, ◌≡◌, refl, sym, ap, ◌∙◌, true, false, not, ◌&&◌, ◌||◌, String, Option, none, some, List,
  [], ◌∷◌, arith, nat_eq, leb, all, find?, length, is_some, Option-cases, Bool-cases, inl, inr,
}
use mathlib.Core.Path.{subst}
use kaja.Live
use kaja.Live.Cells
use kaja.Live.{Script, silent, LiveTable, Pull}
use kaja.Live.Rows.{
  CellInput, Source, push_row, update_row, add_column, set_total, declare_row, declare_rows,
  with_source, table, new_table,
}
use kaja.Live.Scripts.{Write, script_of}
use kaja.Live.Pulls
use kaja.Live.Pulls.{
  Answer, end_pull, finish_fill, fail_fill, continue_fill, open_source, new_pull, begin_pull,
  start_fill, restart_source, is_new_search, pull_table, take_answer, clear_pulling,
}
use kaja.Live.Reach.{TableOperation, perform, perform_all}
use kaja.Live.Steps.{if-kept, IsWriter, script_of-IsWriter}
use kaja.Live.Single.{Flight, flight, IsSingle}
use kaja.Live.Single.Flights.{
  is_older, begun-IsSingle, finished-IsSingle, ended-IsSingle, older_of_idle, older_of_restart,
  ranked-find?,
}
use kaja.Live.Single.Cells.{
  declare_row-flight, push_row-flight, update_row-flight, pull_cells-flight, admit-flight,
  land-flight,
}

abbrev IsSingleTable : LiveTable → Type 0
IsSingleTable t = IsSingle (flight t)

same_flight : (t u : LiveTable) → flight u ≡ flight t → IsSingleTable t → IsSingleTable u
same_flight t u e h = subst IsSingle (sym e) h

-- The pull is the one that is named.
abbrev IsNamed : Pull → LiveTable → Type 0
IsNamed pull t = t.pulling ≡ some pull.id

finish_fill-single :
    (pull : Pull) (t : LiveTable)
    → IsNamed pull t
    → IsSingleTable t
    → IsSingleTable (finish_fill pull.id t)
unfolding finish_fill end_pull
finish_fill-single pull t named h = finished-IsSingle pull.id (flight t) named h

fail_fill-single :
    (pull : Pull) (message : String) (t : LiveTable)
    → IsNamed pull t
    → IsSingleTable t
    → IsSingleTable (fail_fill pull.id message t)
unfolding fail_fill finish_fill end_pull
fail_fill-single pull message t named h = finished-IsSingle pull.id (flight t) named h

continue_fill-single :
    (pull : Pull) (t : LiveTable)
    → IsNamed pull t
    → IsSingleTable t
    → IsSingleTable (continue_fill pull t)
unfolding continue_fill
continue_fill-single pull t named h =
    if-kept IsSingleTable (leb pull.want (length t.block.rows)) (finish_fill pull.id t) t
      (finish_fill-single pull t named h) h

open_source-single :
    (pull : Pull) (opening : Option String) (t : LiveTable)
    → IsNamed pull t
    → IsSingleTable t
    → IsSingleTable (open_source pull opening t)
open_source-single pull none t named h =
    continue_fill-single pull (record t { iterating = true }) named h
open_source-single pull (some message) t named h =
    if-kept IsSingleTable t.iterating (continue_fill pull t) (fail_fill pull.id message t)
      (continue_fill-single pull t named h) (fail_fill-single pull message t named h)

start_fill-single :
    (want : ℕ) (opening : Option String) (t : LiveTable)
    → all (is_older t.generation t.next_pull) t.pulls ≡ true
    → IsSingleTable (start_fill want opening t)
unfolding start_fill begin_pull
start_fill-single want opening t older =
    open_source-single (new_pull want t) opening (begin_pull want t) refl
      (begun-IsSingle want (flight t) older)

-- Between two pulls nothing of the present generation is on its way.
idle_older :
    (t : LiveTable)
    → IsSingleTable t
    → is_some t.pulling ≡ false
    → all (is_older t.generation t.next_pull) t.pulls ≡ true
idle_older t h idle =
    older_of_idle t.generation t.next_pull t.pulling t.pulls h.ranked
      (ground (arith, h.single, h.named, idle))

pull_table-single :
    (search : String) (want : ℕ) (opening : Option String) (t : LiveTable)
    → IsSingleTable t
    → IsSingleTable (pull_table search want opening t).0
unfolding pull_table restart_source
pull_table-single search want opening t h =
    let restarted =
      start_fill-single want opening (restart_source search t)
        (older_of_restart t.generation t.next_pull t.pulling t.pulls h.ranked) in
    elim (Bool-cases (not (t.held && t.has_open))) [
      | inl closed ↦ rw (closed, pull_table) h
      | inr opened ↦
          rw (opened, pull_table)
            (elim (Bool-cases (is_new_search t search || t.restart)) [
              | inl again ↦ rw again restarted
              | inr onwards ↦ rw onwards (elim (Bool-cases (is_some t.pulling)) [
                | inl joined ↦ rw joined h
                | inr idle ↦ rw idle (start_fill-single want opening t (idle_older t h idle))
              ])
            ])
    ]

module _ ⦃script : Script⦄ (writer : IsWriter script) where
  take_answer-single :
      (pull : Pull) (given : Answer) (t : LiveTable)
      → IsNamed pull t
      → IsSingleTable t
      → IsSingleTable (take_answer pull given t)
  unfolding take_answer
  take_answer-single pull (Answer.row cells) t named h =
      continue_fill-single pull (push_row cells t)
        (ap Flight.pulling (push_row-flight writer cells t) ∙ named)
        (same_flight t (push_row cells t) (push_row-flight writer cells t) h)
  take_answer-single pull Answer.done t named h =
      finish_fill-single pull (Live.set_block (record t.block { exhausted = true }) t) named h
  take_answer-single pull (Answer.threw message) t named h = fail_fill-single pull message t named h

  answer-single :
      (id : ℕ) (given : Answer) (t : LiveTable)
      → IsSingleTable t
      → IsSingleTable (Pulls.answer id given t)
  unfolding Pulls.answer end_pull
  answer-single id given t h =
      elim (Option-cases (find? (λ (pull : Pull). nat_eq pull.id id) t.pulls)) [
        | inl gone ↦ rw (gone, Pulls.answer) h
        | inr (pull, found) ↦
            (let ranked =
                ranked-find? (λ (pull : Pull). nat_eq pull.id id) t.generation t.next_pull t.pulling
                  t.pulls pull h.ranked found in
              rw (found, Pulls.answer)
                (elim (Bool-cases (nat_eq pull.generation t.generation)) [
                  | inl present ↦
                      rw present
                        (take_answer-single pull given t (ground (arith, ranked, present)) h)
                  | inr past ↦
                      rw past (ended-IsSingle pull.id (flight t) (ground (arith, ranked, past)) h)
                ]))
      ]

  perform-single :
      (op : TableOperation) (t : LiveTable) → IsSingleTable t → IsSingleTable (perform op t)
  unfolding perform add_column set_total
  perform-single (TableOperation.push_row cells) t h =
      same_flight t (push_row cells t) (push_row-flight writer cells t) h
  perform-single (TableOperation.update_row index cells) t h =
      same_flight t (update_row index cells t) (update_row-flight writer index cells t) h
  perform-single (TableOperation.add_column name) t h = h
  perform-single (TableOperation.set_total count) t h = h
  perform-single (TableOperation.pull_cells refs) t h =
      same_flight t (Cells.pull_cells refs t).0 (pull_cells-flight writer refs t) h
  perform-single (TableOperation.pull_table search want opening) t h =
      pull_table-single search want opening t h
  perform-single (TableOperation.answer id given) t h = answer-single id given t h
  perform-single (TableOperation.admit row column revision) t h =
      same_flight t (Cells.admit row column revision t) (admit-flight writer row column revision t)
        h
  perform-single (TableOperation.land row column revision outcome) t h =
      same_flight t (Live.land row column revision outcome t)
        (land-flight row column revision outcome t) h
  perform-single TableOperation.let_go t h = h

  perform_all-single :
      (ops : List TableOperation) (t : LiveTable)
      → IsSingleTable t
      → IsSingleTable (perform_all ops t)
  unfolding perform_all
  perform_all-single [] t h = h
  perform_all-single (op ∷ ops) t h = perform_all-single ops (perform op t) (perform-single op t h)

declare_rows-flight :
    (index : ℕ) (rows : List (List CellInput)) (t : LiveTable)
    → flight (declare_rows ⦃script = silent⦄ index rows t) ≡ flight t
unfolding declare_rows
declare_rows-flight index [] t = refl
declare_rows-flight index (row ∷ rows) t =
    let declared = declare_row ⦃script = silent⦄ index row t in
    declare_rows-flight (suc index) rows declared
    ∙ declare_row-flight ⦃script = silent⦄ (λ P steady work u h. h) index row t

table-flight :
    (columns : List String) (source : Source) (page_size : Option ℕ)
    → flight (table columns source page_size) ≡ flight (new_table columns page_size)
unfolding table with_source
table-flight columns Source.no_rows page_size = refl
table-flight columns (Source.given rows) page_size =
    declare_rows-flight 0 rows (new_table columns page_size)
table-flight columns (Source.opened restartable takes_search) page_size = refl

-- Whatever the script, the canvas, the source and the cells' work do to a table, and in whatever
-- order, the writes that the cells' functions make at once to any depth included: of the present generation there is one pull on its way while the table says that it is
-- loading and none otherwise, that pull is the one that `pulling` names, and `pulling` names
-- one exactly while the table is loading.
pub perform_all-IsSingle :
    (writes : ℕ → LiveTable → List Write) (depth : ℕ) (columns : List String) (source : Source)
    (page_size : Option ℕ) (ops : List TableOperation)
    → IsSingle (
        flight (perform_all ⦃script = script_of writes depth⦄ ops (table columns source page_size)))
unfolding new_table
perform_all-IsSingle writes depth columns source page_size ops =
    perform_all-single ⦃script = script_of writes depth⦄ (script_of-IsWriter writes depth) ops
      (table columns source page_size)
      (same_flight (new_table columns page_size) (table columns source page_size)
        (table-flight columns source page_size)
        (record { ranked = refl; single = refl; named = refl }))
