-- ===== src/Live/Progress.antt =====
-- ui/src/kaja.ts: how a pull comes to its end, as the source yields the rows it wants.
use kaja.Prelude.{
  ℕ, suc, ◌+◌, ◌≤◌, ◌<◌, ◌≡◌, refl, ap, ◌∙◌, Bool, true, false, ◌&&◌, ◌||◌, String, Option, none,
  some, List, [], ◌∷◌, ◌++◌, arith, nat_eq, leb, all, find?, length, length-append, is_some,
  Bool-cases, inl, inr,
}
use kaja.Live.{Script, LiveTable, Pull}
use kaja.Live.Rows.{CellInput, Source, declare_row, push_row, row_text, table}
use kaja.Live.Scripts.{Write, script_of}
use kaja.Live.Pulls
use kaja.Live.Pulls.{
  Answer, remove_pull, end_pull, finish_fill, continue_fill, start_fill, begin_pull, open_source,
  new_pull, pull_table, take_answer, is_new_search,
}
use kaja.Live.Reach.{TableOperation, perform_all}
use kaja.Live.Steps.{IsWriter, script_of-IsWriter}
use kaja.Live.Single.{Flight, is_ranked}
use kaja.Live.Single.Cells.{push_row-flight}
use kaja.Live.Single.Flows.{perform_all-IsSingle}

abbrev has_id : ℕ → Pull → Bool
has_id id pull = nat_eq pull.id id

find?-remove_pull : (id : ℕ) (pulls : List Pull) → find? (has_id id) (remove_pull id pulls) ≡ none
find?-remove_pull id [] = refl
find?-remove_pull id (pull ∷ pulls) = ground (arith, find?-remove_pull id pulls)

-- The pull is over.
record IsOver (pull : Pull) (t : LiveTable) : Type 0 where
  gone : find? (has_id pull.id) t.pulls ≡ none
  loaded : t.block.loading ≡ false
  enough : pull.want ≤ length t.block.rows

-- The pull waits for the next row.
record IsWaiting (pull : Pull) (t : LiveTable) : Type 0 where
  waits : find? (has_id pull.id) t.pulls ≡ some pull
  present : nat_eq pull.generation t.generation ≡ true
  wanting : length t.block.rows < pull.want

finish_fill-IsOver :
    (pull : Pull) (t : LiveTable)
    → pull.want ≤ length t.block.rows
    → IsOver pull (finish_fill pull.id t)
unfolding finish_fill end_pull
finish_fill-IsOver pull t h = record {
  gone = find?-remove_pull pull.id t.pulls;
  loaded = refl;
  enough = h;
}

find?-new_pull :
    (want : ℕ) (t : LiveTable) (pulls : List Pull)
    → all (is_ranked t.generation t.pulling t.next_pull) pulls ≡ true
    → find? (has_id t.next_pull) (pulls ++ new_pull want t ∷ []) ≡ some (new_pull want t)
find?-new_pull want t [] h = ground arith
find?-new_pull want t (pull ∷ pulls) h = ground (arith, find?-new_pull want t pulls)

-- The table as its first pull has opened the source.
abbrev opened_table : ℕ → LiveTable → LiveTable
opened_table want t = record (begin_pull want t) { iterating = true }

module _ ⦃script : Script⦄ where
  length-push_row :
      (cells : List CellInput) (t : LiveTable)
      → length (push_row cells t).block.rows ≡ suc (length t.block.rows)
  unfolding push_row
  length-push_row cells t =
      let declared = declare_row (length t.block.rows) cells t in
      omega (arith, length-append t.block.rows (row_text cells declared.block ∷ []))

  -- The source yields these rows, one after the other, to the pull.
  unfoldable pub answer_rows : ℕ → List (List CellInput) → LiveTable → LiveTable
  unfolding Pulls.answer
  answer_rows id [] t = t
  answer_rows id (cells ∷ rows) t = answer_rows id rows (Pulls.answer id (Answer.row cells) t)

  answer_rows-IsOver :
      (pull : Pull) (rows : List (List CellInput)) (t : LiveTable)
      → IsOver pull t
      → IsOver pull (answer_rows pull.id rows t)
  unfolding answer_rows Pulls.answer
  answer_rows-IsOver pull [] t h = h
  answer_rows-IsOver pull (cells ∷ rows) t h =
      rw (h.gone, Pulls.answer) (answer_rows-IsOver pull rows t h)

module _ ⦃script : Script⦄ (writer : IsWriter script) where
  push_row-IsWaiting :
      (pull : Pull) (cells : List CellInput) (t : LiveTable)
      → suc (length t.block.rows) < pull.want
      → IsWaiting pull t
      → IsWaiting pull (push_row cells t)
  push_row-IsWaiting pull cells t h waiting = record {
    waits =
        ap (λ (s : Flight). find? (has_id pull.id) s.pulls) (push_row-flight writer cells t)
        ∙ waiting.waits;
    present =
        ap (λ (s : Flight). nat_eq pull.generation s.generation) (push_row-flight writer cells t)
        ∙ waiting.present;
    wanting = omega (arith, h, length-push_row cells t);
  }

  answer_rows-waiting :
      (pull : Pull) (rows : List (List CellInput)) (t : LiveTable)
      → IsWaiting pull t
      → pull.want ≤ length t.block.rows + length rows
      → IsOver pull (answer_rows pull.id rows t)
  unfolding answer_rows Pulls.answer take_answer continue_fill
  answer_rows-waiting pull [] t waiting h = absurd (omega (arith, h, waiting.wanting))
  answer_rows-waiting pull (cells ∷ rows) t waiting h =
      rw (waiting.waits, Pulls.answer)
        (rw waiting.present
          (elim (Bool-cases (leb pull.want (length (push_row cells t).block.rows))) [
            | inl enough ↦
                rw (enough, continue_fill)
                  (answer_rows-IsOver pull rows (finish_fill pull.id (push_row cells t))
                    (finish_fill-IsOver pull (push_row cells t) (ground (arith, enough))))
            | inr more ↦
                rw (more, continue_fill)
                  (answer_rows-waiting pull rows (push_row cells t)
                    (push_row-IsWaiting pull cells t (ground (arith, more, length-push_row cells t))
                      waiting)
                    (omega (arith, h, length-push_row cells t)))
          ]))

  start_fill-answer_rows :
      (want : ℕ) (rows : List (List CellInput)) (t : LiveTable)
      → all (is_ranked t.generation t.pulling t.next_pull) t.pulls ≡ true
      → want ≤ length t.block.rows + length rows
      → IsOver (new_pull want t) (answer_rows t.next_pull rows (start_fill want none t))
  unfolding start_fill begin_pull continue_fill
  start_fill-answer_rows want rows t ranked h =
      let pull = new_pull want t in
      elim (Bool-cases (leb want (length t.block.rows))) [
        | inl enough ↦
            rw (enough, continue_fill)
              (answer_rows-IsOver pull rows (finish_fill pull.id (opened_table want t))
                (finish_fill-IsOver pull (opened_table want t) (ground (arith, enough))))
        | inr more ↦
            rw (more, continue_fill)
              (answer_rows-waiting pull rows (opened_table want t)
                (record {
                  waits = find?-new_pull want t t.pulls ranked;
                  present = ground arith;
                  wanting = ground (arith, more);
                })
                h)
      ]

module _ (writes : ℕ → LiveTable → List Write) (depth : ℕ) (columns : List String) (source : Source)
    (page_size : Option ℕ) (ops : List TableOperation) (search : String) (want : ℕ)
    (rows : List (List CellInput)) where
  -- A table that anything was done to, the writes that the cells' functions make at once to any depth
  -- included, whose source is held, that neither needs a restart nor is
  -- asked for a new search and that no pull is filling: once the source, which opens without
  -- failing, has yielded as many rows as the pull lacks, the table has the rows that were wanted
  -- and no longer says that it is loading.
  pub answer_rows-pull_table :
      (t : LiveTable)
      → t ≡ perform_all ⦃script = script_of writes depth⦄ ops (table columns source page_size)
      → (t.held && t.has_open) ≡ true
      → (is_new_search t search || t.restart) ≡ false
      → is_some t.pulling ≡ false
      → want ≤ length t.block.rows + length rows
      → ((answer_rows ⦃script = script_of writes depth⦄ t.next_pull rows
            (pull_table search want none t).0).block.loading
          ≡ false)
        × (want
            ≤ length
                (answer_rows ⦃script = script_of writes depth⦄ t.next_pull rows
                  (pull_table search want none t).0).block.rows)
  unfolding pull_table
  answer_rows-pull_table t reached held onwards idle enough =
      let single = perform_all-IsSingle writes depth columns source page_size ops in
      let over =
        start_fill-answer_rows ⦃script = script_of writes depth⦄ (script_of-IsWriter writes depth)
          want rows t
          (ap (λ (u : LiveTable). all (is_ranked u.generation u.pulling u.next_pull) u.pulls)
              reached
            ∙ single.ranked)
          enough in
      rw (held, pull_table) (rw onwards (rw idle (over.loaded, over.enough)))
