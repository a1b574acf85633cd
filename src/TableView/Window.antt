-- ===== src/TableView/Window.antt =====
-- ui/src/tableView.ts: which rows `tableWindow` draws, and the places that it gives for them.
use kaja.Prelude.{
  ℕ, zero, suc, ◌+◌, ◌-◌, ◌*◌, ◌≤◌, ◌<◌, ◌≡◌, refl, ap, sym, ◌∙◌, String, Option, none, some, List,
  [], ◌∷◌, arith, length, take, drop, get_elem?, All, length-take, Bool-cases, inl, inr,
}
use kaja.Block.{TableBlock}
use kaja.TableView.{
  TableView, table_window, rows_at, range, slice, places_at, matched, matched_from, matches_search,
  rows_of, page_size_of, page_of, is_filtered,
}

rows_at-nil : (places : List ℕ) → rows_at [] places ≡ []
rows_at-nil [] = refl
rows_at-nil (i ∷ places) = rows_at-nil places

take-nil {ℓ} : {A : Type ℓ} (n m : ℕ) → take {A = A} n (drop m []) ≡ []
take-nil zero m = refl
take-nil (suc n) zero = refl
take-nil (suc n) (suc m) = refl

rows_at-shift :
    (row : List String) (rows : List (List String)) (from n : ℕ)
    → rows_at (row ∷ rows) (range (suc from) n) ≡ rows_at rows (range from n)
rows_at-shift row rows from zero = refl
rows_at-shift row rows from (suc n) = ground (arith, rows_at-shift row rows (suc from) n)

rows_at-range :
    (rows : List (List String)) (from n : ℕ) → rows_at rows (range from n) ≡ take n (drop from rows)
rows_at-range [] from n = rows_at-nil (range from n) ∙ sym (take-nil n from)
rows_at-range (row ∷ rows) (suc from) n = rows_at-shift row rows from n ∙ rows_at-range rows from n
rows_at-range (row ∷ rows) zero zero = refl
rows_at-range (row ∷ rows) zero (suc n) =
    ap (◌∷◌ row) (rows_at-shift row rows 0 n ∙ rows_at-range rows 0 n)

module _ {ℓ} {A : Type ℓ} where
  take-length-take : (n : ℕ) (xs : List A) → take (length (take n xs)) xs ≡ take n xs
  take-length-take zero xs = refl
  take-length-take (suc n) [] = refl
  take-length-take (suc n) (x ∷ xs) = ap (◌∷◌ x) (take-length-take n xs)

  get_elem?-lt : (xs : List A) (i : ℕ) → i < length xs → (x : A) × (get_elem? xs i ≡ some x)
  get_elem?-lt [] i h = ground arith
  get_elem?-lt (x ∷ xs) zero h = (x, refl)
  get_elem?-lt (x ∷ xs) (suc i) h = get_elem?-lt xs i (omega arith)

module _ (rows : List (List String)) where
  -- The places of some rows.
  abbrev InRange : List ℕ → Type 0
  InRange places = All (λ i. i < length rows) places

  abbrev FoundInRange : Option (List ℕ) → Type 0
  FoundInRange none = Unit
  FoundInRange (some places) = InRange places

  drop-rows_at :
      (n : ℕ) (places : List ℕ)
      → InRange places
      → drop n (rows_at rows places) ≡ rows_at rows (drop n places)
  drop-rows_at zero places h = refl
  drop-rows_at (suc n) [] h = refl
  drop-rows_at (suc n) (i ∷ places) h =
      let (row, here) = get_elem?-lt rows i h.0 in rw (here, drop) (drop-rows_at n places h.1)

  take-rows_at :
      (n : ℕ) (places : List ℕ)
      → InRange places
      → take n (rows_at rows places) ≡ rows_at rows (take n places)
  take-rows_at zero places h = refl
  take-rows_at (suc n) [] h = refl
  take-rows_at (suc n) (i ∷ places) h =
      let (row, here) = get_elem?-lt rows i h.0 in ground (arith, here, take-rows_at n places h.1)

  drop-InRange : (n : ℕ) (places : List ℕ) → InRange places → InRange (drop n places)
  drop-InRange zero places h = h
  drop-InRange (suc n) [] h = h
  drop-InRange (suc n) (i ∷ places) h = drop-InRange n places h.1

  matched_from-InRange :
      (lower : String → String) (search : String) (i : ℕ) (rest : List (List String))
      → i + length rest ≤ length rows
      → InRange (matched_from lower search i rest)
  unfolding matched_from
  matched_from-InRange lower search i [] h = tt
  matched_from-InRange lower search i (row ∷ rest) h =
      elim (Bool-cases (matches_search lower row search)) [
        | inl matches ↦
            rw matches (omega arith, matched_from-InRange lower search (suc i) rest (omega arith))
        | inr other ↦ rw other (matched_from-InRange lower search (suc i) rest (omega arith))
      ]

slice_again {ℓ} :
    {A : Type ℓ} (from n : ℕ) (xs : List A) → slice from (from + n) xs ≡ take n (drop from xs)
slice_again from n xs = ap (λ k. take k (drop from xs)) {x = from + n - from} {y = n} (omega arith)

module _ (block : TableBlock) (start size : ℕ) where
  rows_at-places_at :
      (found : Option (List ℕ))
      → FoundInRange block.rows found
      → rows_at block.rows
          (places_at found start (length (slice start (start + size) (rows_of block found))))
        ≡ slice start (start + size) (rows_of block found)
  rows_at-places_at none h =
      rows_at-range block.rows start _
      ∙ take-length-take (start + size - start) (drop start block.rows)
  rows_at-places_at (some places) h =
      let drawn = rows_at block.rows places in
      let shown = slice start (start + size) drawn in
      ap (rows_at block.rows) (slice_again start (length shown) places)
      ∙ sym (
          take-rows_at block.rows (length shown) (drop start places)
            (drop-InRange block.rows start places h))
      ∙ ap (take (length shown)) (sym (drop-rows_at block.rows start places h))
      ∙ take-length-take (start + size - start) (drop start drawn)

  length-shown-le {ℓ} : {A : Type ℓ} (xs : List A) → length (slice start (start + size) xs) ≤ size
  length-shown-le xs = omega (arith, length-take (start + size - start) (drop start xs))

matched-InRange :
    (lower : String → String) (block : TableBlock) (view : TableView)
    → FoundInRange block.rows (matched lower block view)
unfolding matched
matched-InRange lower block view = elim (Bool-cases (is_filtered block view)) [
  | inl filtered ↦
      rw filtered (matched_from-InRange block.rows lower view.search 0 block.rows (omega arith))
  | inr whole ↦ rw whole tt
]

-- The rows that a window draws are the rows of the table at the places that the window gives for
-- them, whether a search filters the table or not, and are never more than a page.
pub rows-table_window :
    (lower : String → String) (block : TableBlock) (view : TableView)
    → ((table_window lower block view).rows
        ≡ rows_at block.rows (table_window lower block view).indices)
      × (length (table_window lower block view).rows ≤ page_size_of block)
unfolding table_window
rows-table_window lower block view =
    let found = matched lower block view in
    let start = page_of block view (length (rows_of block found)) * page_size_of block in
    (
      sym (
          rows_at-places_at block start (page_size_of block) found
            (matched-InRange lower block view)),
      length-shown-le block start (page_size_of block) (rows_of block found),
    )
