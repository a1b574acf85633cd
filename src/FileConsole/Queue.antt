-- ===== src/FileConsole/Queue.antt =====
-- ui/src/consoles.ts: `#hold`, and the queue of the calls that still hold their payloads.
use kaja.Prelude.{
  ℕ, zero, suc, ◌+◌, ◌-◌, ◌≤◌, ◌<◌, ◌≡◌, refl, ap, sym, ◌∙◌, true, false, Option, none, some, List,
  [], ◌∷◌, ◌++◌, length, set, drop, leb, ltb, length-append, length-set, length-drop, arith,
  Bool-cases, Option-cases, inl, inr, if◌then◌else◌, get_elem?,
}
use kaja.FileConsole.{FileConsole, empty}
use kaja.FileConsole.Record.{hold, release_at, slot_at, advance}

-- The calls that have not been let go, oldest first.
abbrev pub live : FileConsole → List (Option ℕ)
live c = drop c.held c.holding

pub record IsQueue (c : FileConsole) : Type 0 where
  pub head : c.held ≤ length c.holding
  pub bounded : length c.holding ≤ c.held + 500
  pub cut : c.held ≤ 4096

-- The queue with one call more: past 500 the oldest one leaves.
abbrev pub enqueue : List (Option ℕ) → ℕ → List (Option ℕ)
enqueue queue ref =
    if ltb (length queue) 500 then queue ++ some ref ∷ [] else drop 1 queue ++ some ref ∷ []

-- Letting a payload go touches the heap of items only.
release_at-queue :
    (slot : Option ℕ) (c : FileConsole)
    → ((release_at slot c).holding ≡ c.holding) × ((release_at slot c).held ≡ c.held)
release_at-queue none c = (refl, refl)
release_at-queue (some ref) c = elim (Option-cases (get_elem? c.item_heap ref)) [
  | inl gone ↦ rw (gone, release_at) (refl, refl)
  | inr (item, here) ↦ rw (here, release_at) (refl, refl)
]

add_suc_eq : (n m : ℕ) → suc n + m ≡ suc (n + m)
add_suc_eq n m = omega arith

module _ {ℓ} {A : Type ℓ} where
  drop-append : (n : ℕ) (xs ys : List A) → n ≤ length xs → drop n (xs ++ ys) ≡ drop n xs ++ ys
  drop-append zero xs ys h = refl
  drop-append (suc n) [] ys h = absurd (omega arith)
  drop-append (suc n) (x ∷ xs) ys h = drop-append n xs ys (omega arith)

  drop-drop : (m n : ℕ) (xs : List A) → drop m (drop n xs) ≡ drop (n + m) xs
  drop-drop m zero xs = rw zero_add_eq refl
    where
      zero_add_eq : zero + m ≡ m
      zero_add_eq = omega arith
  drop-drop zero (suc n) [] = rw (add_suc_eq n zero) refl
  drop-drop (suc m) (suc n) [] = rw (add_suc_eq n (suc m)) refl
  drop-drop m (suc n) (x ∷ xs) = rw (add_suc_eq n m) (drop-drop m n xs)

  -- What lies before the head does not matter.
  drop-set : (n : ℕ) (xs : List A) (x : A) → drop (suc n) (set xs n x) ≡ drop (suc n) xs
  drop-set n [] x = refl
  drop-set zero (y ∷ xs) x = refl
  drop-set (suc n) (y ∷ xs) x = drop-set n xs x

module _ (ref : ℕ) (c : FileConsole) (q : IsQueue c) where
  abbrev pushed : FileConsole
  pushed = record c { holding = c.holding ++ some ref ∷ [] }

  length-pushed : length pushed.holding ≡ length c.holding + 1
  length-pushed = length-append c.holding (some ref ∷ [])

  length-live : length (live c) ≡ length c.holding - c.held
  length-live = length-drop c.held c.holding

  hold-kept :
      leb (length pushed.holding - c.held) 500 ≡ true
      → IsQueue (hold ref c) × (live (hold ref c) ≡ enqueue (live c) ref)
  unfolding hold
  hold-kept few =
      let room : length c.holding + 1 ≤ c.held + 500 =
        within (length pushed.holding) c.held (length c.holding) length-pushed few in
      rw few (
        record {
          head = omega (arith, length-pushed, q.head);
          bounded = omega (arith, length-pushed);
          cut = q.cut;
        },
        drop-append c.held c.holding (some ref ∷ []) q.head
            ∙ rw (short (length (live c)) (omega (arith, length-live, q.head))) refl,
      )
    where
      within : (n held l : ℕ) → n ≡ l + 1 → leb (n - held) 500 ≡ true → l + 1 ≤ held + 500
      within n held l e f = ground arith

      short : (n : ℕ) → n < 500 → ltb n 500 ≡ true
      short n h = ground arith

  abbrev rest : List (Option ℕ)
  rest = drop (c.held + 1) (set pushed.holding c.held none)

  rest-eq : length (live c) ≡ 500 → rest ≡ enqueue (live c) ref
  rest-eq full =
      ap (λ n. drop n (set pushed.holding c.held none)) {x = c.held + 1} {y = suc c.held}
        (omega arith)
      ∙ drop-set c.held pushed.holding none
      ∙ ap (λ n. drop n pushed.holding) {x = suc c.held} {y = c.held + 1} (omega arith)
      ∙ sym (drop-drop 1 c.held pushed.holding)
      ∙ ap (drop 1) (drop-append c.held c.holding (some ref ∷ []) q.head)
      ∙ drop-append 1 (live c) (some ref ∷ []) (omega arith)
      ∙ rw full refl

  length-slots : length (set pushed.holding c.held none) ≡ length c.holding + 1
  length-slots = length-set pushed.holding c.held none ∙ length-pushed

  advance-IsQueue :
      length c.holding ≡ c.held + 500
      → IsQueue (advance pushed) × (live (advance pushed) ≡ enqueue (live c) ref)
  advance-IsQueue full =
      let moved = rest-eq (omega (arith, length-live)) in
      elim (Bool-cases (ltb 4096 (c.held + 1))) [
        | inl long ↦ rw long (
          record {
            head = omega arith;
            bounded =
                omega
                  (arith, length-drop (c.held + 1) (set pushed.holding c.held none), length-slots);
            cut = omega arith;
          },
          moved,
        )
        | inr some_left ↦ rw some_left (
          record {
            head = omega (arith, length-slots);
            bounded = omega (arith, length-slots);
            cut = ground arith;
          },
          moved,
        )
      ]

  hold-full :
      leb (length pushed.holding - c.held) 500 ≡ false
      → IsQueue (hold ref c) × (live (hold ref c) ≡ enqueue (live c) ref)
  unfolding hold
  hold-full many =
      let full : length c.holding ≡ c.held + 500 =
        exactly (length pushed.holding) c.held (length c.holding) length-pushed many q.bounded in
      let (a, l) = advance-IsQueue full in
      let (h, d) = release_at-queue (slot_at pushed.holding c.held) (advance pushed) in
      rw many (
        record {
          head = omega (arith, a.head, ap (λ (xs : List (Option ℕ)). length xs) h, d);
          bounded = omega (arith, a.bounded, ap (λ (xs : List (Option ℕ)). length xs) h, d);
          cut = omega (arith, a.cut, d);
        },
        rw (h, d) l,
      )
    where
      exactly :
          (n held l : ℕ) → n ≡ l + 1 → leb (n - held) 500 ≡ false → l ≤ held + 500 → l ≡ held + 500
      exactly n held l e f g = ground arith

  -- When the queue of payloads is well formed, holding a call is putting it at the end of a queue
  -- of at most 500, which lets the oldest one go where it is full; the array never holds more than
  -- 500 slots past its head, and the head is cut off before it passes 4096.
  pub hold_lem : IsQueue (hold ref c) × (live (hold ref c) ≡ enqueue (live c) ref)
  hold_lem = elim (Bool-cases (leb (length pushed.holding - c.held) 500)) [
    | inl few ↦ hold-kept few
    | inr many ↦ hold-full many
  ]

pub empty-IsQueue : IsQueue empty
unfolding empty
empty-IsQueue = record { head = omega arith; bounded = omega arith; cut = omega arith }
