-- ===== src/Strip/Drawn.antt =====
-- ui/src/runStrip.ts: what the strip draws in the room it has.
use native.Mathlib.Decide.{dec_le}
use native.Mathlib.Nat.{div-lt_iff_lt-mul, lt-div-mul-add}
use kaja.Prelude.{
  ℕ, zero, suc, ◌+◌, ◌-◌, ◌*◌, ◌/◌, min, ◌≤◌, ◌<◌, ◌≡◌, refl, ◌∙◌, true, false, Option, none, some,
  List, [], ◌∷◌, length, leb, arith, Bool-cases, inl, inr, sum_by, map, length-map, is_nil, nat_eq,
  ◌||◌,
}
use kaja.Strip.{
  RunStrip, Bucket, bucket_calls, bucket_failures, merge_every, ceil_div, view, draw, merged,
  slot_of, empty, bar_height,
}
use kaja.Run.{ConsoleItem}
use kaja.Strip.Marks.{add_all, add_all-IsConsistent}
use kaja.Strip.Fill.{sum_by-merge_fuel, length-merge_fuel}

-- Dropping the methods changes no number of a bucket.
sum_by-map :
    (f : Bucket → ℕ) (g : Bucket → Bucket) (bs : List Bucket)
    → ((b : Bucket) → f (g b) ≡ f b)
    → sum_by f (map g bs) ≡ sum_by f bs
sum_by-map f g [] h = refl
sum_by-map f g (b ∷ bs) h = omega (arith, h b, sum_by-map f g bs h)

ceil_div_room : (n slots : ℕ) → 1 ≤ slots → n ≤ ceil_div n slots * slots
ceil_div_room n slots h = let room = lt-div-mul-add {a = n + slots - 1} h in omega arith

too_many : (l c slots : ℕ) → slots < l → l * c + 1 ≤ c * slots + c → ⊥
too_many l c slots h e = grind arith

-- A merge by the rounded-up quotient fits the slots.
merged_fits :
    (l n slots : ℕ) → 1 ≤ slots → l * ceil_div n slots + 1 ≤ n + ceil_div n slots → l ≤ slots
merged_fits l n slots h e = elim (dec_le l slots) [
  | yes le ↦ le
  | no more ↦
      absurd
        (too_many l (ceil_div n slots) slots (omega arith) (omega (arith, ceil_div_room n slots h)))
]

module _ (slots : ℕ) (bs : List Bucket) (some_room : 1 ≤ slots) where
  length-merged : length (merged (ceil_div (length bs) slots) bs) ≤ slots
  unfolding merged merge_every
  length-merged = elim (Bool-cases (leb (ceil_div (length bs) slots) 1)) [
    | inl one ↦
        rw one
          (fits_one (ceil_div (length bs) slots) one (ceil_div_room (length bs) slots some_room))
    | inr more ↦ rw more (
        merged_fits _ (length bs) slots some_room
          (length-merge_fuel (length bs) (ceil_div (length bs) slots) bs (ground arith)))
  ]
    where
      fits_one : (c : ℕ) → leb c 1 ≡ true → length bs ≤ c * slots → length bs ≤ slots
      fits_one zero e h = omega arith
      fits_one (suc zero) e h = omega arith
      fits_one (suc (suc c)) e h = absurd (ground arith)

  sum_by-merged :
      (factor : ℕ)
      → (bucket_calls (merged factor bs) ≡ bucket_calls bs)
        × (bucket_failures (merged factor bs) ≡ bucket_failures bs)
  unfolding merged merge_every
  sum_by-merged factor = elim (Bool-cases (leb factor 1)) [
    | inl one ↦ rw one (refl, refl)
    | inr more ↦ rw more (sum_by-merge_fuel (length bs) factor bs (omega arith) (ground arith))
  ]

-- The marks of a view stand for the calls and the failures of the buckets, in the room there is.
abbrev IsComplete : ℕ → List Bucket → List Bucket → Type 0
IsComplete slots drawn bs =
    (length drawn ≤ slots)
    × (bucket_calls drawn ≡ bucket_calls bs)
    × (bucket_failures drawn ≡ bucket_failures bs)

draw-IsComplete :
    (slots : ℕ) (s : RunStrip) → 1 ≤ slots → IsComplete slots (draw slots s).slots s.buckets
unfolding draw
draw-IsComplete slots s h =
    let factor = ceil_div (length s.buckets) slots in
    let (calls, failures) = sum_by-merged slots s.buckets h factor in
    (
      rw length-map (length-merged slots s.buckets h),
      rw (sum_by-map (λ b. b.calls) (slot_of _) (merged factor s.buckets) (λ b. refl)) calls,
      rw (sum_by-map (λ b. b.failures) (slot_of _) (merged factor s.buckets) (λ b. refl)) failures,
    )

none-IsComplete : (slots : ℕ) (bs : List Bucket) → is_nil bs ≡ true → IsComplete slots [] bs
none-IsComplete slots [] h = omega arith
none-IsComplete slots (b ∷ bs) h = cc

suc_ne : (n : ℕ) → nat_eq (suc n) 0 ≡ false
suc_ne n = ground arith

view-IsComplete :
    (slots : ℕ) (s : RunStrip) → 1 ≤ slots → IsComplete slots (view slots s).slots s.buckets
unfolding view
view-IsComplete zero s h = elim h [ ]
view-IsComplete (suc slots) s h = elim (Bool-cases (is_nil s.buckets)) [
  | inl bare ↦ rw (suc_ne slots, bare) (none-IsComplete (suc slots) s.buckets bare)
  | inr some_drawn ↦ rw (suc_ne slots, some_drawn) (draw-IsComplete (suc slots) s h)
]

-- Whatever arrived, in any room of at least one slot the strip draws no more marks than there are
-- slots, and the calls and the failures of its marks add up to those that the strip counted.
pub view-add_all :
    (slots : ℕ) (items : List ConsoleItem)
    → 1 ≤ slots
    → (length (view slots (add_all items empty)).slots ≤ slots)
      × (bucket_calls (view slots (add_all items empty)).slots ≡ (add_all items empty).calls)
      × (bucket_failures (view slots (add_all items empty)).slots ≡ (add_all items empty).failures)
view-add_all slots items h =
    let s = add_all items empty in
    let consistent = add_all-IsConsistent items in
    let (room, calls, failures) = view-IsComplete slots s h in
    (room, calls ∙ consistent.total, failures ∙ consistent.failures)

quotient_below : (r m : ℕ) → 1 ≤ r → m ≤ r → (6 * r + 16 * m + r) / (2 * r) < 12
quotient_below r m h e = (div-lt_iff_lt-mul (omega arith)).1 (omega arith)

-- A bar is drawn between its least and its greatest height.
pub bar_height_bounds :
    (slowest : ℕ) (run_slowest : Option ℕ)
    → (3 ≤ bar_height slowest run_slowest) × (bar_height slowest run_slowest ≤ 11)
unfolding bar_height
bar_height_bounds slowest none = omega arith
bar_height_bounds slowest (some r) = elim (Bool-cases (leb r 0 || leb slowest 0)) [
  | inl flat ↦ rw flat (omega arith)
  | inr drawn ↦
      rw drawn (omega (arith, quotient_below r (min slowest r) (ground arith) (omega arith)))
]
