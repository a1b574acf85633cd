-- ===== src/Strip/Marks.antt =====
-- ui/src/runStrip.ts: `add`, and what the strip counts of the calls.
use native.Mathlib.Nat.{div-lt_iff_lt-mul}
use kaja.Prelude.{
  ℕ, zero, suc, ◌+◌, ◌/◌, ◌<◌, ◌≡◌, refl, ap, ◌∙◌, String, Bool, true, false, none, some, List, [],
  ◌∷◌, length, ltb, arith, Option-cases, inl, inr, sum_by, get_or, eq_iff,
}
use kaja.Prelude.Dict
use kaja.Prelude.Dict.{Dict, sum_by-insert, lookup-insert, length-insert}
use kaja.Call.{MethodCall, call_name}
use kaja.Run.{ConsoleItem}
use kaja.Strip.{
  push_fuel, RunStrip, Bucket, Seen, bucket_calls, bucket_failures, update_at, arrive, note, add,
  add_call, empty, note_bucket, note_seen, fails_now, note_found,
}
use kaja.Strip.Fill.{WellFilled, bucket_calls-le}
use kaja.Strip.Sums.{push_fuel_total, Fits, push-Pushed}

abbrev bit : Bool → ℕ
bit true = 1
bit false = 0

abbrev failed_in : Dict Seen → ℕ
failed_in of = sum_by (λ (seen : Seen). bit seen.failed) (Dict.values of)

pub record IsConsistent (s : RunStrip) : Type 0 where
  pub fits : Fits s
  pub total : bucket_calls s.buckets ≡ s.calls
  pub known : length s.of ≡ s.calls
  pub failures : bucket_failures s.buckets ≡ s.failures
  pub failed : failed_in s.of ≡ s.failures
  pub ordinals :
      (k : String) (seen : Seen) → Dict.lookup k s.of ≡ some seen → seen.ordinal < s.calls

module _ (call : MethodCall) (seen : Seen) where
  abbrev noted : ℕ → List Bucket → List Bucket
  noted i bs = update_at i (note_bucket call seen) bs

  length-noted : (i : ℕ) (bs : List Bucket) → length (noted i bs) ≡ length bs
  length-noted i [] = refl
  length-noted zero (b ∷ bs) = refl
  length-noted (suc i) (b ∷ bs) = ap suc (length-noted i bs)

  calls-noted : (i : ℕ) (bs : List Bucket) → bucket_calls (noted i bs) ≡ bucket_calls bs
  calls-noted i [] = refl
  calls-noted zero (b ∷ bs) = refl
  calls-noted (suc i) (b ∷ bs) = omega (arith, calls-noted i bs)

  failures-noted :
      (i : ℕ) (bs : List Bucket)
      → i < length bs
      → bucket_failures (noted i bs) ≡ bucket_failures bs + bit (fails_now call seen)
  failures-noted i [] h = elim h [ ]
  failures-noted zero (b ∷ bs) h = ground arith
  failures-noted (suc i) (b ∷ bs) h = omega (arith, failures-noted i bs (omega arith))

  WellFilled-noted :
      (cap i : ℕ) (bs : List Bucket) → WellFilled cap bs → WellFilled cap (noted i bs)
  WellFilled-noted cap i [] h = tt
  WellFilled-noted cap zero (b ∷ []) h = h
  WellFilled-noted cap (suc i) (b ∷ []) h = h
  WellFilled-noted cap zero (b ∷ c ∷ bs) h = h
  WellFilled-noted cap (suc zero) (b ∷ c ∷ bs) h = (h.0, WellFilled-noted cap zero (c ∷ bs) h.1)
  WellFilled-noted cap (suc (suc i)) (b ∷ c ∷ bs) h =
      (h.0, WellFilled-noted cap (suc i) (c ∷ bs) h.1)

lt-ltb : (a b : ℕ) → a < b → ltb a b ≡ true
lt-ltb a b h = ground arith

-- The bucket of a call that was counted is there.
bucket_there :
    (s : RunStrip) (o : ℕ) → Fits s → o < bucket_calls s.buckets → o / s.capacity < length s.buckets
bucket_there s o h lt =
    (div-lt_iff_lt-mul h.capacity).1 (grind (arith, bucket_calls-le s.capacity s.buckets h.filled))

module _ (item_id : String) (call : MethodCall) where
  arrive-IsConsistent :
      (s : RunStrip)
      → IsConsistent s
      → Dict.lookup item_id s.of ≡ none
      → IsConsistent (arrive item_id (call_name call) s)
  unfolding arrive
  arrive-IsConsistent s h new =
      let seen : Seen = record { ordinal = s.calls; failed = false; duration = none } in
      let p =
        push-Pushed item_id (call_name call)
          (record s {
            of = Dict.insert item_id seen s.of;
            calls = s.calls + 1;
            methods =
                Dict.insert (call_name call) (get_or (Dict.lookup (call_name call) s.methods) 0 + 1)
                  s.methods;
          })
          (record { room = h.fits.room; capacity = h.fits.capacity; filled = h.fits.filled }) in
      record {
        fits = p.fits;
        total = ground (arith, p.calls, p.total, h.total);
        known = rw (p.of, p.total) (ground (arith, length-insert item_id seen s.of, h.known));
        failures = ground (arith, p.failures, p.failed, h.failures);
        failed =
            rw (p.of, p.failed)
              (ground
                (arith, sum_by-insert (λ (x : Seen). bit x.failed) item_id seen s.of, h.failed));
        ordinals = λ k x e.
            rw p.total
              (ground (arith, rw p.of at e, lookup-insert item_id k seen s.of, h.ordinals k x));
      }

  note-IsConsistent :
      (s : RunStrip) (seen : Seen)
      → IsConsistent s
      → Dict.lookup item_id s.of ≡ some seen
      → IsConsistent (note item_id call seen s)
  unfolding note
  note-IsConsistent s seen h here =
      let at = seen.ordinal / s.capacity in
      let there =
        bucket_there s seen.ordinal h.fits (omega (arith, h.ordinals item_id seen here, h.total)) in
      rw (lt-ltb at (length s.buckets) there) (record {
        fits = record {
          room = rw (length-noted call seen at s.buckets) h.fits.room;
          capacity = h.fits.capacity;
          filled = WellFilled-noted call seen s.capacity at s.buckets h.fits.filled;
        };
        total = calls-noted call seen at s.buckets ∙ h.total;
        known = ground (arith, length-insert item_id (note_seen call seen) s.of, h.known);
        failures = ground (arith, failures-noted call seen at s.buckets there, h.failures);
        failed = ground (
          arith,
          sum_by-insert (λ (x : Seen). bit x.failed) item_id (note_seen call seen) s.of,
          h.failed,
        );
        ordinals = λ k x e. ground (
          arith,
          lookup-insert item_id k (note_seen call seen) s.of,
          eq_iff item_id k,
          h.ordinals k x,
          h.ordinals item_id seen,
        );
      })

  note_found-IsConsistent :
      (s : RunStrip) → IsConsistent s → IsConsistent (note_found item_id call s)
  note_found-IsConsistent s h = elim (Option-cases (Dict.lookup item_id s.of)) [
    | inl new ↦ rw (new, note_found) h
    | inr (seen, here) ↦ rw (here, note_found) (note-IsConsistent s seen h here)
  ]

  add_call-IsConsistent : (s : RunStrip) → IsConsistent s → IsConsistent (add_call item_id call s)
  unfolding add_call
  add_call-IsConsistent s h = elim (Option-cases (Dict.lookup item_id s.of)) [
    | inl new ↦ rw new (note_found-IsConsistent _ (arrive-IsConsistent s h new))
    | inr (seen, here) ↦ rw here (note_found-IsConsistent s h)
  ]

add-IsConsistent : (item : ConsoleItem) (s : RunStrip) → IsConsistent s → IsConsistent (add item s)
unfolding add
add-IsConsistent item s h = elim (Option-cases item.call) [
  | inl other ↦ rw other h
  | inr (call, e) ↦ rw e (add_call-IsConsistent item.id call s h)
]

IsConsistent-empty : IsConsistent empty
unfolding empty
IsConsistent-empty = record {
  fits = record { room = omega arith; capacity = omega arith; filled = tt };
  total = refl;
  known = refl;
  failures = refl;
  failed = refl;
  ordinals = λ k x e. cc;
}

-- The strip of a run to which these items arrived, in this order.
pub add_all : List ConsoleItem → RunStrip → RunStrip
add_all [] s = s
add_all (item ∷ items) s = add_all items (add item s)

add_all-keeps :
    (items : List ConsoleItem) (s : RunStrip) → IsConsistent s → IsConsistent (add_all items s)
unfolding add_all
add_all-keeps [] s h = h
add_all-keeps (item ∷ items) s h = add_all-keeps items (add item s) (add-IsConsistent item s h)

-- Whatever arrives, and however often: the strip has at most 200 buckets, every bucket but the last
-- is filled to the capacity, the calls of the buckets add up to the number of calls seen and their
-- failures to the number of calls seen to fail, and every call's ordinal is below the number of
-- calls.
pub add_all-IsConsistent : (items : List ConsoleItem) → IsConsistent (add_all items empty)
add_all-IsConsistent items = add_all-keeps items empty IsConsistent-empty

-- Whatever arrived before, two rounds are enough for the push of one more call: it ends, with a
-- strip as its result.
pub push_fuel-add_all :
    (items : List ConsoleItem) (item_id method : String)
    → (t : RunStrip) × (push_fuel 2 item_id method (add_all items empty) ≡ some t)
push_fuel-add_all items item_id method =
    let (t, ended, _) =
      push_fuel_total item_id method (add_all items empty) (add_all-IsConsistent items).fits in
    (t, ended)
