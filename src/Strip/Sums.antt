-- ===== src/Strip/Sums.antt =====
-- ui/src/runStrip.ts: a push, and the sums over the buckets.
use kaja.Prelude.{
  ℕ, suc, ◌+◌, ◌≤◌, ◌<◌, ◌≡◌, refl, String, true, false, some, length, leb, arith, Bool-cases, inl,
  inr, sum_by-append, length-append,
}
use kaja.Strip.{
  RunStrip, bucket_calls, bucket_failures, merge_every, merge, has_room, push_fuel, push,
  place_last, place_new,
}
use kaja.Strip.Fill.{
  WellFilled, bump_last-WellFilled, append-WellFilled, merge_fuel-WellFilled, sum_by-merge_fuel,
  length-merge_fuel,
}

pub record Fits (s : RunStrip) : Type 0 where
  pub room : length s.buckets ≤ 200
  pub capacity : 1 ≤ s.capacity
  pub filled : WellFilled s.capacity s.buckets

gt-leb : (n : ℕ) → n < 200 → leb 200 n ≡ false
gt-leb n h = ground arith

-- What a push does: one call more, and nothing else that the strip counts.
pub record Pushed (s t : RunStrip) : Type 0 where
  pub fits : Fits t
  pub calls : bucket_calls t.buckets ≡ bucket_calls s.buckets + 1
  pub failures : bucket_failures t.buckets ≡ bucket_failures s.buckets
  pub of : t.of ≡ s.of
  pub total : t.calls ≡ s.calls
  pub failed : t.failures ≡ s.failures

place_last-Pushed :
    (s : RunStrip) → Fits s → has_room s.buckets s.capacity ≡ true → Pushed s (place_last s)
place_last-Pushed s h roomy =
    let (w, n, f, l) = bump_last-WellFilled s.capacity s.buckets h.filled roomy in
    record {
      fits = record { room = omega arith; capacity = h.capacity; filled = w };
      calls = n;
      failures = f;
      of = refl;
      total = refl;
      failed = refl;
    }

module _ (item_id method : String) where
  place_new-Pushed :
      (s : RunStrip)
      → Fits s
      → has_room s.buckets s.capacity ≡ false
      → length s.buckets < 200
      → Pushed s (place_new item_id method s)
  place_new-Pushed s h full short = record {
    fits = record {
      room = rw length-append (omega arith);
      capacity = h.capacity;
      filled = append-WellFilled s.capacity s.buckets _ h.filled full refl h.capacity;
    };
    calls = rw sum_by-append (omega arith);
    failures = rw sum_by-append (omega arith);
    of = refl;
    total = refl;
    failed = refl;
  }

  -- A merge leaves at most half of the buckets, as well filled at twice the capacity.
  merge-Fits : (s : RunStrip) → Fits s → Fits (merge s) × (length (merge s).buckets ≤ 100)
  unfolding merge merge_every
  merge-Fits s h =
      let short = length-merge_fuel (length s.buckets) 2 s.buckets (omega arith) in
      (
        record {
          room = omega arith;
          capacity = omega arith;
          filled =
              merge_fuel-WellFilled s.capacity (length s.buckets) s.buckets (omega arith) h.filled;
        },
        omega arith,
      )

  merge-Pushed : (s t : RunStrip) → Pushed (merge s) t → Pushed s t
  unfolding merge merge_every
  merge-Pushed s t h =
      let (calls, failures) =
        sum_by-merge_fuel (length s.buckets) 2 s.buckets (omega arith) (omega arith) in
      record {
        fits = h.fits;
        calls = omega arith;
        failures = omega arith;
        of = h.of;
        total = h.total;
        failed = h.failed;
      }

  push_fuel_room :
      (fuel : ℕ) (s : RunStrip)
      → Fits s
      → length s.buckets < 200
      → (t : RunStrip) × (push_fuel (suc fuel) item_id method s ≡ some t) × Pushed s t
  unfolding push_fuel
  push_fuel_room fuel s h short = elim (Bool-cases (has_room s.buckets s.capacity)) [
    | inl roomy ↦ (place_last s, rw roomy, place_last-Pushed s h roomy)
    | inr full ↦ (
      place_new item_id method s,
      rw (full, gt-leb (length s.buckets) short),
      place_new-Pushed s h full short,
    )
  ]

  -- Two rounds are always enough: the merge of the first one makes room for the second.
  pub push_fuel_total :
      (s : RunStrip)
      → Fits s
      → (t : RunStrip) × (push_fuel 2 item_id method s ≡ some t) × Pushed s t
  push_fuel_total s h = elim (Bool-cases (leb 200 (length s.buckets))) [
    | inr short ↦ push_fuel_room 1 s h (ground arith)
    | inl many ↦ elim (Bool-cases (has_room s.buckets s.capacity)) [
      | inl roomy ↦ (place_last s, unfold push_fuel in rw roomy, place_last-Pushed s h roomy)
      | inr full ↦
          let (m, few) = merge-Fits s h in
          let (t, e, p) = push_fuel_room 0 (merge s) m (omega arith) in
          (t, unfold push_fuel in rw (full, many) e, merge-Pushed s t p)
    ]
  ]

  pub push-Pushed : (s : RunStrip) → Fits s → Pushed s (push item_id method s)
  unfolding push
  push-Pushed s h = let (t, e, p) = push_fuel_total s h in rw e p
