-- ===== src/Strip/Fill.antt =====
-- ui/src/runStrip.ts: how the buckets are filled, and how merging them keeps that.
use kaja.Prelude.{
  ℕ, zero, suc, ◌+◌, ◌-◌, ◌*◌, ◌≤◌, ◌≡◌, refl, true, false, List, [], ◌∷◌, ◌++◌, length, arith,
  sum_by, take, drop, sym, ap, ◌∙◌, sum_by-append, take-append-drop, length-drop,
}
use kaja.Strip.{Bucket, bucket_calls, bucket_failures, merge_fuel, bump_last, has_room}

abbrev pub WellFilled : ℕ → List Bucket → Type 0
WellFilled cap [] = Unit
WellFilled cap (b ∷ []) = (1 ≤ b.calls) × (b.calls ≤ cap)
WellFilled cap (b ∷ c ∷ bs) = (b.calls ≡ cap) × WellFilled cap (c ∷ bs)

split :
    (f : Bucket → ℕ) (k : ℕ) (bs : List Bucket)
    → sum_by f (take k bs) + sum_by f (drop k bs) ≡ sum_by f bs
split f k bs = sym (sum_by-append f (take k bs) (drop k bs)) ∙ ap (sum_by f) (take-append-drop k bs)

module _ (cap : ℕ) where
  pub bucket_calls-le : (bs : List Bucket) → WellFilled cap bs → bucket_calls bs ≤ cap * length bs
  bucket_calls-le [] h = omega arith
  bucket_calls-le (b ∷ []) h = omega arith
  bucket_calls-le (b ∷ c ∷ bs) h = grind (arith, bucket_calls-le (c ∷ bs) h.1)

  pub bump_last-WellFilled :
      (bs : List Bucket)
      → WellFilled cap bs
      → has_room bs cap ≡ true
      → WellFilled cap (bump_last bs)
        × (bucket_calls (bump_last bs) ≡ bucket_calls bs + 1)
        × (bucket_failures (bump_last bs) ≡ bucket_failures bs)
        × (length (bump_last bs) ≡ length bs)
  unfolding bump_last has_room
  bump_last-WellFilled [] h r = ground arith
  bump_last-WellFilled (b ∷ []) h r = ground arith
  bump_last-WellFilled (b ∷ c ∷ []) h r = ground arith
  bump_last-WellFilled (b ∷ c ∷ d ∷ bs) h r =
      let (w, n, f, l) = bump_last-WellFilled (c ∷ d ∷ bs) h.1 r in
      ((h.0, w), omega arith, omega arith, omega arith)

  pub append-WellFilled :
      (bs : List Bucket) (b : Bucket)
      → WellFilled cap bs
      → has_room bs cap ≡ false
      → b.calls ≡ 1
      → 1 ≤ cap
      → WellFilled cap (bs ++ b ∷ [])
  unfolding has_room
  append-WellFilled [] b h r e p = ground arith
  append-WellFilled (x ∷ []) b h r e p = ground arith
  append-WellFilled (x ∷ y ∷ bs) b h r e p = (h.0, append-WellFilled (y ∷ bs) b h.1 r e p)

  pub merge_fuel-WellFilled :
      (fuel : ℕ) (bs : List Bucket)
      → length bs ≤ fuel
      → WellFilled cap bs
      → WellFilled (cap * 2) (merge_fuel fuel 2 bs)
  unfolding merge_fuel
  merge_fuel-WellFilled zero [] n h = tt
  merge_fuel-WellFilled zero (b ∷ bs) n h = absurd (omega arith)
  merge_fuel-WellFilled (suc fuel) [] n h = tt
  merge_fuel-WellFilled (suc zero) (b ∷ []) n h = omega arith
  merge_fuel-WellFilled (suc (suc fuel)) (b ∷ []) n h = omega arith
  merge_fuel-WellFilled (suc zero) (b ∷ c ∷ bs) n h = absurd (omega arith)
  merge_fuel-WellFilled (suc (suc fuel)) (b ∷ c ∷ []) n h = omega arith
  merge_fuel-WellFilled (suc (suc fuel)) (b ∷ c ∷ d ∷ bs) n h =
      (ground arith, merge_fuel-WellFilled (suc fuel) (d ∷ bs) (omega arith) h.1.1)

-- A merge keeps the sums, whatever the factor.
pub sum_by-merge_fuel :
    (fuel factor : ℕ) (bs : List Bucket)
    → length bs ≤ fuel
    → 1 ≤ factor
    → (bucket_calls (merge_fuel fuel factor bs) ≡ bucket_calls bs)
      × (bucket_failures (merge_fuel fuel factor bs) ≡ bucket_failures bs)
unfolding merge_fuel
sum_by-merge_fuel zero factor [] n h = (refl, refl)
sum_by-merge_fuel zero factor (b ∷ bs) n h = absurd (omega arith)
sum_by-merge_fuel (suc fuel) factor [] n h = (refl, refl)
sum_by-merge_fuel (suc fuel) (suc k) (b ∷ bs) n h =
    let (calls, failures) =
      sum_by-merge_fuel fuel (suc k) (drop k bs) (omega (arith, length-drop k bs)) h in
    (omega (arith, split (λ b. b.calls) k bs), omega (arith, split (λ b. b.failures) k bs))
sum_by-merge_fuel (suc fuel) zero (b ∷ bs) n h = absurd (omega arith)

round : (l k n : ℕ) → l * suc k + 1 ≤ n - k + suc k → suc l * suc k + 1 ≤ suc n + suc k
round zero k n h = omega arith
round (suc l) k n h = grind arith

-- The rounds of a merge: each but the last takes `factor` buckets.
pub length-merge_fuel :
    (fuel factor : ℕ) (bs : List Bucket)
    → 1 ≤ factor
    → length (merge_fuel fuel factor bs) * factor + 1 ≤ length bs + factor
unfolding merge_fuel
length-merge_fuel zero factor bs h = omega arith
length-merge_fuel (suc fuel) factor [] h = omega arith
length-merge_fuel (suc fuel) zero (b ∷ bs) h = absurd (omega arith)
length-merge_fuel (suc fuel) (suc k) (b ∷ bs) h =
    round (length (merge_fuel fuel (suc k) (drop k bs))) k (length bs)
      (rw (length-drop k bs) at (length-merge_fuel fuel (suc k) (drop k bs) h))
