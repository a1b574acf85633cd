-- ===== src/RunStore/Budget.antt =====
-- ui/src/runStore.ts: how many runs of a file are stored and how much of their payloads.
use kaja.Prelude.{
  ◌⊎◌, ℕ, ◌+◌, ◌-◌, ◌≤◌, ◌≡◌, refl, String, true, ◌||◌, Option, List, [], ◌∷◌, arith, map, ltb,
  length, drop, length-drop, All, filter, sum_by, Bool-cases, inl, inr, if◌then◌else◌, false, ◌==◌,
}
use kaja.Run.{Run, ConsoleItem}
use kaja.RunStore.{StoredItem, StoredRun, to_stored_item}
use kaja.RunStore.Files.{payload_bytes, stored_items, store_runs, kept_runs, serialize_file}

-- The items of a run, each as it is stored.
abbrev pub payload_of : String → List ConsoleItem → List StoredItem
payload_of id items = map to_stored_item (filter (λ (item : ConsoleItem). item.run_id == id) items)

-- A stored run is of an earlier session, and has all of its payload or says that it has none.
pub IsStated : List ConsoleItem → StoredRun → Type 0
IsStated items entry =
    (entry.run.stale ≡ true)
    × (((entry.run.payloads_expired ≡ true) × (entry.items ≡ []))
        ⊎ ((entry.run.payloads_expired ≡ false) × (entry.items ≡ payload_of entry.run.id items)))

stored_items_lem :
    (id : String) (items : List ConsoleItem) → stored_items id items ≡ payload_of id items
unfolding stored_items
stored_items_lem id [] = refl
stored_items_lem id (item ∷ items) = ground (arith, stored_items_lem id items)

abbrev pub run_id : StoredRun → String
run_id entry = entry.run.id

module _ (size : List StoredItem → Option ℕ) where
  -- What the payload of a stored run takes of the budget: nothing where it was left out.
  abbrev pub spent : StoredRun → ℕ
  spent entry = if entry.run.payloads_expired then 0 else payload_bytes size entry.items

  -- The runs with what is stored of them: a payload is left out exactly where it was gone already or
  -- where it and those stored of the newer runs are more than the limit.
  pub IsFit : List ConsoleItem → List Run → List StoredRun → Type 0
  IsFit items [] stored = Unit
  IsFit items (run ∷ runs) [] = ⊥
  IsFit items (run ∷ runs) (entry ∷ stored) =
      (entry.run.payloads_expired ≡ (
        run.payloads_expired
        || ltb 524288 (sum_by spent stored + payload_bytes size (payload_of run.id items))))
      × IsFit items runs stored

  spent-store_runs :
      (runs : List Run) (items : List ConsoleItem)
      → sum_by spent (store_runs size runs items).0 + (store_runs size runs items).1 ≡ 524288
  unfolding store_runs
  spent-store_runs [] items = omega arith
  spent-store_runs (run ∷ runs) items =
      let payload = stored_items run.id items in
      let budget = (store_runs size runs items).1 in
      elim (Bool-cases (run.payloads_expired || ltb budget (payload_bytes size payload))) [
        | inl left_out ↦ rw (left_out, store_runs) (omega (arith, spent-store_runs runs items))
        | inr fits ↦ rw (fits, store_runs) (ground (arith, fits, spent-store_runs runs items))
      ]

  store_runs-IsStated :
      (runs : List Run) (items : List ConsoleItem)
      → All (IsStated items) (store_runs size runs items).0
  unfolding store_runs IsStated
  store_runs-IsStated [] items = tt
  store_runs-IsStated (run ∷ runs) items =
      let payload = stored_items run.id items in
      let budget = (store_runs size runs items).1 in
      elim (Bool-cases (run.payloads_expired || ltb budget (payload_bytes size payload))) [
        | inl left_out ↦
            rw (left_out, store_runs) ((refl, inl (refl, refl)), store_runs-IsStated runs items)
        | inr fits ↦
            rw (fits, store_runs)
              ((refl, inr (refl, stored_items_lem run.id items)), store_runs-IsStated runs items)
      ]

  store_runs-IsFit :
      (runs : List Run) (items : List ConsoleItem) → IsFit items runs (store_runs size runs items).0
  unfolding store_runs IsFit
  store_runs-IsFit [] items = tt
  store_runs-IsFit (run ∷ runs) items =
      let payload = stored_items run.id items in
      let budget = (store_runs size runs items).1 in
      let bytes = payload_bytes size payload in
      let measured : ltb budget bytes
          ≡ ltb 524288 (
              sum_by spent (store_runs size runs items).0
              + payload_bytes size (payload_of run.id items)) =
        ground (arith, spent-store_runs runs items, stored_items_lem run.id items) in
      elim (Bool-cases (run.payloads_expired || ltb budget bytes)) [
        | inl left_out ↦
            rw (left_out, store_runs)
              (ground (arith, left_out, measured), store_runs-IsFit runs items)
        | inr fits ↦
            rw (fits, store_runs) (ground (arith, fits, measured), store_runs-IsFit runs items)
      ]

  ids-store_runs :
      (runs : List Run) (items : List ConsoleItem)
      → map run_id (store_runs size runs items).0 ≡ map (λ (run : Run). run.id) runs
  unfolding store_runs
  ids-store_runs [] items = refl
  ids-store_runs (run ∷ runs) items = ground (arith, ids-store_runs runs items)

  -- A file is stored with its last three runs at most, in their order, each marked as of an earlier
  -- session. The payloads that are stored take no more than 512 KiB together. A run has every item
  -- of its own, in their order and each as it is stored, and is not marked as expired, or it has
  -- none and is marked so; it is left with none exactly where its payload was gone already, or where
  -- its payload and those stored of the newer runs are more than 512 KiB.
  pub serialize_file-budget :
      (runs : List Run) (items : List ConsoleItem) (now : ℕ)
      → (sum_by spent (serialize_file size runs items now).runs ≤ 524288)
        × All (IsStated items) (serialize_file size runs items now).runs
        × IsFit items (drop (length runs - 3) runs) (serialize_file size runs items now).runs
        × (map run_id (serialize_file size runs items now).runs
            ≡ map (λ (run : Run). run.id) (drop (length runs - 3) runs))
        × (length (drop (length runs - 3) runs) ≤ 3)
  unfolding serialize_file
  serialize_file-budget runs items now =
      let kept = kept_runs runs in
      (
        omega (arith, spent-store_runs kept items),
        store_runs-IsStated kept items,
        store_runs-IsFit kept items,
        ids-store_runs kept items,
        omega (arith, length-drop (length runs - 3) runs),
      )
