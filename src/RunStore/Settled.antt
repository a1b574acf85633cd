-- ===== src/RunStore/Settled.antt =====
-- ui/src/runStore.ts: what is read back of blocks that waited when they were stored.
use kaja.Prelude.{
  ℕ, ◌≡◌, refl, String, Bool, true, not, ◌&&◌, ◌||◌, Option, none, some, List, [], ◌∷◌, ◌++◌, arith,
  ltb, all, Bool-cases, inl, inr,
}
use kaja.Block.{Block, is_awaiting_user}
use kaja.Run.{Run, ConsoleItem}
use kaja.RunStore.{StoredItem, stored_block, stored_blocks, to_stored_item}
use kaja.RunStore.Files.{
  from_stored_item, run_items, read_runs, deserialize_file, stored_items, payload_bytes, store_runs,
  kept_runs, serialize_file,
}

-- It waits for nobody: no question, no approval, no source of rows.
abbrev pub is_settled : Block → Bool
is_settled (Block.table block) = not (block.live && not block.exhausted)
is_settled block = not (is_awaiting_user block)

abbrev pub settled_block : Option Block → Bool
settled_block none = true
settled_block (some block) = is_settled block

abbrev pub settled_item : ConsoleItem → Bool
settled_item item = settled_block item.block

abbrev settled_entry : StoredItem → Bool
settled_entry item = settled_block item.block

settled-stored_blocks : (block : Option Block) → settled_block (stored_blocks block) ≡ true
unfolding stored_block is_awaiting_user
settled-stored_blocks none = refl
settled-stored_blocks (some (Block.text text)) = refl
settled-stored_blocks (some (Block.code code language)) = refl
settled-stored_blocks (some (Block.table block)) = ground arith
settled-stored_blocks (some (Block.ask block)) = ground arith
settled-stored_blocks (some (Block.approve block)) = ground arith

settled-stored_items :
    (run_id : String) (items : List ConsoleItem)
    → all settled_entry (stored_items run_id items) ≡ true
unfolding stored_items to_stored_item
settled-stored_items run_id [] = refl
settled-stored_items run_id (item ∷ items) =
    ground (arith, settled-stored_items run_id items, settled-stored_blocks item.block)

settled-run_items :
    (run_id : String) (items : List StoredItem)
    → all settled_entry items ≡ true
    → all settled_item (run_items run_id items) ≡ true
unfolding run_items from_stored_item
settled-run_items run_id [] h = refl
settled-run_items run_id (item ∷ items) h = ground (arith, settled-run_items run_id items)

all-append {ℓ} :
    {A : Type ℓ} (p : A → Bool) (xs ys : List A)
    → all p xs ≡ true
    → all p ys ≡ true
    → all p (xs ++ ys) ≡ true
all-append p [] ys h h' = h'
all-append p (x ∷ xs) ys h h' = ground (arith, all-append p xs ys)

module _ (size : List StoredItem → Option ℕ) where
  settled-store_runs :
      (runs : List Run) (items : List ConsoleItem)
      → all settled_item (read_runs (store_runs size runs items).0).items ≡ true
  unfolding store_runs read_runs run_items
  settled-store_runs [] items = refl
  settled-store_runs (run ∷ runs) items =
      let payload = stored_items run.id items in
      let budget = (store_runs size runs items).1 in
      elim (Bool-cases (run.payloads_expired || ltb budget (payload_bytes size payload))) [
        | inl left_out ↦ rw (left_out, store_runs) (settled-store_runs runs items)
        | inr fits ↦
            rw (fits, store_runs)
              (all-append settled_item (run_items run.id payload)
                (read_runs (store_runs size runs items).0).items
                (settled-run_items run.id payload (settled-stored_items run.id items))
                (settled-store_runs runs items))
      ]

  -- Whatever a file's console held when it was stored, nothing that is read back waits for the user:
  -- no question is unanswered and not cancelled, no call is undecided, and no table has a live source
  -- that is not exhausted.
  pub deserialize_file-settled :
      (runs : List Run) (items : List ConsoleItem) (now : ℕ)
      → all settled_item (deserialize_file (serialize_file size runs items now)).items ≡ true
  unfolding deserialize_file serialize_file
  deserialize_file-settled runs items now = settled-store_runs (kept_runs runs) items
