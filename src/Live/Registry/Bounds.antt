-- ===== src/Live/Registry/Bounds.antt =====
-- ui/src/kaja.ts: the budget of `LiveTables`.
use kaja.Prelude.{◌-◌, ◌≤◌, ◌≡◌, refl, String, some, List, [], ◌∷◌, arith, length, eq_refl}
use kaja.Prelude.Dict.{Dict, lookup-insert, length-insert}
use kaja.Live.Registry.{Entry, open_table, without_oldest, get, owner}

-- A table that is opened: its block, what is held of it, and its run.
pub record Opening {ℓ} (T : Type ℓ) : Type ℓ where
  pub block_id : String
  pub table : T
  pub owner : String

module _ {ℓ} {T : Type ℓ} where
  unfoldable pub open_tables : List (Opening T) → Dict (Entry T) → Dict (Entry T)
  unfolding open_table
  open_tables [] entries = entries
  open_tables (o ∷ opens) entries =
      open_tables opens (open_table o.block_id o.table o.owner entries)

  length-without_oldest :
      (entries : Dict (Entry T)) → length (without_oldest entries) ≡ length entries - 1
  length-without_oldest [] = refl
  length-without_oldest (entry ∷ entries) = omega arith

  length-open_table :
      (block_id : String) (table : T) (owner : String) (entries : Dict (Entry T))
      → length entries ≤ 24
      → length (open_table block_id table owner entries) ≤ 24
  unfolding open_table
  length-open_table block_id table owner entries h =
      let entry : Entry T = record { table = table; owner = owner } in
      ground (
        arith,
        h,
        length-without_oldest entries,
        length-insert block_id entry entries,
        length-insert block_id entry (without_oldest entries),
      )

  length-open_tables :
      (opens : List (Opening T)) (entries : Dict (Entry T))
      → length entries ≤ 24
      → length (open_tables opens entries) ≤ 24
  unfolding open_tables
  length-open_tables [] entries h = h
  length-open_tables (o ∷ opens) entries h =
      length-open_tables opens (open_table o.block_id o.table o.owner entries)
        (length-open_table o.block_id o.table o.owner entries h)

  -- However many tables are opened, of whatever runs: at most 24 are held, and the one opened last is
  -- among them, with its run as its owner.
  pub get-open_tables :
      (opens : List (Opening T)) (block_id : String) (table : T) (run : String)
      → (length (open_table block_id table run (open_tables opens [])) ≤ 24)
        × (get block_id (open_table block_id table run (open_tables opens [])) ≡ some table)
        × (owner block_id (open_table block_id table run (open_tables opens [])) ≡ some run)
  unfolding open_table get owner
  get-open_tables opens block_id table run =
      let entries = open_tables opens [] in
      let entry : Entry T = record { table = table; owner = run } in
      let bound =
        length-open_table block_id table run entries (length-open_tables opens [] (omega arith)) in
      (
        bound,
        ground (
          arith,
          eq_refl block_id,
          lookup-insert block_id block_id entry entries,
          lookup-insert block_id block_id entry (without_oldest entries),
        ),
        ground (
          arith,
          eq_refl block_id,
          lookup-insert block_id block_id entry entries,
          lookup-insert block_id block_id entry (without_oldest entries),
        ),
      )
