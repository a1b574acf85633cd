-- ===== src/Live/Registry.antt =====
-- ui/src/kaja.ts: `LiveTables`, the tables whose sources are held, each with the run that drew it.
pub mod Bounds
use kaja.Prelude.{
  ℕ, String, Bool, Option, none, some, List, [], ◌∷◌, leb, length, is_some, if◌then◌else◌, ◌==◌,
}
use kaja.Prelude.Dict
use kaja.Prelude.Dict.{Dict}

-- The owner of a table is named by its run.
pub record Entry {ℓ} (T : Type ℓ) : Type ℓ where
  pub table : T
  pub owner : String

abbrev pub max_live_tables : ℕ
max_live_tables = 24

module _ {ℓ} {T : Type ℓ} where
  abbrev pub without_oldest : Dict (Entry T) → Dict (Entry T)
  without_oldest [] = []
  without_oldest (oldest ∷ entries) = entries

  unfoldable pub open_table : String → T → String → Dict (Entry T) → Dict (Entry T)
  open_table block_id table owner entries =
      Dict.insert block_id (record { table = table; owner = owner })
        (if leb max_live_tables (length entries) then without_oldest entries else entries)

  unfoldable pub get : String → Dict (Entry T) → Option T
  get block_id entries = elim (Dict.lookup block_id entries) [
    | none ↦ none
    | some entry ↦ some entry.table
  ]

  unfoldable pub owner : String → Dict (Entry T) → Option String
  owner block_id entries = elim (Dict.lookup block_id entries) [
    | none ↦ none
    | some entry ↦ some entry.owner
  ]

  unfoldable pub owned_by : String → Dict (Entry T) → List T
  owned_by owner [] = []
  owned_by owner ((block_id, entry) ∷ entries) =
      let rest = owned_by owner entries in if entry.owner == owner then entry.table ∷ rest else rest
