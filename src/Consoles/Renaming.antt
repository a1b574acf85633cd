-- ===== src/Consoles/Renaming.antt =====
-- ui/src/consoles.ts: `renameFile`, and the write that comes after it.
use kaja.Prelude.{
  ℕ, ◌≡◌, ap, ◌∙◌, String, true, false, Option, none, some, last?, arith, eq_refl, ◌==◌,
}
use kaja.Prelude.Dict
use kaja.Prelude.Dict.{Dict, lookup-remove}
use kaja.Prelude.Dict.Keys.{last?-insert_new}
use kaja.FileConsole.{FileConsole}
use kaja.FileConsole.Runs
use kaja.Consoles.{Consoles, ensure, write}
use kaja.Consoles.Files.{rename_file, forget_mru}
use kaja.Consoles.Order.{
  SameKeys, SameKeys-trans, touch-SameKeys, flags_changed-SameKeys, store-SameKeys,
}

abbrev renamed : Consoles → String → String → FileConsole → Consoles
renamed s old_id new_id c = record s {
  files = Dict.insert new_id (Runs.rename new_id c) (Dict.remove old_id s.files);
  mru = forget_mru old_id s.mru;
}

forget_mru_other :
    (mru : Option String) (old_id id : String)
    → mru ≡ some id
    → (id == old_id) ≡ false
    → forget_mru old_id mru ≡ some id
forget_mru_other none old_id id e h = absurd (cc e)
forget_mru_other (some other) old_id id e h = ground (arith, e)

module _ (s : Consoles) (old_id new_id id : String) {c : FileConsole}
    (here : Dict.lookup old_id s.files ≡ some c) (fresh : Dict.has new_id s.files ≡ false)
    (recent : s.mru ≡ some id) (other : (id == old_id) ≡ false) where
  rename_file-SameKeys : SameKeys (renamed s old_id new_id c) (rename_file old_id new_id s)
  unfolding rename_file
  rename_file-SameKeys =
      rw (here, rename_file)
        (SameKeys-trans
          (SameKeys-trans (touch-SameKeys old_id true (renamed s old_id new_id c))
            (touch-SameKeys new_id true _))
          (flags_changed-SameKeys _))

  still_fresh : Dict.has new_id (Dict.remove old_id s.files) ≡ false
  still_fresh = ground (arith, lookup-remove old_id new_id s.files)

  rename_file-last : last? (Dict.keys (rename_file old_id new_id s).files) ≡ some new_id
  rename_file-last =
      ap last? rename_file-SameKeys.keys
      ∙ last?-insert_new new_id (Runs.rename new_id c) (Dict.remove old_id s.files) still_fresh

  rename_file-mru : (rename_file old_id new_id s).mru ≡ some id
  rename_file-mru = rename_file-SameKeys.mru ∙ forget_mru_other s.mru old_id id recent other

  -- Renaming a file that is not the most recent one, to an identifier with no console, and then
  -- writing to the most recent file leaves the renamed file last in the map, behind the file that
  -- was written last.
  pub write-rename_file :
      (now : ℕ) (change : FileConsole → FileConsole)
      → last? (Dict.keys (write id now change (rename_file old_id new_id s)).files) ≡ some new_id
  unfolding write ensure
  write-rename_file now change =
      let t = rename_file old_id new_id s in
      ap last? (store-SameKeys id (change (ensure id now t).0) (ensure id now t).1).keys
      ∙ rw rename_file-mru (rw (eq_refl id) rename_file-last)
