-- ===== src/RunStore/Reading.antt =====
-- ui/src/runStore.ts: saving a file's console and loading it.
use kaja.Prelude.{
  ℕ, zero, suc, ◌-◌, ◌≤◌, ◌<◌, ◌≡◌, refl, ap, ◌∙◌, String, true, false, Option, none, some, List,
  [], ◌∷◌, arith, length, take, is_nil, eq_iff, eq_refl,
}
use kaja.Prelude.Dict
use kaja.Prelude.Dict.{Dict, lookup-insert, length-insert}
use kaja.Run.{Run, ConsoleItem}
use kaja.RunStore.{StoredFile, StoredItem}
use kaja.RunStore.Files.{serialize_file, deserialize_file}
use kaja.RunStore.Archive.{
  RunArchive, readable, insert_by_time, by_time, expire, expire_all, prune_archive, found,
  save_runs, load_runs,
}
use kaja.RunStore.Order.{
  is_distinct, lookup-readable, distinct-readable, lookup-by_time, distinct-by_time,
}
use kaja.RunStore.Kept.{lookup-expire_all, has-expire_all, length-expire_all}

take_all {ℓ} : {A : Type ℓ} (n : ℕ) (xs : List A) → length xs ≤ n → take n xs ≡ xs
take_all zero [] h = refl
take_all zero (x ∷ xs) h = absurd (omega (arith, h))
take_all (suc n) [] h = refl
take_all (suc n) (x ∷ xs) h = ap (◌∷◌ x) (take_all n xs (omega (arith, h)))

length-readable-le : (archive : RunArchive) → length (readable archive) ≤ length archive
unfolding readable
length-readable-le [] = omega arith
length-readable-le ((key, none) ∷ archive) = omega (arith, length-readable-le archive)
length-readable-le ((key, some stored) ∷ archive) = omega (arith, length-readable-le archive)

length-insert_by_time :
    (entry : String × StoredFile) (entries : Dict StoredFile)
    → length (insert_by_time entry entries) ≡ suc (length entries)
unfolding insert_by_time
length-insert_by_time entry [] = refl
length-insert_by_time entry (first ∷ entries) = ground (arith, length-insert_by_time entry entries)

length-by_time : (entries : Dict StoredFile) → length (by_time entries) ≡ length entries
unfolding by_time
length-by_time [] = refl
length-by_time (entry ∷ entries) =
    omega (arith, length-insert_by_time entry (by_time entries), length-by_time entries)

distinct-expire_all :
    (cutoff : ℕ) (entries : Dict StoredFile)
    → is_distinct entries ≡ true
    → is_distinct (expire_all cutoff entries) ≡ true
unfolding expire_all
distinct-expire_all cutoff [] h = refl
distinct-expire_all cutoff ((key, stored) ∷ entries) h =
    ground (arith, h, has-expire_all key cutoff entries, distinct-expire_all cutoff entries)

distinct-insert :
    (key : String) (entry : Option StoredFile) (archive : RunArchive)
    → is_distinct archive ≡ true
    → is_distinct (Dict.insert key entry archive) ≡ true
distinct-insert key entry [] h = refl
distinct-insert key entry ((other, first) ∷ archive) h = ground (
  arith,
  h,
  distinct-insert key entry archive,
  lookup-insert key other entry archive,
  eq_iff other key,
  eq_iff key other,
)

-- An archive of no more than fifty files, each named once.
record IsRoomy (archive : RunArchive) : Type 0 where
  distinct : is_distinct archive ≡ true
  roomy : length archive ≤ 50

module _ (archive : RunArchive) (now : ℕ) (h : IsRoomy archive) where
  all_kept : take 50 (by_time (readable archive)) ≡ by_time (readable archive)
  all_kept =
      take_all 50 (by_time (readable archive))
        (omega (arith, length-by_time (readable archive), length-readable-le archive, h.roomy))

  prune_archive-IsRoomy : IsRoomy (prune_archive archive now)
  unfolding prune_archive
  prune_archive-IsRoomy =
      rw (all_kept, prune_archive)
        (record {
          distinct =
              distinct-expire_all (now - 604800000) (by_time (readable archive))
                (distinct-by_time (readable archive) (distinct-readable archive h.distinct));
          roomy = omega (
            arith,
            length-expire_all (now - 604800000) (by_time (readable archive)),
            length-by_time (readable archive),
            length-readable-le archive,
            h.roomy,
          );
        })

  lookup-prune_archive :
      (key : String) (stored : StoredFile)
      → found (Dict.lookup key archive) ≡ some stored
      → found (Dict.lookup key (prune_archive archive now)) ≡ some (expire (now - 604800000) stored)
  unfolding prune_archive
  lookup-prune_archive key stored here =
      rw (all_kept, prune_archive)
        (ground (
          arith,
          lookup-expire_all key (now - 604800000) (by_time (readable archive)),
          lookup-by_time key (readable archive) (distinct-readable archive h.distinct),
          lookup-readable key archive h.distinct,
          here,
        ))

expire_now :
    (now : ℕ) (stored : StoredFile)
    → stored.stored_at ≡ now
    → expire (now - 604800000) stored ≡ stored
unfolding expire
expire_now now stored h = ground (arith, h)

module _ (size : List StoredItem → Option ℕ) (file_id : String) (runs : List Run)
    (items : List ConsoleItem) (now : ℕ) (archive : RunArchive) where
  -- Where the archive has fewer than fifty files, each named once, a file that was saved with at least
  -- one run and is loaded at once comes back as it was stored.
  pub load_runs-save_runs :
      is_distinct archive ≡ true
      → length archive < 50
      → is_nil runs ≡ false
      → load_runs file_id now (save_runs size file_id runs items now archive)
        ≡ some (deserialize_file (serialize_file size runs items now))
  unfolding load_runs save_runs serialize_file
  load_runs-save_runs distinct roomy run =
      let stored = serialize_file size runs items now in
      let added = Dict.insert file_id (some stored) archive in
      let h : IsRoomy added = record {
        distinct = distinct-insert file_id (some stored) archive distinct;
        roomy = ground (arith, roomy, length-insert file_id (some stored) archive);
      } in
      let once =
        lookup-prune_archive added now h file_id stored
          (ground (arith, lookup-insert file_id file_id (some stored) archive, eq_refl file_id)) in
      let saved = expire_now now stored refl in
      let twice =
        lookup-prune_archive (prune_archive added now) now (prune_archive-IsRoomy added now h)
          file_id stored (once ∙ ap some saved) in
      rw (run, save_runs) (rw (twice, load_runs) (ap (λ file. some (deserialize_file file)) saved))
