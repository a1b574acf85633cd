-- ===== src/RunStore/Order.antt =====
-- ui/src/runStore.ts: which files the archive keeps.
use kaja.Prelude.{
  ℕ, ◌≡◌, refl, String, Bool, true, false, not, ◌&&◌, none, some, [], ◌∷◌, arith, leb, all,
  if◌then◌else◌, eq_iff, ◌==◌,
}
use kaja.Prelude.Dict
use kaja.Prelude.Dict.{Dict}
use kaja.RunStore.{StoredFile}
use kaja.RunStore.Archive.{RunArchive, last_run_at, readable, insert_by_time, by_time, found}

-- No key stands twice.
abbrev pub is_distinct {ℓ} : {V : Type ℓ} → Dict V → Bool
is_distinct [] = true
is_distinct ((key, v) ∷ entries) = not (Dict.has key entries) && is_distinct entries

has-readable :
    (key : String) (archive : RunArchive)
    → Dict.has key archive ≡ false
    → Dict.has key (readable archive) ≡ false
unfolding readable
has-readable key [] h = refl
has-readable key ((other, none) ∷ archive) h = ground (arith, has-readable key archive)
has-readable key ((other, some stored) ∷ archive) h = ground (arith, has-readable key archive)

pub distinct-readable :
    (archive : RunArchive) → is_distinct archive ≡ true → is_distinct (readable archive) ≡ true
unfolding readable
distinct-readable [] h = refl
distinct-readable ((key, none) ∷ archive) h = ground (arith, distinct-readable archive)
distinct-readable ((key, some stored) ∷ archive) h =
    ground (arith, distinct-readable archive, has-readable key archive)

pub lookup-readable :
    (key : String) (archive : RunArchive)
    → is_distinct archive ≡ true
    → Dict.lookup key (readable archive) ≡ found (Dict.lookup key archive)
unfolding readable
lookup-readable key [] h = refl
lookup-readable key ((other, none) ∷ archive) h =
    ground (arith, lookup-readable key archive, eq_iff other key, has-readable other archive)
lookup-readable key ((other, some stored) ∷ archive) h = ground (arith, lookup-readable key archive)

lookup-insert_by_time :
    (key other : String) (stored : StoredFile) (entries : Dict StoredFile)
    → Dict.has other entries ≡ false
    → Dict.lookup key (insert_by_time (other, stored) entries)
      ≡ (if other == key then some stored else Dict.lookup key entries)
unfolding insert_by_time
lookup-insert_by_time key other stored [] h = refl
lookup-insert_by_time key other stored ((first, file) ∷ entries) h = ground (
  arith,
  lookup-insert_by_time key other stored entries,
  eq_iff other key,
  eq_iff first key,
  eq_iff first other,
)

has-insert_by_time :
    (key other : String) (stored : StoredFile) (entries : Dict StoredFile)
    → (other == key) ≡ false
    → Dict.has key (insert_by_time (other, stored) entries) ≡ Dict.has key entries
unfolding insert_by_time
has-insert_by_time key other stored [] h = ground (arith, h)
has-insert_by_time key other stored ((first, file) ∷ entries) h =
    ground (arith, h, has-insert_by_time key other stored entries)

distinct-insert_by_time :
    (other : String) (stored : StoredFile) (entries : Dict StoredFile)
    → Dict.has other entries ≡ false
    → is_distinct entries ≡ true
    → is_distinct (insert_by_time (other, stored) entries) ≡ true
unfolding insert_by_time
distinct-insert_by_time other stored [] h d = refl
distinct-insert_by_time other stored ((first, file) ∷ entries) h d = ground (
  arith,
  h,
  d,
  distinct-insert_by_time other stored entries,
  has-insert_by_time first other stored entries,
  eq_iff first other,
  eq_iff other first,
)

has-by_time :
    (key : String) (entries : Dict StoredFile)
    → Dict.has key entries ≡ false
    → Dict.has key (by_time entries) ≡ false
unfolding by_time
has-by_time key [] h = refl
has-by_time key ((other, stored) ∷ entries) h =
    ground
      (arith, h, has-by_time key entries, has-insert_by_time key other stored (by_time entries))

pub distinct-by_time :
    (entries : Dict StoredFile) → is_distinct entries ≡ true → is_distinct (by_time entries) ≡ true
unfolding by_time
distinct-by_time [] h = refl
distinct-by_time ((key, stored) ∷ entries) h = ground (
  arith,
  h,
  distinct-by_time entries,
  has-by_time key entries,
  distinct-insert_by_time key stored (by_time entries),
)

pub lookup-by_time :
    (key : String) (entries : Dict StoredFile)
    → is_distinct entries ≡ true
    → Dict.lookup key (by_time entries) ≡ Dict.lookup key entries
unfolding by_time
lookup-by_time key [] h = refl
lookup-by_time key ((other, stored) ∷ entries) h = ground (
  arith,
  h,
  lookup-by_time key entries,
  has-by_time other entries,
  lookup-insert_by_time key other stored (by_time entries),
)

-- The file ran no later than the entry.
abbrev pub runs_before : ℕ → String × StoredFile → Bool
runs_before time entry = leb time (last_run_at entry.1)

-- The entry ran no later than the time.
abbrev pub runs_by : ℕ → String × StoredFile → Bool
runs_by time entry = leb (last_run_at entry.1) time

abbrev pub is_descending : Dict StoredFile → Bool
is_descending [] = true
is_descending (entry ∷ entries) =
    all (runs_by (last_run_at entry.1)) entries && is_descending entries

by-insert_by_time :
    (time : ℕ) (entry : String × StoredFile) (entries : Dict StoredFile)
    → leb (last_run_at entry.1) time ≡ true
    → all (runs_by time) entries ≡ true
    → all (runs_by time) (insert_by_time entry entries) ≡ true
unfolding insert_by_time
by-insert_by_time time entry [] h h' = ground (arith, h)
by-insert_by_time time entry (first ∷ entries) h h' =
    ground (arith, h, h', by-insert_by_time time entry entries)

runs_by-le :
    (low high : ℕ) (entries : Dict StoredFile)
    → leb low high ≡ true
    → all (runs_by low) entries ≡ true
    → all (runs_by high) entries ≡ true
runs_by-le low high [] h h' = refl
runs_by-le low high (entry ∷ entries) h h' = ground (arith, h, h', runs_by-le low high entries)

descending-insert_by_time :
    (entry : String × StoredFile) (entries : Dict StoredFile)
    → is_descending entries ≡ true
    → is_descending (insert_by_time entry entries) ≡ true
unfolding insert_by_time
descending-insert_by_time entry [] h = refl
descending-insert_by_time entry (first ∷ entries) h = ground (
  arith,
  h,
  descending-insert_by_time entry entries,
  by-insert_by_time (last_run_at first.1) entry entries,
  runs_by-le (last_run_at first.1) (last_run_at entry.1) entries,
)

pub descending-by_time : (entries : Dict StoredFile) → is_descending (by_time entries) ≡ true
unfolding by_time
descending-by_time [] = refl
descending-by_time (entry ∷ entries) =
    descending-insert_by_time entry (by_time entries) (descending-by_time entries)
