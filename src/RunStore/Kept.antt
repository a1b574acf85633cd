-- ===== src/RunStore/Kept.antt =====
-- ui/src/runStore.ts: the fifty files that pruning keeps, and those that it lets go.
use kaja.Prelude.{
  ◌⊎◌, ℕ, zero, suc, ◌-◌, ◌≤◌, ◌≡◌, refl, ◌∙◌, String, Bool, true, false, Option, none, some, List,
  [], ◌∷◌, arith, map, leb, length, length-take, take, all, Bool-cases, inl, inr,
}
use kaja.Prelude.Dict
use kaja.Prelude.Dict.{Dict}
use kaja.RunStore.{StoredFile, StoredRun}
use kaja.RunStore.Archive.{
  RunArchive, last_start, last_run_at, readable, by_time, without_payload, expire, expire_all,
  prune_archive, found,
}
use kaja.RunStore.Order.{
  is_distinct, lookup-readable, distinct-readable, lookup-by_time, descending-by_time, runs_by,
  runs_before, is_descending,
}

pub lookup-expire_all :
    (key : String) (cutoff : ℕ) (entries : Dict StoredFile)
    → found (Dict.lookup key (expire_all cutoff entries))
      ≡ elim (Dict.lookup key entries) [ none ↦ none | some stored ↦ some (expire cutoff stored) ]
unfolding expire_all
lookup-expire_all key cutoff [] = refl
lookup-expire_all key cutoff ((other, stored) ∷ entries) =
    ground (arith, lookup-expire_all key cutoff entries)

pub has-expire_all :
    (key : String) (cutoff : ℕ) (entries : Dict StoredFile)
    → Dict.has key (expire_all cutoff entries) ≡ Dict.has key entries
unfolding expire_all
has-expire_all key cutoff [] = refl
has-expire_all key cutoff ((other, stored) ∷ entries) =
    ground (arith, has-expire_all key cutoff entries)

pub length-expire_all :
    (cutoff : ℕ) (entries : Dict StoredFile) → length (expire_all cutoff entries) ≡ length entries
unfolding expire_all
length-expire_all cutoff [] = refl
length-expire_all cutoff (entry ∷ entries) = omega (arith, length-expire_all cutoff entries)

-- The time of a file's last run is in what is left of it.
last_without_payload :
    (runs : List StoredRun) → last_start (map without_payload runs) ≡ last_start runs
last_without_payload [] = refl
last_without_payload (entry ∷ []) = refl
last_without_payload (entry ∷ other ∷ runs) = last_without_payload (other ∷ runs)

last_run_at-expire :
    (cutoff : ℕ) (stored : StoredFile) → last_run_at (expire cutoff stored) ≡ last_run_at stored
unfolding last_run_at expire
last_run_at-expire cutoff stored = ground (arith, last_without_payload stored.runs)

all-lookup :
    (time : ℕ) (key : String) (entries : Dict StoredFile) (stored : StoredFile)
    → all (runs_by time) entries ≡ true
    → Dict.lookup key entries ≡ some stored
    → leb (last_run_at stored) time ≡ true
all-lookup time key [] stored h e = cc
all-lookup time key ((other, first) ∷ entries) stored h e =
    ground (arith, h, e, all-lookup time key entries stored)

before-take :
    (n : ℕ) (key : String) (entries : Dict StoredFile) (stored : StoredFile)
    → is_descending entries ≡ true
    → Dict.lookup key entries ≡ some stored
    → Dict.has key (take n entries) ≡ false
    → all (runs_before (last_run_at stored)) (take n entries) ≡ true
before-take zero key entries stored d e h = refl
before-take (suc n) key [] stored d e h = refl
before-take (suc n) key ((other, first) ∷ entries) stored d e h = ground (
  arith,
  d,
  e,
  h,
  before-take n key entries stored,
  all-lookup (last_run_at first) key entries stored,
)

-- An entry that can be read and ran no earlier than the time.
abbrev pub ran_since : ℕ → String × Option StoredFile → Bool
ran_since time (key, none) = false
ran_since time (key, some stored) = leb time (last_run_at stored)

since-expire_all :
    (time cutoff : ℕ) (entries : Dict StoredFile)
    → all (runs_before time) entries ≡ true
    → all (ran_since time) (expire_all cutoff entries) ≡ true
unfolding expire_all
since-expire_all time cutoff [] h = refl
since-expire_all time cutoff ((key, stored) ∷ entries) h =
    ground (arith, h, last_run_at-expire cutoff stored, since-expire_all time cutoff entries)

lookup-take :
    (n : ℕ) (key : String) (entries : Dict StoredFile)
    → Dict.has key (take n entries) ≡ true
    → Dict.lookup key (take n entries) ≡ Dict.lookup key entries
lookup-take zero key entries h = absurd (ground arith)
lookup-take (suc n) key [] h = refl
lookup-take (suc n) key ((other, first) ∷ entries) h = ground (arith, h, lookup-take n key entries)

-- Pruning an archive whose files are named once leaves at most fifty files. A file that can be read
-- is kept with what `expire` leaves of it at seven days before now, or else it is let go, and then
-- every file that is kept can be read and ran no earlier than that one.
pub prune_archive-kept :
    (archive : RunArchive) (now : ℕ) (key : String) (stored : StoredFile)
    → is_distinct archive ≡ true
    → found (Dict.lookup key archive) ≡ some stored
    → (length (prune_archive archive now) ≤ 50)
      × ((found (Dict.lookup key (prune_archive archive now))
            ≡ some (expire (now - 604800000) stored))
          ⊎ ((Dict.has key (prune_archive archive now) ≡ false)
              × (all (ran_since (last_run_at stored)) (prune_archive archive now) ≡ true)))
unfolding prune_archive
prune_archive-kept archive now key stored distinct here =
    let cutoff = now - 604800000 in
    let entries = by_time (readable archive) in
    let present : Dict.lookup key entries ≡ some stored =
      lookup-by_time key (readable archive) (distinct-readable archive distinct)
      ∙ lookup-readable key archive distinct
      ∙ here in
    (
      omega (arith, length-expire_all cutoff (take 50 entries), length-take 50 entries),
      elim (Bool-cases (Dict.has key (take 50 entries))) [
        | inl kept ↦ inl (
            ground (
              arith,
              lookup-expire_all key cutoff (take 50 entries),
              lookup-take 50 key entries kept,
              present,
            ))
        | inr gone ↦ inr (
          has-expire_all key cutoff (take 50 entries) ∙ gone,
          since-expire_all (last_run_at stored) cutoff (take 50 entries) (
              before-take 50 key entries stored (descending-by_time (readable archive)) present
                gone),
        )
      ],
    )
