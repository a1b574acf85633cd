-- ===== src/FileConsole/Keeps.antt =====
-- ui/src/consoles.ts: what the steps of a file's operations leave as it was: the number of runs,
-- the queue of payloads, and the bounds of the groups.
use kaja.Prelude.{
  ℕ, zero, suc, ◌≡◌, refl, ◌∙◌, String, Option, none, some, List, [], ◌∷◌, ◌++◌, length, get_elem?,
  set, All, arith, Bool-cases, Option-cases, inl, inr, length-set,
}
use kaja.Prelude.Dict
use kaja.Prelude.Dict.{Dict}
use kaja.Call.{MethodCall}
use kaja.Block.{Block}
use kaja.Run.{Run, ConsoleItem}
use kaja.Group.{Group, append, new_group}
use kaja.Group.Bounds.{IsSound, append-IsSound, patched-IsSound, new_group-IsSound}
use kaja.FileConsole.{
  FileConsole, ItemPlace, append_to, append_at, append_item, patch_at, new_item, set_item,
}
use kaja.FileConsole.Record.{known_call, known_block}
use kaja.FileConsole.Runs.{set_run, set_runs, settle_at, adopt_item, adopt_items, new_groups}

abbrev pub AreSound : List Group → Type 0
AreSound groups = All IsSound groups

AreSound-set :
    (xs : List Group) (i : ℕ) (v : Group) → AreSound xs → IsSound v → AreSound (set xs i v)
AreSound-set [] i v h p = tt
AreSound-set (x ∷ xs) zero v h p = (p, h.1)
AreSound-set (x ∷ xs) (suc i) v h p = (h.0, AreSound-set xs i v h.1 p)

AreSound-get_elem? :
    (xs : List Group) (i : ℕ) {v : Group} → get_elem? xs i ≡ some v → AreSound xs → IsSound v
AreSound-get_elem? [] i e h = absurd (cc e)
AreSound-get_elem? (x ∷ xs) zero {v} e h = rw (← same) h.0
  where
    same : x ≡ v
    same = ground (arith, e)
AreSound-get_elem? (x ∷ xs) (suc i) e h = AreSound-get_elem? xs i e h.1

pub AreSound-append :
    (xs : List Group) (v : Group) → AreSound xs → IsSound v → AreSound (xs ++ v ∷ [])
AreSound-append [] v h p = (p, tt)
AreSound-append (x ∷ xs) v h p = (h.0, AreSound-append xs v h.1 p)

pub record Keeps (c d : FileConsole) : Type 0 where
  pub runs : length d.runs ≡ length c.runs
  pub holding : d.holding ≡ c.holding
  pub held : d.held ≡ c.held
  pub groups : AreSound c.group_heap → AreSound d.group_heap

pub Keeps-refl : (c : FileConsole) → Keeps c c
Keeps-refl c = record { runs = refl; holding = refl; held = refl; groups = λ h. h }

pub Keeps-trans : (c d e : FileConsole) → Keeps c d → Keeps d e → Keeps c e
Keeps-trans c d e k l = record {
  runs = l.runs ∙ k.runs;
  holding = l.holding ∙ k.holding;
  held = l.held ∙ k.held;
  groups = λ h. l.groups (k.groups h);
}

append_to-Keeps :
    (ref : ℕ) (g : Group) (item_ref : ℕ) (item : ConsoleItem) (c : FileConsole)
    → get_elem? c.group_heap ref ≡ some g
    → Keeps c (append_to ref g item_ref item c).0
unfolding append_to
append_to-Keeps ref g item_ref item c here = elim (Bool-cases (append item_ref item g).1) [
  | inl kept ↦ rw kept (record { runs = refl; holding = refl; held = refl; groups = sound })
  | inr full ↦ rw full (record { runs = refl; holding = refl; held = refl; groups = sound })
]
  where
    sound : AreSound c.group_heap → AreSound (set c.group_heap ref (append item_ref item g).0)
    sound h =
        AreSound-set c.group_heap ref _ h
          (append-IsSound item_ref item g (AreSound-get_elem? c.group_heap ref here h))

append_at-Keeps :
    (found : Option ℕ) (item : ConsoleItem) (c : FileConsole) → Keeps c (append_at found item c).0
append_at-Keeps none item c = Keeps-refl c
append_at-Keeps (some ref) item c = elim (Option-cases (get_elem? c.group_heap ref)) [
  | inl gone ↦ rw (gone, append_at) (Keeps-refl c)
  | inr (g, here) ↦
      rw (here, append_at)
        (let k = append_to-Keeps ref g (length c.item_heap) item (new_item item c) here in
          record { runs = k.runs; holding = k.holding; held = k.held; groups = k.groups })
]

pub append_item-Keeps :
    (run_id : String) (item : ConsoleItem) (c : FileConsole) → Keeps c (append_item run_id item c).0
unfolding append_item
append_item-Keeps run_id item c = append_at-Keeps (Dict.lookup run_id c.groups) item c

patch_at-Keeps :
    (ref item_ref : ℕ) (item : ConsoleItem) (c : FileConsole)
    → Keeps c (patch_at ref item_ref item c)
unfolding patch_at
patch_at-Keeps ref item_ref item c = elim (Option-cases (get_elem? c.group_heap ref)) [
  | inl gone ↦ rw (gone, patch_at) (Keeps-refl c)
  | inr (g, here) ↦
      rw (here, patch_at)
        (record {
          runs = refl;
          holding = refl;
          held = refl;
          groups = λ h.
              AreSound-set c.group_heap ref _ h
                (patched-IsSound item_ref item g (AreSound-get_elem? c.group_heap ref here h));
        })
]

set_item-Keeps : (ref : ℕ) (item : ConsoleItem) (c : FileConsole) → Keeps c (set_item ref item c)
set_item-Keeps ref item c = record { runs = refl; holding = refl; held = refl; groups = λ h. h }

pub known_call-Keeps :
    (ref : ℕ) (call : MethodCall) (c : FileConsole) → Keeps c (known_call ref call c)
known_call-Keeps ref call c = elim (Option-cases (get_elem? c.item_heap ref)) [
  | inl gone ↦ rw (gone, known_call) (Keeps-refl c)
  | inr (item, here) ↦ elim (Option-cases (Dict.lookup item.run_id c.groups)) [
    | inl lost ↦ rw (here, known_call) (rw (lost, known_call) (set_item-Keeps ref _ c))
    | inr (group_ref, there) ↦
        rw (here, known_call)
          (rw (there, known_call)
            (Keeps-trans c _ _ (set_item-Keeps ref _ c) (patch_at-Keeps group_ref ref _ _)))
  ]
]

pub known_block-Keeps :
    (place : ItemPlace) (block : Block) (c : FileConsole) → Keeps c (known_block place block c)
known_block-Keeps place block c = elim (Option-cases (get_elem? c.item_heap place.item)) [
  | inl gone ↦ rw (gone, known_block) (Keeps-refl c)
  | inr (item, here) ↦
      rw (here, known_block)
        (Keeps-trans c _ _ (set_item-Keeps place.item _ c)
          (patch_at-Keeps place.group place.item _ _))
]

set_run-Keeps : (found : Option ℕ) (run : Run) (c : FileConsole) → Keeps c (set_run found run c)
set_run-Keeps none run c = Keeps-refl c
set_run-Keeps (some ref) run c = elim (Option-cases (get_elem? c.group_heap ref)) [
  | inl gone ↦ rw (gone, set_run) (Keeps-refl c)
  | inr (g, here) ↦
      rw (here, set_run)
        (record {
          runs = refl;
          holding = refl;
          held = refl;
          groups = λ h.
              (let s : IsSound g = AreSound-get_elem? c.group_heap ref here h in
                AreSound-set c.group_heap ref (record g { run = run }) h
                  (record { bounded = s.bounded; drawn = s.drawn; failed = s.failed }));
        })
]

pub set_runs-Keeps : (runs : List Run) (c : FileConsole) → Keeps c (set_runs runs c)
set_runs-Keeps [] c = Keeps-refl c
set_runs-Keeps (run ∷ runs) c =
    Keeps-trans c _ _ (set_run-Keeps (Dict.lookup run.id c.groups) run c) (set_runs-Keeps runs _)

pub settle_at-Keeps :
    (index duration_ms : ℕ) (run_id : String) (c : FileConsole)
    → Keeps c (settle_at index duration_ms run_id c).0
settle_at-Keeps index duration_ms run_id c = elim (Option-cases (get_elem? c.runs index)) [
  | inl gone ↦ rw (gone, settle_at) (Keeps-refl c)
  | inr (run, here) ↦
      rw (here, settle_at)
        (Keeps-trans c
          (record c { runs = set c.runs index (record run { duration_ms = some duration_ms }) }) _
          (record {
            runs = length-set c.runs index _;
            holding = refl;
            held = refl;
            groups = λ h. h;
          })
          (set_run-Keeps (Dict.lookup run_id c.groups) _ _))
]

adopt_item-Keeps :
    (found : Option ℕ) (item : ConsoleItem) (c : FileConsole) → Keeps c (adopt_item found item c)
adopt_item-Keeps none item c = Keeps-refl c
adopt_item-Keeps (some ref) item c = elim (Option-cases (get_elem? c.group_heap ref)) [
  | inl gone ↦ rw (gone, adopt_item) (Keeps-refl c)
  | inr (g, here) ↦
      rw (here, adopt_item)
        (let k = append_to-Keeps ref g (length c.item_heap) item (new_item item c) here in
          record { runs = k.runs; holding = k.holding; held = k.held; groups = k.groups })
]

pub adopt_items-Keeps :
    (groups : Dict ℕ) (items : List ConsoleItem) (c : FileConsole)
    → Keeps c (adopt_items groups items c)
unfolding adopt_items
adopt_items-Keeps groups [] c = Keeps-refl c
adopt_items-Keeps groups (item ∷ items) c =
    Keeps-trans c _ _ (adopt_item-Keeps (Dict.lookup item.run_id groups) item c)
      (adopt_items-Keeps groups items _)

pub new_groups-AreSound :
    (runs : List Run) (heap : List Group) (groups : Dict ℕ)
    → AreSound heap
    → AreSound (new_groups runs heap groups).0
new_groups-AreSound [] heap groups h = h
new_groups-AreSound (run ∷ runs) heap groups h =
    new_groups-AreSound runs (heap ++ new_group run ∷ []) _
      (AreSound-append heap (new_group run) h (new_group-IsSound run))
