-- ===== src/Consoles/Order.antt =====
-- ui/src/consoles.ts: the order of the map of files under the steps that operations share.
use kaja.Prelude.{
  ℕ, ◌-◌, ◌≤◌, ◌<◌, ◌≡◌, refl, ap, ◌∙◌, String, Bool, true, false, Option, none, some, List, [],
  ◌∷◌, ◌++◌, length, last?, length-drop, arith, Option-cases, Bool-cases, inl, inr, eq_iff,
}
use kaja.Prelude.Dict
use kaja.Prelude.Dict.{Dict}
use kaja.Prelude.Dict.Keys.{keys-insert-has, last?-insert_new, has-remove, last?-drop}
use kaja.FileConsole.{FileConsole}
use kaja.FileConsole
use kaja.Consoles.{
  Consoles, ensure, store, write, evict, touch, paint, paint_all, paint_file, flags_changed,
  maybe_quiet, reorder, is_mru, Notice, add_to,
}

-- The most recent file is the last one of the map.
pub record Front (id : String) (s : Consoles) : Type 0 where
  pub mru : s.mru ≡ some id
  pub last : last? (Dict.keys s.files) ≡ some id

abbrev pub IsRecent : Consoles → Type 0
IsRecent s = (id : String) → s.mru ≡ some id → last? (Dict.keys s.files) ≡ some id

pub IsRecent-Front : (id : String) (s : Consoles) → Front id s → IsRecent s
IsRecent-Front id s h other e = ground (arith, h.mru, h.last)

reorder-last :
    (found : Option FileConsole) (id : String) (files : Dict FileConsole)
    → Dict.lookup id files ≡ found
    → last? (Dict.keys (reorder found false id files)) ≡ some id
reorder-last none id files e = last?-insert_new id FileConsole.empty files (rw e)
reorder-last (some c) id files e =
    last?-insert_new id c (Dict.remove id files) (has-remove id files)

pub ensure-Front :
    (id : String) (now : ℕ) (s : Consoles) → IsRecent s → Front id (ensure id now s).1
unfolding ensure
ensure-Front id now s h = elim (Bool-cases (is_mru s.mru id)) [
  | inl front ↦ record { mru = refl; last = rw front (already s.mru front refl) }
  | inr other ↦ record {
    mru = refl;
    last = rw other (reorder-last (Dict.lookup id s.files) id s.files refl);
  }
]
  where
    already :
        (mru : Option String)
        → is_mru mru id ≡ true
        → s.mru ≡ mru
        → last? (Dict.keys (reorder (Dict.lookup id s.files) true id s.files)) ≡ some id
    already none e f = cc
    already (some other) e f = h id (f ∙ ap some ((eq_iff other id).0 e))

-- What an operation leaves of the map: its keys, and which file is the most recent.
pub record SameKeys (s t : Consoles) : Type 0 where
  pub keys : Dict.keys t.files ≡ Dict.keys s.files
  pub mru : t.mru ≡ s.mru

pub Front-SameKeys : {id : String} {s t : Consoles} → Front id s → SameKeys s t → Front id t
Front-SameKeys f k = record { mru = k.mru ∙ f.mru; last = ap last? k.keys ∙ f.last }

pub SameKeys-trans : {s t u : Consoles} → SameKeys s t → SameKeys t u → SameKeys s u
SameKeys-trans p q = record { keys = q.keys ∙ p.keys; mru = q.mru ∙ p.mru }

pub store-SameKeys : (id : String) (c : FileConsole) (s : Consoles) → SameKeys s (store id c s)
store-SameKeys id c s = elim (Bool-cases (Dict.has id s.files)) [
  | inl here ↦ record { keys = rw here (keys-insert-has id c s.files here); mru = refl }
  | inr gone ↦ record { keys = rw gone; mru = refl }
]

paint_file-keys :
    (id : String) (files : Dict FileConsole) → Dict.keys (paint_file id files) ≡ Dict.keys files
paint_file-keys id files = elim (Option-cases (Dict.lookup id files)) [
  | inl gone ↦ rw (gone, paint_file)
  | inr (c, here) ↦ rw (here, paint_file) (keys-insert-has id _ files (rw here))
]

paint_all-SameKeys : (ids : List String) (s : Consoles) → SameKeys s (paint_all ids s)
unfolding paint_all
paint_all-SameKeys [] s = record { keys = refl; mru = refl }
paint_all-SameKeys (id ∷ ids) s =
    let rest =
      paint_all-SameKeys ids (record s {
        files = paint_file id s.files;
        notices = s.notices ++ Notice.painted id ∷ [];
      }) in
    record { keys = rest.keys ∙ paint_file-keys id s.files; mru = rest.mru }

pub paint-SameKeys : (s : Consoles) → SameKeys s (paint s)
unfolding paint
paint-SameKeys s =
    let p = paint_all-SameKeys s.dirty (record s { dirty = [] }) in
    record { keys = p.keys; mru = p.mru }

pub touch-SameKeys : (id : String) (now : Bool) (s : Consoles) → SameKeys s (touch id now s)
unfolding touch
touch-SameKeys id true s =
    let p = paint-SameKeys (record s { dirty = add_to id s.dirty; frame = false }) in
    record { keys = p.keys; mru = p.mru }
touch-SameKeys id false s = record { keys = refl; mru = refl }

pub flags_changed-SameKeys : (s : Consoles) → SameKeys s (flags_changed s)
unfolding flags_changed
flags_changed-SameKeys s = record { keys = refl; mru = refl }

pub maybe_quiet-SameKeys :
    (id run_id : String) (s : Consoles) → SameKeys s (maybe_quiet id run_id s)
unfolding maybe_quiet
maybe_quiet-SameKeys id run_id s = record { keys = ground arith; mru = ground arith }

pub evict-Front : (id : String) (s : Consoles) → Front id s → Front id (evict s)
unfolding evict
evict-Front id s f = record {
  mru = f.mru;
  last = last?-drop (length s.files - 50) s.files (short s.files f.last) ∙ f.last;
}
  where
    short :
        (files : Dict FileConsole)
        → last? (Dict.keys files) ≡ some id
        → length files - 50 < length files
    short [] e = absurd (cc e)
    short (e ∷ files) h = omega arith

pub length-evict : (s : Consoles) → length (evict s).files ≤ 50
unfolding evict
length-evict s = rw (length-drop (length s.files - 50) s.files) (omega arith)

pub write-Front :
    (id : String) (now : ℕ) (f : FileConsole → FileConsole) (s : Consoles)
    → IsRecent s
    → Front id (write id now f s)
unfolding write
write-Front id now f s h =
    Front-SameKeys (ensure-Front id now s h)
      (store-SameKeys id (f (ensure id now s).0) (ensure id now s).1)
