-- ===== src/Consoles.antt =====
-- ui/src/consoles.ts: `Consoles`, every file's console and the one place that writes to one. What a
-- subscriber would be told is appended to `notices`: a paint of its file, a change of the flags, a
-- run gone quiet. A frame that the scheduler owes is `frame`, and its callback is `frame_due`.
pub mod Writes
pub mod Files
pub mod Flags
pub mod Order
pub mod Steps
pub mod Recency
pub mod Renaming
use kaja.Prelude.{
  ℕ, zero, suc, ◌+◌, ◌-◌, String, Bool, true, false, not, ◌&&◌, Option, none, some, List, [], ◌∷◌,
  ◌++◌, length, any, drop, ltb, leb, is_nil, is_some, if◌then◌else◌, ◌==◌, get_or,
}
use kaja.Prelude.Dict
use kaja.Prelude.Dict.{Dict}
use kaja.FileConsole
use kaja.FileConsole.{FileConsole}

abbrev pub max_files : ℕ
max_files = 50

pub data Notice : Type 0 where
  painted : String → Notice
  flags : Notice
  quiet : String → String → Notice

pub record FlagSets : Type 0 where
  pub running : List String
  pub agent : List String
  pub waiting : List String

pub record FlagsCache : Type 0 where
  pub version : ℕ
  pub sets : FlagSets

pub record Consoles : Type 0 where
  pub files : Dict FileConsole
  pub dirty : List String
  pub frame : Bool
  pub mru : Option String
  pub flags : ℕ
  pub flags_cache : Option FlagsCache
  pub notices : List Notice

unfoldable pub empty : Consoles
empty = record {
  files = [];
  dirty = [];
  frame = false;
  mru = none;
  flags = 0;
  flags_cache = none;
  notices = [];
}

-- `mru === fileId`
abbrev pub is_mru : Option String → String → Bool
is_mru none file_id = false
is_mru (some id) file_id = id == file_id

unfoldable pub file : Option String → Consoles → FileConsole
file none s = FileConsole.empty
file (some file_id) s = get_or (Dict.lookup file_id s.files) FileConsole.empty

-- `#touch`: a file goes to the set of dirty ones, which keeps the order of the first touches.
abbrev pub add_to : String → List String → List String
add_to id ids = if any (λ other. other == id) ids then ids else ids ++ id ∷ []

abbrev pub paint_file : String → Dict FileConsole → Dict FileConsole
paint_file id files = elim (Dict.lookup id files) [
  | none ↦ files
  | some c ↦ Dict.insert id (record c { version = c.version + 1 }) files
]

unfoldable pub paint_all : List String → Consoles → Consoles
paint_all [] s = s
paint_all (id ∷ ids) s =
    paint_all ids
      (record s { files = paint_file id s.files; notices = s.notices ++ Notice.painted id ∷ [] })

unfoldable pub paint : Consoles → Consoles
unfolding paint_all
paint s = paint_all s.dirty (record s { dirty = [] })

unfoldable pub touch : String → Bool → Consoles → Consoles
unfolding paint
touch file_id immediate s =
    let dirty : Consoles = record s { dirty = add_to file_id s.dirty } in
    if immediate then paint (record dirty { frame = false }) else record dirty { frame = true }

-- The scheduled callback, and `flush`.
unfoldable pub frame_due : Consoles → Consoles
unfolding paint
frame_due s = if s.frame then paint (record s { frame = false }) else s

unfoldable pub flags_changed : Consoles → Consoles
flags_changed s = record s { flags = s.flags + 1; notices = s.notices ++ Notice.flags ∷ [] }

unfoldable pub maybe_quiet : String → String → Consoles → Consoles
unfolding file
maybe_quiet file_id run_id s =
    if FileConsole.has_work_in_flight (file (some file_id) s) run_id
    then s
    else record s { notices = s.notices ++ Notice.quiet file_id run_id ∷ [] }

-- The files in the order in which `#ensure` leaves them: the one asked for last, unless it is the
-- most recent one already.
abbrev pub reorder : Option FileConsole → Bool → String → Dict FileConsole → Dict FileConsole
reorder found true file_id files = files
reorder none false file_id files = Dict.insert file_id FileConsole.empty files
reorder (some c) false file_id files = Dict.insert file_id c (Dict.remove file_id files)

-- `file.touchedAt = now` on the console that `#ensure` returns.
abbrev pub touched : ℕ → FileConsole → FileConsole
touched now c = record c { touched_at = now }

-- What `#ensure` returns, beside the map. Where a file is the most recent one and not in the map,
-- the console that it returns stands in no map: the write to it is lost.
unfoldable pub ensure : String → ℕ → Consoles → FileConsole × Consoles
ensure file_id now s =
    let found = Dict.lookup file_id s.files in
    let c = touched now (get_or found FileConsole.empty) in
    (
      c,
      record s { files = reorder found (is_mru s.mru file_id) file_id s.files; mru = some file_id },
    )

-- The object that `#ensure` returned is changed: so is the entry of the map that holds it.
abbrev pub store : String → FileConsole → Consoles → Consoles
store file_id c s = record s {
  files = if Dict.has file_id s.files then Dict.insert file_id c s.files else s.files;
}

-- The common start of a write: the file's console, changed, back in its place.
unfoldable pub write : String → ℕ → (FileConsole → FileConsole) → Consoles → Consoles
unfolding ensure
write file_id now change s = let (c, s') = ensure file_id now s in store file_id (change c) s'

-- `#evict`: the loop drops the first file while there are more than the limit.
abbrev evict_files : ℕ → Dict FileConsole → Dict FileConsole
evict_files limit files = drop (length files - limit) files

unfoldable pub evict : Consoles → Consoles
evict s = record s { files = evict_files max_files s.files }
