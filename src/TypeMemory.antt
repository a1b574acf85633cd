-- ===== src/TypeMemory.antt =====
-- ui/src/typeMemory.ts: the values that were seen on the fields of messages. A number is held as the
-- text that `String(value)` gives. The keys of values and of type names have different prefixes, so
-- an entry under one is never read as the other; any other entry reads as an empty one.
pub mod Bounds
pub mod Recall
use kaja.Prelude.{
  ℕ, zero, suc, ◌+◌, ◌-◌, ◌*◌, String, Bool, true, false, not, ◌&&◌, ◌||◌, Option, none, some, List,
  [], ◌∷◌, ◌++◌, any, filter, leb, ltb, length, take, if◌then◌else◌, ◌==◌,
}
use kaja.Prelude.Text.{decimal, is_prefix, ◌+++◌}
use kaja.Prelude.Dict
use kaja.Prelude.Dict.{Dict}

abbrev pub max_values_per_field : ℕ
max_values_per_field = 5

abbrev pub max_types_per_name : ℕ
max_types_per_name = 10

abbrev pub max_keys : ℕ
max_keys = 400

pub data ScalarValue : Type 0 where
  str num : String → ScalarValue
  bool : Bool → ScalarValue

-- `===`: NaN is not even itself.
abbrev pub same_value : ScalarValue → ScalarValue → Bool
same_value (ScalarValue.str a) (ScalarValue.str b) = a == b
same_value (ScalarValue.num a) (ScalarValue.num b) = a == b && not (a == "NaN")
same_value (ScalarValue.bool true) (ScalarValue.bool b) = b
same_value (ScalarValue.bool false) (ScalarValue.bool b) = not b
same_value _ _ = false

pub data ValueOrigin : Type 0 where
  request response : ValueOrigin

pub record RememberedValue : Type 0 where
  pub value : ScalarValue
  pub type_name : String
  pub field_name : String
  pub method : String
  pub origin : ValueOrigin
  pub t : ℕ

pub record StoredEntry {ℓ} (T : Type ℓ) : Type ℓ where
  pub t : ℕ
  pub v : List T

pub data MemoryEntry : Type 0 where
  values : StoredEntry RememberedValue → MemoryEntry
  type_names : StoredEntry String → MemoryEntry
  unreadable : MemoryEntry

abbrev pub Memory : Type 0
Memory = Dict MemoryEntry

abbrev pub field_key : String → String → String
field_key type_name field_name = "field:" +++ type_name +++ ":" +++ field_name

-- A scalar type is the number of its enumeration.
abbrev pub name_key : String → ℕ → String
name_key field_name scalar_type = "name:" +++ decimal scalar_type +++ ":" +++ field_name

abbrev pub values_in : Option MemoryEntry → StoredEntry RememberedValue
values_in (some (MemoryEntry.values entry)) = entry
values_in _ = record { t = 0; v = [] }

abbrev pub type_names_in : Option MemoryEntry → StoredEntry String
type_names_in (some (MemoryEntry.type_names entry)) = entry
type_names_in _ = record { t = 0; v = [] }

unfoldable pub promote {ℓ} : {T : Type ℓ} → StoredEntry T → T → ℕ → (T → Bool) → ℕ → StoredEntry T
promote entry value limit matches now = record {
  t = now;
  v = take limit (value ∷ filter (λ candidate. not (matches candidate)) entry.v);
}

abbrev pub entry_time : MemoryEntry → ℕ
entry_time (MemoryEntry.values entry) = entry.t
entry_time (MemoryEntry.type_names entry) = entry.t
entry_time MemoryEntry.unreadable = 0

-- The sort is stable, the oldest first.
unfoldable pub insert_oldest : String × MemoryEntry → Memory → Memory
insert_oldest entry [] = entry ∷ []
insert_oldest entry (other ∷ entries) =
    let rest = insert_oldest entry entries in
    if leb (entry_time entry.1) (entry_time other.1) then entry ∷ other ∷ entries else other ∷ rest

unfoldable pub oldest_first : Memory → Memory
unfolding insert_oldest
oldest_first [] = []
oldest_first (entry ∷ entries) = insert_oldest entry (oldest_first entries)

unfoldable pub delete_all : Memory → Memory → Memory
delete_all [] memory = memory
delete_all ((key, entry) ∷ entries) memory = delete_all entries (Dict.remove key memory)

unfoldable pub evict_old_keys : Memory → Memory
unfolding delete_all oldest_first
evict_old_keys memory =
    if leb (length memory) (max_keys * 2)
    then memory
    else delete_all (take (length memory - max_keys) (oldest_first memory)) memory

pub record ValueSource : Type 0 where
  pub method : String
  pub origin : ValueOrigin

abbrev pub remembered : String → String → ScalarValue → ValueSource → ℕ → RememberedValue
remembered type_name field_name value source now = record {
  value = value;
  type_name = type_name;
  field_name = field_name;
  method = source.method;
  origin = source.origin;
  t = now;
}

unfoldable pub value_entry : RememberedValue → ℕ → Option MemoryEntry → MemoryEntry
unfolding promote
value_entry seen now entry = MemoryEntry.values (
    promote (values_in entry) seen max_values_per_field
      (λ (candidate : RememberedValue). same_value candidate.value seen.value) now)

unfoldable pub remember_value : RememberedValue → ℕ → Memory → Memory
unfolding value_entry
remember_value seen now memory =
    let key = field_key seen.type_name seen.field_name in
    Dict.insert key (value_entry seen now (Dict.lookup key memory)) memory

unfoldable pub type_entry : String → ℕ → Option MemoryEntry → MemoryEntry
unfolding promote
type_entry type_name now entry = MemoryEntry.type_names (
    promote (type_names_in entry) type_name max_types_per_name (λ candidate. candidate == type_name)
      now)

unfoldable pub remember_type : String → String → Option ℕ → ℕ → Memory → Memory
unfolding type_entry
remember_type type_name field_name none now memory = memory
remember_type type_name field_name (some scalar_type) now memory =
    let key = name_key field_name scalar_type in
    Dict.insert key (type_entry type_name now (Dict.lookup key memory)) memory

-- `remember` on a scalar; anything else is left alone.
unfoldable pub remember :
    String → String → ScalarValue → Option ℕ → ValueSource → ℕ → Memory → Memory
unfolding remember_value remember_type evict_old_keys
remember type_name field_name value scalar_type source now memory = evict_old_keys (
    remember_type type_name field_name scalar_type now
      (remember_value (remembered type_name field_name value source now) now memory))

unfoldable pub insert_newest : RememberedValue → List RememberedValue → List RememberedValue
insert_newest seen [] = seen ∷ []
insert_newest seen (other ∷ rest) =
    let more = insert_newest seen rest in
    if leb other.t seen.t then seen ∷ other ∷ rest else other ∷ more

unfoldable pub newest_first : List RememberedValue → List RememberedValue
unfolding insert_newest
newest_first [] = []
newest_first (seen ∷ rest) = insert_newest seen (newest_first rest)

abbrev pub values_of : List String → String → String → Memory → List RememberedValue
values_of [] type_name field_name memory = []
values_of (other ∷ others) type_name field_name memory =
    let rest = values_of others type_name field_name memory in
    if other == type_name
    then rest
    else (values_in (Dict.lookup (field_key other field_name) memory)).v ++ rest

unfoldable pub related : Option ℕ → String → String → Memory → List RememberedValue
unfolding newest_first
related none type_name field_name memory = []
related (some scalar_type) type_name field_name memory = newest_first (
    values_of (type_names_in (Dict.lookup (name_key field_name scalar_type) memory)).v type_name
      field_name memory)

abbrev pub bool_text : Bool → String
bool_text true = "true"
bool_text false = "false"

-- `typeof value + ":" + String(value)`
abbrev pub seen_key : ScalarValue → String
seen_key (ScalarValue.str text) = "string:" +++ text
seen_key (ScalarValue.num text) = "number:" +++ text
seen_key (ScalarValue.bool b) = "boolean:" +++ bool_text b

unfoldable pub distinct_values : List String → List RememberedValue → List RememberedValue
distinct_values seen [] = []
distinct_values seen (value ∷ others) =
    let key = seen_key value.value in
    let rest = distinct_values seen others in
    let more = distinct_values (key ∷ seen) others in
    if any (λ other. other == key) seen then rest else value ∷ more

unfoldable pub recall_values : String → String → Option ℕ → Memory → List RememberedValue
unfolding distinct_values related
recall_values type_name field_name scalar_type memory = distinct_values [] (
    (values_in (Dict.lookup (field_key type_name field_name) memory)).v
    ++ related scalar_type type_name field_name memory)

-- What an earlier layout left behind goes.
unfoldable pub prune_type_memory : Memory → Memory
prune_type_memory [] = []
prune_type_memory ((key, entry) ∷ memory) =
    let rest = prune_type_memory memory in
    if not (is_prefix "field:" key) && not (is_prefix "name:" key)
    then rest
    else (key, entry) ∷ rest
