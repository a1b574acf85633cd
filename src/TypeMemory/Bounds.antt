-- ===== src/TypeMemory/Bounds.antt =====
-- ui/src/typeMemory.ts: the sizes of what is remembered.
use kaja.Prelude.{
  ℕ, ◌-◌, ◌≤◌, ◌≡◌, refl, String, Bool, true, not, Option, none, some, List, [], ◌∷◌, arith, all,
  filter, leb, length, length-take, take, ◌==◌,
}
use kaja.Prelude.Dict
use kaja.Prelude.Dict.{Dict, length-remove-le}
use kaja.TypeMemory.{
  Memory, MemoryEntry, ScalarValue, ValueSource, RememberedValue, StoredEntry, promote, value_entry,
  type_entry, values_in, type_names_in, remember, remember_value, remember_type, remembered,
  evict_old_keys, delete_all, oldest_first, field_key, name_key, same_value,
}

-- An entry keeps no more than its limit.
abbrev pub is_small : String × MemoryEntry → Bool
is_small (key, MemoryEntry.values entry) = leb (length entry.v) 5
is_small (key, MemoryEntry.type_names entry) = leb (length entry.v) 10
is_small (key, MemoryEntry.unreadable) = true

small-insert :
    (key : String) (entry : MemoryEntry) (memory : Memory)
    → is_small (key, entry) ≡ true
    → all is_small memory ≡ true
    → all is_small (Dict.insert key entry memory) ≡ true
small-insert key entry [] h h' = ground (arith, h)
small-insert key entry ((other, first) ∷ memory) h h' =
    ground (arith, h, h', small-insert key entry memory)

small-remove :
    (key : String) (memory : Memory)
    → all is_small memory ≡ true
    → all is_small (Dict.remove key memory) ≡ true
small-remove key [] h = refl
small-remove key ((other, first) ∷ memory) h = ground (arith, h, small-remove key memory)

small-delete_all :
    (gone memory : Memory)
    → all is_small memory ≡ true
    → all is_small (delete_all gone memory) ≡ true
unfolding delete_all
small-delete_all [] memory h = h
small-delete_all ((key, entry) ∷ gone) memory h =
    small-delete_all gone (Dict.remove key memory) (small-remove key memory h)

-- What a run of the program remembers, in order.
pub record Seen : Type 0 where
  pub type_name : String
  pub field_name : String
  pub value : ScalarValue
  pub scalar_type : Option ℕ
  pub source : ValueSource
  pub now : ℕ

unfoldable pub remember_all : List Seen → Memory → Memory
unfolding remember
remember_all [] memory = memory
remember_all (s ∷ seen) memory =
    remember_all seen
      (remember s.type_name s.field_name s.value s.scalar_type s.source s.now memory)

length-promote {ℓ} :
    {T : Type ℓ} (entry : StoredEntry T) (value : T) (limit : ℕ) (matches : T → Bool) (now : ℕ)
    → length (promote entry value limit matches now).v ≤ limit
unfolding promote
length-promote entry value limit matches now =
    omega (arith, length-take limit (value ∷ filter (λ candidate. not (matches candidate)) entry.v))

small-remember_value :
    (seen : RememberedValue) (now : ℕ) (memory : Memory)
    → all is_small memory ≡ true
    → all is_small (remember_value seen now memory) ≡ true
unfolding remember_value value_entry
small-remember_value seen now memory h =
    let key = field_key seen.type_name seen.field_name in
    small-insert key (value_entry seen now (Dict.lookup key memory)) memory
      (ground (
        arith,
        length-promote (values_in (Dict.lookup key memory)) seen 5
            (λ (candidate : RememberedValue). same_value candidate.value seen.value) now,
      ))
      h

small-remember_type :
    (type_name field_name : String) (scalar_type : Option ℕ) (now : ℕ) (memory : Memory)
    → all is_small memory ≡ true
    → all is_small (remember_type type_name field_name scalar_type now memory) ≡ true
unfolding remember_type type_entry
small-remember_type type_name field_name none now memory h = h
small-remember_type type_name field_name (some scalar_type) now memory h =
    let key = name_key field_name scalar_type in
    small-insert key (type_entry type_name now (Dict.lookup key memory)) memory
      (ground (
        arith,
        length-promote (type_names_in (Dict.lookup key memory)) type_name 10
            (λ candidate. candidate == type_name) now,
      ))
      h

small-evict_old_keys :
    (memory : Memory) → all is_small memory ≡ true → all is_small (evict_old_keys memory) ≡ true
unfolding evict_old_keys
small-evict_old_keys memory h =
    ground (arith, h, small-delete_all (take (length memory - 400) (oldest_first memory)) memory h)

-- However much is remembered, and whatever is let go in between: no field has more than five values,
-- and no name more than ten types.
pub small-remember_all :
    (seen : List Seen) (memory : Memory)
    → all is_small memory ≡ true
    → all is_small (remember_all seen memory) ≡ true
unfolding remember_all remember
small-remember_all [] memory h = h
small-remember_all (s ∷ seen) memory h =
    let value = remembered s.type_name s.field_name s.value s.source s.now in
    let first = remember_value value s.now memory in
    let both = remember_type s.type_name s.field_name s.scalar_type s.now first in
    small-remember_all seen (evict_old_keys both) (
      small-evict_old_keys both (
        small-remember_type s.type_name s.field_name s.scalar_type s.now first
          (small-remember_value value s.now memory h)))
