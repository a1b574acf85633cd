-- ===== src/TypeMemory/Recall.antt =====
-- ui/src/typeMemory.ts: what is suggested for a field, as to what was remembered of it.
use Prim.Native.Char.{code}
use kaja.Prelude.{
  nat_eq, Bool-cases, inl, inr, ℕ, ◌+◌, ◌≤◌, ◌≡◌, refl, ap, ◌∙◌, String, Bool, true, false, not,
  ◌&&◌, Option, none, some, List, [], ◌∷◌, ◌++◌, arith, any, length, get_elem?, ◌==◌, eq_iff,
  eq_refl,
}
use kaja.Prelude.Dict
use kaja.Prelude.Dict.{Dict, lookup-insert, length-insert}
use kaja.TypeMemory.{
  Memory, MemoryEntry, ScalarValue, ValueSource, RememberedValue, promote, value_entry, type_entry,
  values_in, remember, remember_value, remember_type, remembered, evict_old_keys, field_key,
  name_key, seen_key, distinct_values, related, recall_values,
}

-- No two values are written alike.
abbrev pub each_once : List RememberedValue → Bool
each_once [] = true
each_once (value ∷ rest) =
    not (any (λ (other : RememberedValue). seen_key other.value == seen_key value.value) rest)
    && each_once rest

unseen-distinct_values :
    (key : String) (seen : List String) (xs : List RememberedValue)
    → any (λ other. other == key) seen ≡ true
    → any (λ (other : RememberedValue). seen_key other.value == key) (distinct_values seen xs)
      ≡ false
unfolding distinct_values
unseen-distinct_values key seen [] h = refl
unseen-distinct_values key seen (value ∷ xs) h = ground (
  arith,
  h,
  unseen-distinct_values key seen xs h,
  unseen-distinct_values key (seen_key value.value ∷ seen) xs,
  eq_iff (seen_key value.value) key,
)

each_once-distinct_values :
    (seen : List String) (xs : List RememberedValue) → each_once (distinct_values seen xs) ≡ true
unfolding distinct_values
each_once-distinct_values seen [] = refl
each_once-distinct_values seen (value ∷ xs) = ground (
  arith,
  each_once-distinct_values seen xs,
  each_once-distinct_values (seen_key value.value ∷ seen) xs,
  unseen-distinct_values (seen_key value.value) (seen_key value.value ∷ seen) xs
      (ground (arith, eq_refl (seen_key value.value))),
)

-- The first letter of a key tells the two sorts apart.
abbrev is_name_key : String → Bool
is_name_key String.[] = false
is_name_key (String.◌∷◌ c key) = nat_eq (code c) 110

keys_apart :
    (type_name field_name : String) (scalar_type : ℕ)
    → (name_key field_name scalar_type == field_key type_name field_name) ≡ false
keys_apart type_name field_name scalar_type =
    elim (Bool-cases (name_key field_name scalar_type == field_key type_name field_name)) [
      | inl alike ↦ absurd (cc (ap is_name_key ((eq_iff _ _).0 alike)))
      | inr apart ↦ apart
    ]

lookup-remember_type :
    (type_name field_name : String) (scalar_type : Option ℕ) (now : ℕ) (memory : Memory)
    → Dict.lookup
        (field_key type_name field_name)
        (remember_type type_name field_name scalar_type now memory)
      ≡ Dict.lookup (field_key type_name field_name) memory
unfolding remember_type
lookup-remember_type type_name field_name none now memory = refl
lookup-remember_type type_name field_name (some scalar_type) now memory = ground (
  arith,
  keys_apart type_name field_name scalar_type,
  lookup-insert (name_key field_name scalar_type) (field_key type_name field_name)
      (type_entry type_name now (Dict.lookup (name_key field_name scalar_type) memory)) memory,
)

length-remember_type-le :
    (type_name field_name : String) (scalar_type : Option ℕ) (now : ℕ) (memory : Memory)
    → length (remember_type type_name field_name scalar_type now memory) ≤ length memory + 1
unfolding remember_type
length-remember_type-le type_name field_name none now memory = omega arith
length-remember_type-le type_name field_name (some scalar_type) now memory = ground (
  arith,
  length-insert (name_key field_name scalar_type)
      (type_entry type_name now (Dict.lookup (name_key field_name scalar_type) memory)) memory,
)

lookup-remember_value :
    (seen : RememberedValue) (now : ℕ) (memory : Memory)
    → Dict.lookup (field_key seen.type_name seen.field_name) (remember_value seen now memory)
      ≡ some (value_entry seen now (Dict.lookup (field_key seen.type_name seen.field_name) memory))
unfolding remember_value
lookup-remember_value seen now memory =
    let key = field_key seen.type_name seen.field_name in
    ground (
      arith,
      eq_refl key,
      lookup-insert key key (value_entry seen now (Dict.lookup key memory)) memory,
    )

length-remember_value-le :
    (seen : RememberedValue) (now : ℕ) (memory : Memory)
    → length (remember_value seen now memory) ≤ length memory + 1
unfolding remember_value
length-remember_value-le seen now memory =
    let key = field_key seen.type_name seen.field_name in
    ground (arith, length-insert key (value_entry seen now (Dict.lookup key memory)) memory)

evict_roomy : (memory : Memory) → length memory ≤ 800 → evict_old_keys memory ≡ memory
unfolding evict_old_keys
evict_roomy memory h = ground (arith, h)

values_of_entry :
    (seen : RememberedValue) (now : ℕ) (before after : Option MemoryEntry)
    → after ≡ some (value_entry seen now before)
    → get_elem? (values_in after).v 0 ≡ some seen
unfolding value_entry promote
values_of_entry seen now before after h = rw h refl

first_value :
    (seen : RememberedValue) (exact others : List RememberedValue)
    → get_elem? exact 0 ≡ some seen
    → get_elem? (distinct_values [] (exact ++ others)) 0 ≡ some seen
unfolding distinct_values
first_value seen [] others h = cc
first_value seen (value ∷ exact) others h = h

each_once-recall_values :
    (type_name field_name : String) (suggested : Option ℕ) (memory : Memory)
    → each_once (recall_values type_name field_name suggested memory) ≡ true
unfolding recall_values
each_once-recall_values type_name field_name suggested memory = each_once-distinct_values [] (
    (values_in (Dict.lookup (field_key type_name field_name) memory)).v
    ++ related suggested type_name field_name memory)

-- What is suggested for a field holds no two values that are written alike, and once a value of the
-- field was remembered, in a memory of at most 798 entries, that value is the first.
pub recall_values-remember :
    (type_name field_name : String) (value : ScalarValue) (scalar_type suggested : Option ℕ)
    (source : ValueSource) (now : ℕ) (memory : Memory)
    → length memory ≤ 798
    → (each_once (
          recall_values type_name field_name suggested
            (remember type_name field_name value scalar_type source now memory))
        ≡ true)
      × (get_elem?
            (recall_values type_name field_name suggested
              (remember type_name field_name value scalar_type source now memory))
            0
          ≡ some (remembered type_name field_name value source now))
unfolding recall_values remember
recall_values-remember type_name field_name value scalar_type suggested source now memory roomy =
    let seen = remembered type_name field_name value source now in
    let key = field_key type_name field_name in
    let first = remember_value seen now memory in
    let both = remember_type type_name field_name scalar_type now first in
    let kept : evict_old_keys both ≡ both = evict_roomy both (
      omega (
        arith,
        roomy,
        length-remember_type-le type_name field_name scalar_type now first,
        length-remember_value-le seen now memory,
      )) in
    let found : Dict.lookup key both ≡ some (value_entry seen now (Dict.lookup key memory)) =
      lookup-remember_type type_name field_name scalar_type now first
      ∙ lookup-remember_value seen now memory in
    (
      each_once-recall_values type_name field_name suggested
          (remember type_name field_name value scalar_type source now memory),
      rw (kept, recall_values)
          (first_value seen (values_in (Dict.lookup key both)).v
            (related suggested type_name field_name both)
            (values_of_entry seen now (Dict.lookup key memory) (Dict.lookup key both) found)),
    )
