-- ===== src/LoopKey/Bounds.antt =====
-- ui/src/loopKey.ts: the length of a key.
use kaja.Prelude.{
  ℕ, zero, suc, ◌+◌, ◌-◌, ◌≤◌, ◌≡◌, String, Bool, true, false, Option, none, some, List, [], ◌∷◌,
  arith, ltb, leb, Bool-cases, inl, inr, if◌then◌else◌, ◌||◌, ◌==◌,
}
use mathlib.Core.Path.{subst}
use kaja.Prelude.Text.{text_length, text_take, units, ◌+++◌, trim, codes, text_is_empty}
use kaja.Value.{Value, Fields}
use kaja.LoopKey.{
  SubjectField, subject_fields, truncate, identifying, identifying_text, is_zero_text, first_found,
  find, find_nested, find_first, loop_key, test,
}

text_length-text_take-le : (n : ℕ) (s : String) → text_length (text_take n s) ≤ n
text_length-text_take-le n String.[] = omega arith
text_length-text_take-le n (String.◌∷◌ c s) = elim (Bool-cases (leb (units c) n)) [
  | inl fits ↦ rw fits (ground (arith, text_length-text_take-le (n - units c) s))
  | inr cut ↦ rw cut (omega arith)
]

text_length-append : (s t : String) → text_length (s +++ t) ≡ text_length s + text_length t
text_length-append String.[] t = omega arith
text_length-append (String.◌∷◌ c s) t = omega (arith, text_length-append s t)

text_length-truncate-le : (s : String) → text_length (truncate s) ≤ 22
unfolding truncate
text_length-truncate-le s = elim (Bool-cases (ltb 22 (text_length s))) [
  | inl long ↦
      rw long
        (omega (arith, text_length-append (text_take 21 s) "…", text_length-text_take-le 21 s))
  | inr short ↦ rw short (ground arith)
]

-- What is found has at most 22 units.
abbrev IsShort : Option String → Type 0
IsShort none = Unit
IsShort (some key) = text_length key ≤ 22

identifying-IsShort : (value : Value) → IsShort (identifying value)
unfolding identifying identifying_text
identifying-IsShort (Value.str value) =
    elim (Bool-cases (text_is_empty (trim value) || is_zero_text (codes (trim value)))) [
      | inl zero_value ↦ rw zero_value tt
      | inr given ↦ rw given (text_length-truncate-le (trim value))
    ]
identifying-IsShort (Value.num value) = elim (Bool-cases (value == "0")) [
  | inl zero_value ↦ rw zero_value tt
  | inr given ↦ rw given (text_length-truncate-le value)
]
identifying-IsShort (Value.bigint value) = elim (Bool-cases (value == "0")) [
  | inl zero_value ↦ rw zero_value tt
  | inr given ↦ rw given (text_length-truncate-le value)
]
identifying-IsShort Value.undefined = tt
identifying-IsShort Value.null = tt
identifying-IsShort (Value.bool b) = tt
identifying-IsShort (Value.arr _) = tt
identifying-IsShort (Value.obj fields) = tt

first_found-IsShort : (a b : Option String) → IsShort a → IsShort b → IsShort (first_found a b)
first_found-IsShort (some a) b h k = h
first_found-IsShort none b h k = k

if-IsShort : (b : Bool) (a : Option String) → IsShort a → IsShort (if b then a else none)
if-IsShort true a h = h
if-IsShort false a h = tt

module _ (pattern' : SubjectField) where
  -- What a search with so many levels left needs to know of the level below.
  abbrev Below : ℕ → Type 0
  Below zero = Unit
  Below (suc left) = (inner : Fields) → IsShort (find inner pattern' left)

  nested-IsShort :
      (value : Value) (left : ℕ) → Below left → IsShort (find_nested value pattern' left)
  unfolding find_nested
  nested-IsShort (Value.obj inner) zero below = tt
  nested-IsShort (Value.obj inner) (suc left) below = below inner
  nested-IsShort Value.undefined left below = tt
  nested-IsShort Value.null left below = tt
  nested-IsShort (Value.bool b) left below = tt
  nested-IsShort (Value.num b) left below = tt
  nested-IsShort (Value.bigint b) left below = tt
  nested-IsShort (Value.str b) left below = tt
  nested-IsShort (Value.arr _) left below = tt

  level-IsShort : (left : ℕ) → Below left → (fields : Fields) → IsShort (find fields pattern' left)
  unfolding find
  level-IsShort left below Fields.end = tt
  level-IsShort left below (Fields.field name value rest) =
      first_found-IsShort _ _ (if-IsShort (test pattern' name) _ (identifying-IsShort value))
        (first_found-IsShort _ _ (nested-IsShort value left below) (level-IsShort left below rest))

  find-IsShort : (left : ℕ) (fields : Fields) → IsShort (find fields pattern' left)
  find-IsShort zero fields = level-IsShort zero tt fields
  find-IsShort (suc left) fields = level-IsShort (suc left) (find-IsShort left) fields

find_first-IsShort :
    (fields : Fields) (patterns : List SubjectField) → IsShort (find_first fields patterns)
unfolding find_first
find_first-IsShort fields [] = tt
find_first-IsShort fields (pattern' ∷ rest) =
    first_found-IsShort _ _ (find-IsShort pattern' 2 fields) (find_first-IsShort fields rest)

loop_key-IsShort : (input : Value) → IsShort (loop_key input)
unfolding loop_key
loop_key-IsShort (Value.obj fields) = find_first-IsShort fields subject_fields
loop_key-IsShort Value.undefined = tt
loop_key-IsShort Value.null = tt
loop_key-IsShort (Value.bool _) = tt
loop_key-IsShort (Value.num _) = tt
loop_key-IsShort (Value.bigint _) = tt
loop_key-IsShort (Value.str _) = tt
loop_key-IsShort (Value.arr _) = tt

-- Whatever a request holds, and however deep it nests, a key that is read from it has at most 22
-- UTF-16 units.
pub text_length-loop_key-le :
    (input : Value) {key : String} → loop_key input ≡ some key → text_length key ≤ 22
text_length-loop_key-le input {key} found = subst IsShort found (loop_key-IsShort input)
