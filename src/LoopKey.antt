-- ===== src/LoopKey.antt =====
-- ui/src/loopKey.ts: the value of a request that tells one call in a loop from the next.
pub mod Bounds
use kaja.Prelude.{
  ℕ, zero, suc, ◌+◌, ◌-◌, String, Bool, true, false, ◌&&◌, ◌||◌, Option, none, some, List, [], ◌∷◌,
  ltb, leb, nat_eq, if◌then◌else◌, map, ◌==◌,
}
use kaja.Prelude.Text.{text_length, text_take, trim, codes, ◌+++◌, text_is_empty}
use kaja.Value.{Value, Fields}

-- The forms of SUBJECT_FIELDS: `/^w$/i`, `/w$/i` for a lower-case w, and `/w$/`.
pub data SubjectField : Type 0 where
  named : List ℕ → SubjectField
  ending : List ℕ → SubjectField
  ending_exact : List ℕ → SubjectField

abbrev pub subject_fields : List SubjectField
subject_fields =
    named (codes "id")
    ∷ ending (codes "_id")
    ∷ ending_exact (codes "Id")
    ∷ named (codes "slug")
    ∷ named (codes "key")
    ∷ named (codes "code")
    ∷ named (codes "name")
    ∷ named (codes "email")
    ∷ named (codes "title")
    ∷ []

-- A regular expression with the flag `i` and no flag `u` folds the ASCII letters; no letter
-- outside ASCII folds to one of them.
abbrev fold_case : ℕ → ℕ
fold_case c = if leb b'A' c && leb c b'Z' then c + 32 else c

unfoldable pub codes_eq : List ℕ → List ℕ → Bool
codes_eq [] [] = true
codes_eq (a ∷ as') (b ∷ bs) = nat_eq a b && codes_eq as' bs
codes_eq _ _ = false

unfoldable pub codes_end : List ℕ → List ℕ → Bool
unfolding codes_eq
codes_end [] w = codes_eq [] w
codes_end (c ∷ cs) w = codes_eq (c ∷ cs) w || codes_end cs w

-- `pattern.test(name)`
unfoldable pub test : SubjectField → String → Bool
unfolding codes_end codes_eq
test (named w) name = codes_eq (map fold_case (codes name)) w
test (ending w) name = codes_end (map fold_case (codes name)) w
test (ending_exact w) name = codes_end (codes name) w

abbrev pub max_key : ℕ
max_key = 22

abbrev pub max_depth : ℕ
max_depth = 2

unfoldable pub truncate : String → String
truncate value =
    if ltb max_key (text_length value) then text_take (max_key - 1) value +++ "…" else value

-- `/^0+$/`
unfoldable pub all_zeros : List ℕ → Bool
all_zeros [] = true
all_zeros (c ∷ cs) = nat_eq c b'0' && all_zeros cs

unfoldable pub some_zeros : List ℕ → Bool
unfolding all_zeros
some_zeros [] = false
some_zeros (c ∷ cs) = all_zeros (c ∷ cs)

-- `/^-?0+$/`
unfoldable pub is_zero_text : List ℕ → Bool
unfolding some_zeros
is_zero_text [] = false
is_zero_text (c ∷ cs) = if nat_eq c b'-' then some_zeros cs else some_zeros (c ∷ cs)

unfoldable pub identifying_text : String → Option String
unfolding is_zero_text truncate
identifying_text trimmed =
    if text_is_empty trimmed || is_zero_text (codes trimmed) then none else some (truncate trimmed)

unfoldable pub identifying : Value → Option String
unfolding truncate identifying_text
identifying (Value.str value) = identifying_text (trim value)
identifying (Value.num value) = if value == "0" then none else some (truncate value)
identifying (Value.bigint value) = if value == "0" then none else some (truncate value)
identifying _ = none

-- The first answer of two.
abbrev pub first_found : Option String → Option String → Option String
first_found (some a) other = some a
first_found none other = other

unfoldable mutual
  unfolding identifying test

  -- `find` on an object `depth` levels down, with `left` levels still open below it.
  pub find : Fields → SubjectField → ℕ → Option String
  find Fields.end pattern' left = none
  find (Fields.field name value rest) pattern' left =
      first_found (if test pattern' name then identifying value else none)
        (first_found (find_nested value pattern' left) (find rest pattern' left))

  pub find_nested : Value → SubjectField → ℕ → Option String
  find_nested (Value.obj fields) pattern' zero = none
  find_nested (Value.obj fields) pattern' (suc left) = find fields pattern' left
  find_nested _ pattern' left = none

unfoldable pub find_first : Fields → List SubjectField → Option String
unfolding find find_nested
find_first input [] = none
find_first input (pattern' ∷ rest) =
    first_found (find input pattern' max_depth) (find_first input rest)

unfoldable pub loop_key : Value → Option String
unfolding find_first
loop_key (Value.obj fields) = find_first fields subject_fields
loop_key _ = none
