-- ===== src/Prelude/Text.antt =====
-- The JavaScript text functions that the program calls, over the native text: lengths in UTF-16
-- units, slices, trimming and decimal numerals. A slice that would cut a surrogate pair in two
-- leaves the pair out.
use Prim.Native.Nat.{ℕ, zero, suc, ◌+◌, ◌-◌, ◌/◌, ◌%◌}
use Prim.Native.Char.{Char, code}
use Prim.Native.String.{String}
use mathlib.Core.Bool.{Bool, true, false, ◌&&◌, ◌||◌}
use mathlib.Core.List.{List, [], ◌∷◌}
use kaja.Prelude.Tests.{ltb, leb, nat_eq, if◌then◌else◌}

infixr 65 ◌+++◌
abbrev pub ◌+++◌ : String → String → String
◌+++◌ String.[] t = t
◌+++◌ (String.◌∷◌ c s) t = String.◌∷◌ c (◌+++◌ s t)

abbrev pub units : Char → ℕ
units c = if ltb (code c) 0x10000 then 1 else 2

-- `text.length`
abbrev pub text_length : String → ℕ
text_length String.[] = 0
text_length (String.◌∷◌ c s) = units c + text_length s

-- `text.slice(0, n)`
abbrev pub text_take : ℕ → String → String
text_take n String.[] = String.[]
text_take n (String.◌∷◌ c s) =
    let rest = text_take (n - units c) s in if leb (units c) n then String.◌∷◌ c rest else String.[]

-- The white space and the line ends that `trim` removes.
abbrev pub is_space : Char → Bool
is_space c =
    let n = code c in
    leb 9 n && leb n 13
    || nat_eq n 32
    || nat_eq n 0xA0
    || nat_eq n 0x1680
    || leb 0x2000 n && leb n 0x200A
    || nat_eq n 0x2028
    || nat_eq n 0x2029
    || nat_eq n 0x202F
    || nat_eq n 0x205F
    || nat_eq n 0x3000
    || nat_eq n 0xFEFF

abbrev pub trim_start : String → String
trim_start String.[] = String.[]
trim_start (String.◌∷◌ c s) = let rest = trim_start s in if is_space c then rest else String.◌∷◌ c s

abbrev pub text_is_empty : String → Bool
text_is_empty String.[] = true
text_is_empty (String.◌∷◌ c s) = false

abbrev pub trim_end : String → String
trim_end String.[] = String.[]
trim_end (String.◌∷◌ c s) =
    let rest = trim_end s in
    if text_is_empty rest && is_space c then String.[] else String.◌∷◌ c rest

abbrev pub trim : String → String
trim s = trim_end (trim_start s)

-- `text.split("\n")[0]`
abbrev pub first_line_of : String → String
first_line_of String.[] = String.[]
first_line_of (String.◌∷◌ c s) =
    let rest = first_line_of s in if nat_eq (code c) 10 then String.[] else String.◌∷◌ c rest

abbrev pub codes : String → List ℕ
codes String.[] = []
codes (String.◌∷◌ c s) = code c ∷ codes s

abbrev pub digit : ℕ → String
digit zero = "0"
digit (suc zero) = "1"
digit (suc (suc zero)) = "2"
digit (suc (suc (suc zero))) = "3"
digit (suc (suc (suc (suc zero)))) = "4"
digit (suc (suc (suc (suc (suc zero))))) = "5"
digit (suc (suc (suc (suc (suc (suc zero)))))) = "6"
digit (suc (suc (suc (suc (suc (suc (suc zero))))))) = "7"
digit (suc (suc (suc (suc (suc (suc (suc (suc zero)))))))) = "8"
digit _ = "9"

-- The numeral of `n` before `rest`; a number has fewer digits than `n + 1`, which is the fuel.
unfoldable pub decimal_fuel : ℕ → ℕ → String → String
decimal_fuel zero n rest = rest
decimal_fuel (suc f) n rest =
    let more = decimal_fuel f (n / 10) (digit (n % 10) +++ rest) in
    if ltb n 10 then digit n +++ rest else more

-- `String(n)`
unfoldable pub decimal : ℕ → String
unfolding decimal_fuel
decimal n = decimal_fuel (suc n) n ""

abbrev pub is_prefix : String → String → Bool
is_prefix String.[] t = true
is_prefix (String.◌∷◌ c s) String.[] = false
is_prefix (String.◌∷◌ c s) (String.◌∷◌ d t) = nat_eq (code c) (code d) && is_prefix s t

-- `t.includes(s)`
abbrev pub includes : String → String → Bool
includes s String.[] = is_prefix s String.[]
includes s (String.◌∷◌ d t) = is_prefix s (String.◌∷◌ d t) || includes s t
