-- ===== src/Ask.antt =====
-- ui/src/ask.ts: what a question asks for, and the one rule that its answer has to satisfy. A whole
-- number is held as an integer, so that `-0` is 0.
pub mod Digits
pub mod Answers
use Prim.Native.Char.{Char, code}
use kaja.Prelude.{
  ℕ, zero, suc, ◌+◌, ◌-◌, ◌*◌, String, Bool, true, false, ◌&&◌, Option, none, some, ltb, leb,
  nat_eq, is_some, if◌then◌else◌,
}
use kaja.Prelude.Text.{decimal, trim, text_is_empty, ◌+++◌}
use kaja.Block.{AskAnswerType, AskBlock}

pub data ℤ : Type 0 where
  pos negsuc : ℕ → ℤ

abbrev pub is_digit : Char → Bool
is_digit c = leb 48 (code c) && leb (code c) 57

-- The number that the digits stand for, after those that were read.
unfoldable pub parse_from : ℕ → String → Option ℕ
parse_from read String.[] = some read
parse_from read (String.◌∷◌ c text) =
    let rest = parse_from (read * 10 + (code c - 48)) text in if is_digit c then rest else none

abbrev pub signed : Bool → ℕ → ℤ
signed false n = ℤ.pos n
signed true zero = ℤ.pos 0
signed true (suc n) = ℤ.negsuc n

abbrev pub max_safe : ℕ
max_safe = 9007199254740991

abbrev pub safe : Bool → Option ℕ → Option ℤ
safe negative none = none
safe negative (some n) = if leb n max_safe then some (signed negative n) else none

abbrev pub parse_digits : String → Option ℕ
parse_digits String.[] = none
parse_digits (String.◌∷◌ c text) = parse_from 0 (String.◌∷◌ c text)

-- A sign, then the digits.
unfoldable pub parse_signed : String → Option ℤ
unfolding parse_from
parse_signed String.[] = none
parse_signed (String.◌∷◌ c text) =
    let unsigned = safe false (parse_digits (String.◌∷◌ c text)) in
    if nat_eq (code c) 45
    then safe true (parse_digits text)
    else (if nat_eq (code c) 43 then safe false (parse_digits text) else unsigned)

unfoldable pub parse_integer : String → Option ℤ
unfolding parse_signed
parse_integer text = parse_signed (trim text)

abbrev pub int_text : ℤ → String
int_text (ℤ.pos n) = decimal n
int_text (ℤ.negsuc n) = "-" +++ decimal (suc n)

unfoldable pub answer_problem : AskAnswerType → String → Option String
unfolding parse_integer
answer_problem AskAnswerType.int text =
    if is_some (parse_integer text)
    then none
    else some (if text_is_empty (trim text) then "Enter a whole number" else "Not a whole number")
answer_problem AskAnswerType.str text = none
answer_problem AskAnswerType.select text = none

unfoldable pub normalize_answer : AskAnswerType → String → String
unfolding parse_integer decimal
normalize_answer AskAnswerType.int text = elim (parse_integer text) [
  | none ↦ text
  | some value ↦ int_text value
]
normalize_answer AskAnswerType.str text = text
normalize_answer AskAnswerType.select text = text

abbrev pub answer_placeholder : AskAnswerType → String
answer_placeholder AskAnswerType.int = "Whole number…"
answer_placeholder AskAnswerType.str = "Answer…"
answer_placeholder AskAnswerType.select = "Answer…"
