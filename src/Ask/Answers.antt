-- ===== src/Ask/Answers.antt =====
-- ui/src/ask.ts: an answer as it is recorded, read once more.
use kaja.Prelude.{
  ℕ, zero, suc, ◌≡◌, refl, sym, ap, ◌∙◌, String, Bool, true, false, Option, none, some, arith, leb,
  Option-cases, inl, inr,
}
use kaja.Prelude.Text.{decimal, trim, text_is_empty}
use kaja.Block.{AskAnswerType}
use kaja.Ask.{
  ℤ, parse_from, parse_digits, parse_signed, parse_integer, safe, max_safe, int_text,
  normalize_answer,
}
use kaja.Ask.Digits.{
  all_digits, digits-decimal, parse_from-decimal, longer-decimal, trim-digits, trim-signed,
}

-- A number that a double holds exactly.
abbrev is_safe : ℤ → Bool
is_safe (ℤ.pos n) = leb n max_safe
is_safe (ℤ.negsuc n) = leb (suc n) max_safe

safe-is_safe :
    (negative : Bool) (n : Option ℕ) (value : ℤ)
    → safe negative n ≡ some value
    → is_safe value ≡ true
safe-is_safe negative none value h = cc
safe-is_safe false (some n) value h = ground (arith, h)
safe-is_safe true (some zero) value h = ground (arith, h)
safe-is_safe true (some (suc n)) value h = ground (arith, h)

parse_signed-is_safe :
    (text : String) (value : ℤ) → parse_signed text ≡ some value → is_safe value ≡ true
unfolding parse_signed
parse_signed-is_safe String.[] value h = cc
parse_signed-is_safe (String.◌∷◌ c text) value h = ground (
  arith,
  h,
  safe-is_safe true (parse_digits text) value,
  safe-is_safe false (parse_digits text) value,
  safe-is_safe false (parse_digits (String.◌∷◌ c text)) value,
)

parse_signed-digits :
    (text : String) (n : ℕ)
    → all_digits text ≡ true
    → text_is_empty text ≡ false
    → parse_from 0 text ≡ some n
    → parse_signed text ≡ safe false (some n)
unfolding parse_signed
parse_signed-digits String.[] n h h' e = cc
parse_signed-digits (String.◌∷◌ c text) n h h' e = ground (arith, h, e)

parse_digits-digits :
    (text : String) (n : ℕ)
    → text_is_empty text ≡ false
    → parse_from 0 text ≡ some n
    → parse_digits text ≡ some n
parse_digits-digits String.[] n h e = cc
parse_digits-digits (String.◌∷◌ c text) n h e = e

parse_integer-int_text :
    (value : ℤ) → is_safe value ≡ true → parse_integer (int_text value) ≡ some value
unfolding parse_integer parse_signed
parse_integer-int_text (ℤ.pos n) h = ground (
  arith,
  h,
  trim-digits (decimal n) (digits-decimal n),
  parse_signed-digits (decimal n) n (digits-decimal n) (longer-decimal n) (parse_from-decimal n),
)
parse_integer-int_text (ℤ.negsuc n) h = ground (
  arith,
  h,
  trim-signed (decimal (suc n)) (digits-decimal (suc n)),
  parse_digits-digits (decimal (suc n)) (suc n) (longer-decimal (suc n))
      (parse_from-decimal (suc n)),
)

normalize_number :
    (text : String) (value : ℤ)
    → parse_integer text ≡ some value
    → normalize_answer AskAnswerType.int text ≡ int_text value
unfolding normalize_answer
normalize_number text value h = rw (h, normalize_answer) refl

normalize_other :
    (text : String) → parse_integer text ≡ none → normalize_answer AskAnswerType.int text ≡ text
unfolding normalize_answer
normalize_other text h = rw (h, normalize_answer) refl

-- The recorded answer to a question for a whole number is read as the number that the text that was
-- typed is read as, and is nothing else when it is recorded again; where the text is no whole
-- number, neither is what is recorded of it.
pub parse_integer-normalize_answer :
    (text : String)
    → (parse_integer (normalize_answer AskAnswerType.int text) ≡ parse_integer text)
      × (normalize_answer AskAnswerType.int (normalize_answer AskAnswerType.int text)
          ≡ normalize_answer AskAnswerType.int text)
unfolding parse_integer
parse_integer-normalize_answer text = elim (Option-cases (parse_integer text)) [
  | inl gone ↦
      (let unmoved = normalize_other text gone in
        (ap parse_integer unmoved, ap (normalize_answer AskAnswerType.int) unmoved))
  | inr (value, here) ↦
      (let recorded = normalize_number text value here in
        let again = parse_integer-int_text value (parse_signed-is_safe (trim text) value here) in
        (
          ap parse_integer recorded ∙ (again ∙ sym here),
          ap (normalize_answer AskAnswerType.int) recorded
              ∙ (normalize_number (int_text value) value again ∙ sym recorded),
        ))
]
