-- ===== src/Ask/Digits.antt =====
-- ui/src/ask.ts: the numerals of numbers, as they are read again.
use Prim.Native.Char.{Char}
use kaja.Prelude.{
  ℕ, zero, suc, ◌+◌, ◌*◌, ◌/◌, ◌%◌, ◌<◌, ◌≡◌, refl, ap, ◌∙◌, String, Bool, true, false, ◌&&◌, some,
  arith, ltb, Bool-cases, inl, inr,
}
use kaja.Prelude.Text.{decimal, decimal_fuel, digit, trim, trim_end, is_space, text_is_empty, ◌+++◌}
use kaja.Ask.{is_digit, parse_from}

abbrev pub all_digits : String → Bool
all_digits String.[] = true
all_digits (String.◌∷◌ c text) = is_digit c && all_digits text

space-digit : (c : Char) → is_digit c ≡ true → is_space c ≡ false
space-digit c h = ground (arith, h)

trim_end-digits : (text : String) → all_digits text ≡ true → trim_end text ≡ text
trim_end-digits String.[] h = refl
trim_end-digits (String.◌∷◌ c text) h = ground (arith, h, space-digit c, trim_end-digits text)

digit_digits :
    (n : ℕ) (rest : String) → all_digits rest ≡ true → all_digits (digit n +++ rest) ≡ true
digit_digits zero rest h = h
digit_digits (suc zero) rest h = h
digit_digits (suc (suc zero)) rest h = h
digit_digits (suc (suc (suc zero))) rest h = h
digit_digits (suc (suc (suc (suc zero)))) rest h = h
digit_digits (suc (suc (suc (suc (suc zero))))) rest h = h
digit_digits (suc (suc (suc (suc (suc (suc zero)))))) rest h = h
digit_digits (suc (suc (suc (suc (suc (suc (suc zero))))))) rest h = h
digit_digits (suc (suc (suc (suc (suc (suc (suc (suc zero)))))))) rest h = h
digit_digits (suc (suc (suc (suc (suc (suc (suc (suc (suc n))))))))) rest h = h

parse_from-digit :
    (read n : ℕ) (rest : String)
    → n < 10
    → parse_from read (digit n +++ rest) ≡ parse_from (read * 10 + n) rest
unfolding parse_from
parse_from-digit read zero rest h = refl
parse_from-digit read (suc zero) rest h = refl
parse_from-digit read (suc (suc zero)) rest h = refl
parse_from-digit read (suc (suc (suc zero))) rest h = refl
parse_from-digit read (suc (suc (suc (suc zero)))) rest h = refl
parse_from-digit read (suc (suc (suc (suc (suc zero))))) rest h = refl
parse_from-digit read (suc (suc (suc (suc (suc (suc zero)))))) rest h = refl
parse_from-digit read (suc (suc (suc (suc (suc (suc (suc zero))))))) rest h = refl
parse_from-digit read (suc (suc (suc (suc (suc (suc (suc (suc zero)))))))) rest h = refl
parse_from-digit read (suc (suc (suc (suc (suc (suc (suc (suc (suc zero))))))))) rest h = refl
parse_from-digit read (suc (suc (suc (suc (suc (suc (suc (suc (suc (suc n)))))))))) rest h =
    absurd (omega (arith, h))

parse_from-decimal_fuel :
    (fuel n : ℕ) (rest : String)
    → n < fuel
    → parse_from 0 (decimal_fuel fuel n rest) ≡ parse_from n rest
unfolding decimal_fuel
parse_from-decimal_fuel zero n rest h = absurd (omega (arith, h))
parse_from-decimal_fuel (suc fuel) n rest h = elim (Bool-cases (ltb n 10)) [
  | inl small ↦
      rw (small, decimal_fuel)
        (parse_from-digit 0 n rest (ground (arith, small))
          ∙ ap (λ m. parse_from m rest) (omega arith))
  | inr large ↦
      rw (large, decimal_fuel)
        (parse_from-decimal_fuel fuel (n / 10) (digit (n % 10) +++ rest) (ground (arith, large, h))
          ∙ (parse_from-digit (n / 10) (n % 10) rest (omega arith)
              ∙ ap (λ m. parse_from m rest) (omega arith)))
]

digits-decimal_fuel :
    (fuel n : ℕ) (rest : String)
    → all_digits rest ≡ true
    → all_digits (decimal_fuel fuel n rest) ≡ true
unfolding decimal_fuel
digits-decimal_fuel zero n rest h = h
digits-decimal_fuel (suc fuel) n rest h = ground (
  arith,
  h,
  digit_digits n rest h,
  digits-decimal_fuel fuel (n / 10) (digit (n % 10) +++ rest) (digit_digits (n % 10) rest h),
)

digit_longer : (n : ℕ) (rest : String) → text_is_empty (digit n +++ rest) ≡ false
digit_longer zero rest = refl
digit_longer (suc zero) rest = refl
digit_longer (suc (suc zero)) rest = refl
digit_longer (suc (suc (suc zero))) rest = refl
digit_longer (suc (suc (suc (suc zero)))) rest = refl
digit_longer (suc (suc (suc (suc (suc zero))))) rest = refl
digit_longer (suc (suc (suc (suc (suc (suc zero)))))) rest = refl
digit_longer (suc (suc (suc (suc (suc (suc (suc zero))))))) rest = refl
digit_longer (suc (suc (suc (suc (suc (suc (suc (suc zero)))))))) rest = refl
digit_longer (suc (suc (suc (suc (suc (suc (suc (suc (suc n))))))))) rest = refl

longer-decimal_fuel :
    (fuel n : ℕ) (rest : String) → n < fuel → text_is_empty (decimal_fuel fuel n rest) ≡ false
unfolding decimal_fuel
longer-decimal_fuel zero n rest h = absurd (omega (arith, h))
longer-decimal_fuel (suc fuel) n rest h =
    ground
      (arith, h, digit_longer n rest, longer-decimal_fuel fuel (n / 10) (digit (n % 10) +++ rest))

pub longer-decimal : (n : ℕ) → text_is_empty (decimal n) ≡ false
unfolding decimal
longer-decimal n = longer-decimal_fuel (suc n) n "" (omega arith)

pub digits-decimal : (n : ℕ) → all_digits (decimal n) ≡ true
unfolding decimal
digits-decimal n = digits-decimal_fuel (suc n) n "" refl

pub parse_from-decimal : (n : ℕ) → parse_from 0 (decimal n) ≡ some n
unfolding decimal parse_from
parse_from-decimal n = parse_from-decimal_fuel (suc n) n "" (omega arith)

pub trim-digits : (text : String) → all_digits text ≡ true → trim text ≡ text
trim-digits String.[] h = refl
trim-digits (String.◌∷◌ c text) h =
    ground (arith, h, space-digit c, trim_end-digits (String.◌∷◌ c text) h)

pub trim-signed : (text : String) → all_digits text ≡ true → trim ("-" +++ text) ≡ "-" +++ text
trim-signed text h = ground (arith, trim_end-digits text h)
