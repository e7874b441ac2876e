-- ===== src/Strconv/RoundTrip.antt =====
-- `Atoi` reads back what `Itoa` and `FormatInt` print.
use parallelis_distributed_e.Base.{
  ℕ, zero, suc, ◌+◌, ◌-◌, ◌/◌, ◌%◌, ◌<◌, ◌≤◌, ◌∙◌, ltb, ◌≡◌, Bool-cases, inl, inr, some, [], ◌∷◌,
  Str, arith, word_mod, sign_bit, true, false, refl,
}
use parallelis_distributed_e.Strconv.{
  positive, negative, atoi, format_int, print_digits, parse_digits, parse_number,
  parse_digits-print_digits,
}

-- What is printed begins with a digit.
abbrev IsDigitHead : Str → Type 0
IsDigitHead [] = ⊥
IsDigitHead (c ∷ s) = (48 ≤ c) × (c < 58)

digit_head : (n : ℕ) → ltb n 10 ≡ true → (48 ≤ 48 + n) × (48 + n < 58)
digit_head n h = ground arith

negative_lem :
    (n : ℕ) → n < word_mod → ltb n sign_bit ≡ false → negative (some (word_mod - n)) ≡ some n
unfolding negative
negative_lem n h large = ground arith

print_digits-IsDigitHead :
    (fuel n : ℕ) (rest : Str) → IsDigitHead rest → IsDigitHead (print_digits fuel n rest)
unfolding print_digits
print_digits-IsDigitHead zero n rest h = h
print_digits-IsDigitHead (suc fuel) n rest h = elim (Bool-cases (ltb n 10)) [
  | inl last ↦ rw last (digit_head n last)
  | inr more ↦
      rw more
        (print_digits-IsDigitHead fuel (n / 10) ((48 + n % 10) ∷ rest) (omega arith, omega arith))
]

print_digits_head : (fuel n : ℕ) → IsDigitHead (print_digits (suc fuel) n [])
unfolding print_digits
print_digits_head fuel n = elim (Bool-cases (ltb n 10)) [
  | inl last ↦ rw last (digit_head n last)
  | inr more ↦
      rw more
        (print_digits-IsDigitHead fuel (n / 10) ((48 + n % 10) ∷ []) (omega arith, omega arith))
]

atoi_digits :
    (s : Str) (n : ℕ) → IsDigitHead s → parse_digits 0 s ≡ some n → atoi s ≡ positive (some n)
unfolding atoi parse_number
atoi_digits [] n h e = absurd h
atoi_digits (c ∷ s) n h e = ground arith

atoi_minus :
    (s : Str) (n : ℕ)
    → IsDigitHead s
    → parse_digits 0 s ≡ some n
    → atoi (b'-' ∷ s) ≡ negative (some n)
unfolding atoi parse_number
atoi_minus [] n h e = absurd h
atoi_minus (c ∷ s) n h e = ground arith

parse_printed : (n : ℕ) → n < word_mod → parse_digits 0 (print_digits 20 n []) ≡ some n
unfolding parse_digits
parse_printed n h = parse_digits-print_digits 20 n [] (omega arith)

-- For every 64-bit pattern, reading what `FormatInt` prints of it at base 10 gives the pattern
-- back, without an error.
pub atoi-format_int : (n : ℕ) → n < word_mod → atoi (format_int n) ≡ some n
unfolding format_int positive
atoi-format_int n h = elim (Bool-cases (ltb n sign_bit)) [
  | inl small ↦ rw small (
      atoi_digits (print_digits 20 n []) n (print_digits_head 19 n) (parse_printed n h)
      ∙ rw small refl)
  | inr large ↦ rw large (
      atoi_minus (print_digits 20 (word_mod - n) []) (word_mod - n)
        (print_digits_head 19 (word_mod - n)) (parse_printed (word_mod - n) (ground arith))
      ∙ negative_lem n h large)
]
