-- ===== src/Strconv/Digits.antt =====
-- Decimal digits, printed from the last and read from the first.
use parallelis_distributed_e.Base.{
  ℕ, zero, suc, ◌+◌, ◌-◌, ◌*◌, ◌/◌, ◌%◌, ◌^◌, ◌<◌, ltb, leb, ◌&&◌, ◌≡◌, Bool-cases, inl, inr,
  Option, none, some, [], ◌∷◌, Str, if◌then◌else◌, arith, ltb→lt, ◌∙◌,
}
use native.Mathlib.Nat.{pow-suc}

-- Prints a number below 10 ^ fuel in front of what is printed already.
unfoldable pub print_digits : ℕ → ℕ → Str → Str
print_digits zero n rest = rest
print_digits (suc fuel) n rest =
    let more = print_digits fuel (n / 10) ((48 + n % 10) ∷ rest) in
    if ltb n 10 then (48 + n) ∷ rest else more

-- Reads digits behind a value.
unfoldable pub parse_digits : ℕ → Str → Option ℕ
parse_digits value [] = some value
parse_digits value (c ∷ s) =
    let more = parse_digits (value * 10 + (c - 48)) s in if leb 48 c && leb c 57 then more else none

-- At least one digit is wanted.
unfoldable pub parse_number : Str → Option ℕ
unfolding parse_digits
parse_number [] = none
parse_number (c ∷ s) = parse_digits 0 (c ∷ s)

pow_step : (fuel n : ℕ) → n < 10 ^ suc fuel → n / 10 < 10 ^ fuel
pow_step fuel n h = let e : 10 ^ suc fuel ≡ 10 ^ fuel * 10 = pow-suc 10 fuel in omega arith

-- A digit is read as one more place.
parse_digit :
    (value d n : ℕ) (s : Str)
    → d < 10
    → value * 10 + d ≡ n
    → parse_digits value ((48 + d) ∷ s) ≡ parse_digits n s
unfolding parse_digits
parse_digit value d n s h e =
    let sum : value * 10 + (48 + d - 48) ≡ n = omega arith in rw sum (ground arith)

-- Reading, behind the value 0, what was printed of `n` in front of `rest` is reading `rest` behind
-- the value `n`.
pub parse_digits-print_digits :
    (fuel n : ℕ) (rest : Str)
    → n < 10 ^ fuel
    → parse_digits 0 (print_digits fuel n rest) ≡ parse_digits n rest
unfolding print_digits
parse_digits-print_digits zero n rest h = let e : n ≡ 0 = omega arith in rw e
parse_digits-print_digits (suc fuel) n rest h = elim (Bool-cases (ltb n 10)) [
  | inl last ↦ rw last (parse_digit 0 n n rest (ltb→lt n 10 last) (omega arith))
  | inr more ↦ rw more (
      parse_digits-print_digits fuel (n / 10) ((48 + n % 10) ∷ rest) (pow_step fuel n h)
      ∙ parse_digit (n / 10) (n % 10) n rest (omega arith) (omega arith))
]
