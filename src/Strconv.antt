-- ===== src/Strconv.antt =====
-- The functions of Go's package strconv that the program calls: `Atoi`, `Itoa` and `FormatInt` at
-- base 10, on 64-bit patterns.
mod Digits
pub mod RoundTrip
pub use Digits.{parse_digits-print_digits}
unfoldable pub use Digits.{print_digits, parse_digits, parse_number}
use parallelis_distributed_e.Base.{
  ℕ, ◌-◌, ◌==◌, ◌<◌, ltb, leb, ◌≡◌, refl, Option, none, some, [], ◌∷◌, Str, word_mod, sign_bit,
  if◌then◌else◌, arith,
}

-- `strconv.FormatInt(n, 10)` and `strconv.Itoa(n)`
unfoldable pub format_int : ℕ → Str
format_int n =
    if ltb n sign_bit then print_digits 20 n [] else b'-' ∷ print_digits 20 (word_mod - n) []

-- The value of the digits, in the range of `int64` for the sign.
unfoldable pub positive : Option ℕ → Option ℕ
positive none = none
positive (some n) = if ltb n sign_bit then some n else none

unfoldable pub negative : Option ℕ → Option ℕ
negative none = none
negative (some n) = if n == 0 then some 0 else if leb n sign_bit then some (word_mod - n) else none

-- `strconv.Atoi(s)`; `none` is an error of syntax or of range.
unfoldable pub atoi : Str → Option ℕ
unfolding positive negative parse_number
atoi [] = none
atoi (c ∷ s) =
    if c == b'-'
    then negative (parse_number s)
    else if c == b'+'
    then positive (parse_number s)
    else positive (parse_number (c ∷ s))
