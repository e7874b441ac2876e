-- ===== src/Base/Word.antt =====
-- Go's `int` and `int64` as 64-bit two's complement patterns: a value below 2 ^ 64.
use Prim.Native.Nat.{ℕ, ◌+◌, ◌-◌, ◌*◌, ◌%◌, ◌^◌, ◌<◌, ◌≤◌}
use mathlib.Core.Path.{◌≡◌}
use mathlib.Core.Bool.{Bool}
use native.Mathlib.Omega.{arith}
use parallelis_distributed_e.Base.Tests.{ltb}

-- The number of patterns, and the pattern of the smallest negative value.
abbrev pub word_mod : ℕ
word_mod = 2 ^ 64

abbrev pub sign_bit : ℕ
sign_bit = 2 ^ 63

unfoldable pub add_int : ℕ → ℕ → ℕ
add_int a b = (a + b) % word_mod

unfoldable pub sub_int : ℕ → ℕ → ℕ
sub_int a b = (a + word_mod - b) % word_mod

unfoldable pub mul_int : ℕ → ℕ → ℕ
mul_int a b = (a * b) % word_mod

-- The signed comparison `a < b`.
unfoldable pub lt_int : ℕ → ℕ → Bool
lt_int a b = ltb ((a + sign_bit) % word_mod) ((b + sign_bit) % word_mod)

-- Values that are not negative compare as numbers.
pub lt_int-small : (a b : ℕ) → a < sign_bit → b < sign_bit → lt_int a b ≡ ltb a b
unfolding lt_int
lt_int-small a b ha hb = ground arith

pub add_int-small : (a b : ℕ) → a + b < word_mod → add_int a b ≡ a + b
unfolding add_int
add_int-small a b h = omega arith

pub sub_int-small : (a b : ℕ) → b ≤ a → a < word_mod → sub_int a b ≡ a - b
unfolding sub_int
sub_int-small a b h k = omega arith
