-- ===== src/Model/Clock.antt =====
-- The parts of Go's package time that the program uses.
use parallelis_distributed_e.Base.{
  ℕ, ◌+◌, ◌-◌, ◌*◌, ◌/◌, ◌%◌, ◌<◌, ◌≡◌, arith, word_mod, sign_bit, mul_int, ltb, leb, if◌then◌else◌,
}

-- Nanoseconds since the start of the year 1.
abbrev pub Time : Type 0
Time = ℕ

-- A signed 64-bit count of nanoseconds, as a pattern.
abbrev pub Duration : Type 0
Duration = ℕ

abbrev pub second : ℕ
second = 1000000000

-- Seconds from the year 1 to 1970.
abbrev pub unix_epoch : ℕ
unix_epoch = 62135596800

-- `t.Add(d)`; a time before the year 1 is not represented, and reads as its start.
unfoldable pub add_duration : Time → Duration → Time
add_duration t d = if ltb d sign_bit then t + d else t + d - word_mod

-- `time.Duration(n) * time.Second`
unfoldable pub seconds : ℕ → Duration
seconds n = mul_int n second

-- `t.Unix()`
unfoldable pub unix : Time → ℕ
unix t = (t / second + word_mod - unix_epoch) % word_mod

pub unix-add_second :
    (t n : ℕ)
    → unix_epoch * second < t
    → t + n * second < word_mod * second
    → unix (t + n * second) ≡ unix t + n
unfolding unix
unix-add_second t n h k = omega arith

-- `time.Since(start)` at a time: the difference, in the range of a `Duration`.
unfoldable pub since : Time → Time → Duration
since start at =
    if leb start at
    then (if ltb (at - start) sign_bit then at - start else sign_bit - 1)
    else if leb (start - at) sign_bit
    then word_mod - (start - at)
    else sign_bit
