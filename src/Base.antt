-- ===== src/Base.antt =====
-- The names that the other modules share: the libraries', passed on, Boolean tests, Go's strings
-- and 64-bit integers, and the result of a call that may return an error.
mod Tests
mod Bytes
mod Word
mod Cases
mod Maps
pub use Cases.{Result, ok, err, Result-cases, Option-cases}
pub use Tests.*
pub use Word.{word_mod, sign_bit, lt_int-small, add_int-small, sub_int-small}
unfoldable pub use Word.{add_int, sub_int, mul_int, lt_int}
pub use Bytes.{length, Str, bytes, str_eq→eq, str_eq_refl, append-cancel_left, starts_with-append}
unfoldable pub use Bytes.{str_eq, starts_with}
pub use Prim.Native.Nat.{ℕ, zero, suc, ◌+◌, ◌-◌, ◌*◌, ◌/◌, ◌%◌, ◌^◌, ◌≤◌, ◌<◌}
pub use mathlib.Core.Path.{◌≡◌, refl, sym, ap, subst, ◌∙◌}
pub use mathlib.Core.Logic.{◌≢◌, ◌⊎◌, inl, inr}
pub use mathlib.Core.Bool.{Bool, true, false, not, ◌&&◌, ◌||◌}
pub use mathlib.Core.Option.{Option, none, some}
pub use mathlib.Core.List.{List, [], ◌∷◌, ◌++◌, map, Memᴰ}
pub use native.Mathlib.Omega.{arith}
pub use Maps.{value_of-put, value_of-put_self}
unfoldable pub use Maps.{put, value_of}
