-- ===== src/Base/Maps.antt =====
-- Go's `map[string]V`: an association list with each key once.
use mathlib.Core.Path.{◌≡◌, refl, subst}
use mathlib.Core.Logic.{inl, inr}
use mathlib.Core.Bool.{Bool, true, false}
use mathlib.Core.Option.{Option, none, some}
use mathlib.Core.List.{List, [], ◌∷◌}
use parallelis_distributed_e.Base.Tests.{if◌then◌else◌, Bool-cases}
use parallelis_distributed_e.Base.Bytes.{Str, str_eq, str_eq→eq, str_eq_refl}

-- Two keys apart are not both the same name.
not_both :
    (k key name : Str) → str_eq k key ≡ false → str_eq key name ≡ true → str_eq k name ≡ false
not_both k key name apart same = subst (λ x. str_eq k x ≡ false) (str_eq→eq key name same) apart

module _ {ℓ} {V : Type ℓ} where
  -- `m[key] = value`
  unfoldable pub put : Str → V → List (Str × V) → List (Str × V)
  put key value [] = (key, value) ∷ []
  put key value ((k, v) ∷ m) =
      let rest = put key value m in if str_eq k key then (key, value) ∷ m else (k, v) ∷ rest

  -- `m[key]`
  unfoldable pub value_of : List (Str × V) → Str → Option V
  value_of [] key = none
  value_of ((k, v) ∷ m) key = let rest = value_of m key in if str_eq k key then some v else rest

  pick :
      (b c : Bool) (v value : V) (old new : Option V)
      → (c ≡ true → b ≡ false)
      → new ≡ (if c then some value else old)
      → (if b then some v else new) ≡ (if c then some value else if b then some v else old)
  pick true true v value old new h e = let clash : true ≡ false = h refl in cc
  pick true false v value old new h e = refl
  pick false true v value old new h e = e
  pick false false v value old new h e = e

  pub value_of-put :
      (key : Str) (value : V) (m : List (Str × V)) (name : Str)
      → value_of (put key value m) name ≡ (if str_eq key name then some value else value_of m name)
  unfolding put value_of
  value_of-put key value [] name = refl
  value_of-put key value ((k, v) ∷ m) name = elim (Bool-cases (str_eq k key)) [
    | inl same ↦ rw (str_eq→eq k key same, str_eq_refl key) (replaced (str_eq key name))
    | inr apart ↦ rw apart (
        pick (str_eq k name) (str_eq key name) v value (value_of m name)
          (value_of (put key value m) name) (not_both k key name apart)
          (value_of-put key value m name))
  ]
    where
      replaced :
          (b : Bool)
          → (if b then some value else value_of m name)
            ≡ (if b then some value else if b then some v else value_of m name)
      replaced true = refl
      replaced false = refl

  pub value_of-put_self :
      (key : Str) (value : V) (m : List (Str × V)) → value_of (put key value m) key ≡ some value
  value_of-put_self key value m = rw (value_of-put key value m key, str_eq_refl key) refl
