-- ===== src/Examples/Limits.antt =====
-- Rate limits beside everything else, in memory.
use parallelis_distributed_e.Base.{
  ◌≡◌, ◌≢◌, refl, sym, ap, ◌∙◌, true, false, Bool-cases, inl, inr, List, [], ◌∷◌, ◌++◌, Memᴰ, Str,
  bytes, ok, ℕ, str_eq, str_eq→eq, str_eq_refl, starts_with, subst, arith,
}
use parallelis_distributed_e.Model.{Duration}
use parallelis_distributed_e.Services.{SeparationLaws}
use parallelis_distributed_e.Memory.{Store}
use parallelis_distributed_e.Memory.Keys.{
  keys_with, without_hash, without_hashes, lookup_hash, prefix_of-star,
}
use parallelis_distributed_e.RateLimitService.{rate_limit_key, count_field}
use parallelis_distributed_e.CacheService.Coherence.{first_byte}
use parallelis_distributed_e.System.{
  perform_all, Action, post, poll, deliver, clear_caches, reset_limit,
}
use parallelis_distributed_e.System.Limits.{Spares, field-perform_all}
use parallelis_distributed_e.Examples.Runs.{config, customer, request, message}
use parallelis_distributed_e.Examples.Quota.{busy}
use parallelis_distributed_e.Examples.Variants.{steady, steady_keys, steady_counters, field}

lookup-without_hash :
    (k l g : Str) (m : List (Str × Str × ℕ))
    → str_eq k l ≡ false
    → lookup_hash (without_hash k m) l g ≡ lookup_hash m l g
lookup-without_hash k l g [] apart = refl
lookup-without_hash k l g ((j, f, n) ∷ m) apart = ground (
  arith,
  lookup-without_hash k l g m apart,
  str_eq→eq j k,
  str_eq→eq j l,
  str_eq_refl k,
  str_eq_refl l,
)

unlisted : (k l : Str) (ks : List Str) → (Memᴰ l (k ∷ ks) → ⊥) → str_eq k l ≡ false
unlisted k l ks out = elim (Bool-cases (str_eq k l)) [
  | inl same ↦ absurd (out (Memᴰ.head (sym (str_eq→eq k l same))))
  | inr apart ↦ apart
]

lookup-without_hashes :
    (ks : List Str) (l g : Str) (m : List (Str × Str × ℕ))
    → (Memᴰ l ks → ⊥)
    → lookup_hash (without_hashes ks m) l g ≡ lookup_hash m l g
lookup-without_hashes [] l g m out = refl
lookup-without_hashes (k ∷ ks) l g m out =
    lookup-without_hash k l g (without_hashes ks m) (unlisted k l ks out)
    ∙ lookup-without_hashes ks l g m (λ at. out (Memᴰ.tail at))

first_or_later_fits :
    (p l k : Str) (rest : List Str)
    → starts_with p k ≡ true
    → (Memᴰ l rest → starts_with p l ≡ true)
    → Memᴰ l (k ∷ rest)
    → starts_with p l ≡ true
first_or_later_fits p l k rest shown later (Memᴰ.head e) = ap (starts_with p) e ∙ shown
first_or_later_fits p l k rest shown later (Memᴰ.tail at) = later at

listed_fits : (p l : Str) (m : List (Str × Str)) → Memᴰ l (keys_with p m) → starts_with p l ≡ true
listed_fits p l [] at = elim at [ ]
listed_fits p l ((k, v) ∷ m) at = elim (Bool-cases (starts_with p k)) [
  | inl shown ↦
      first_or_later_fits p l k (keys_with p m) shown (listed_fits p l m)
        (subst (Memᴰ l) (ground arith) at)
  | inr off ↦ listed_fits p l m (subst (Memᴰ l) (ground arith) at)
]

deleted :
    (ks : List Str) (l g : Str) (s : Store)
    → (Memᴰ l ks → ⊥)
    → field (steady_keys.del ks s).1 l g ≡ field s l g
deleted ks l g s out = ground (arith, lookup-without_hashes ks l g s.hashes out)

set_elsewhere :
    (k v l g : Str) (d : Duration) (s : Store) → field (steady_keys.set k v d s).1 l g ≡ field s l g
set_elsewhere k v l g d s = ground arith

keys_sound :
    (p l : Str) (ks : List Str) (s : Store)
    → (steady_keys.keys (p ++ b'*' ∷ []) s).0 ≡ ok ks
    → Memᴰ l ks
    → starts_with p l ≡ true
keys_sound p l ks s e at = elim (Bool-cases s.down) [
  | inl down ↦ ground arith
  | inr up ↦
      let all : ks ≡ keys_with p s.strings = ground (arith, prefix_of-star p) in
      listed_fits p l s.strings (subst (Memᴰ l) all at)
]

steady_separation : SeparationLaws steady_keys steady_counters
steady_separation = record {
  field-get = λ k l g s. refl;
  field-set = λ k v l g d s apart. set_elsewhere k v l g d s;
  field-del = deleted;
  field-keys = λ p l g s. refl;
  keys_sound = λ p l ks s plain. keys_sound p l ks s;
}

-- Another client posts, the job is scheduled and run, and administrators come.
abbrev other_client : Str
other_client = bytes "d"

distinct : other_client ≢ customer
distinct e = let h : ◌≡◌ {A = ℕ} 100 99 = ap first_byte e in omega arith

abbrev traffic : List Action
traffic =
    post other_client (ok request)
    ∷ poll
    ∷ deliver message
    ∷ clear_caches
    ∷ reset_limit other_client
    ∷ []

spared : (a : Action) → Memᴰ a traffic → Spares customer a
spared a (Memᴰ.head e) = subst (Spares customer) (sym e) distinct
spared a (Memᴰ.tail (Memᴰ.head e)) = subst (Spares customer) (sym e) tt
spared a (Memᴰ.tail (Memᴰ.tail (Memᴰ.head e))) = subst (Spares customer) (sym e) tt
spared a (Memᴰ.tail (Memᴰ.tail (Memᴰ.tail (Memᴰ.head e)))) = subst (Spares customer) (sym e) tt
spared a (Memᴰ.tail (Memᴰ.tail (Memᴰ.tail (Memᴰ.tail (Memᴰ.head e))))) =
    subst (Spares customer) (sym e) distinct
spared a (Memᴰ.tail (Memᴰ.tail (Memᴰ.tail (Memᴰ.tail (Memᴰ.tail at))))) = elim at [ ]

field-perform_all_example :
    field (perform_all ⦃S = steady⦄ config traffic busy).store (rate_limit_key customer) count_field
    ≡ field busy.store (rate_limit_key customer) count_field
field-perform_all_example =
    field-perform_all ⦃S = steady⦄ steady_counters steady_separation customer count_field config
      traffic busy spared
