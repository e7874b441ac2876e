-- ===== src/RateLimitService/Isolation.antt =====
-- The requests of other clients leave a client's bucket alone.
use parallelis_distributed_e.Base.{
  ℕ, ◌≡◌, ◌≢◌, refl, ◌∙◌, false, some, Option-cases, Bool-cases, inl, inr, List, [], ◌∷◌, Memᴰ, Str,
  bytes, ok, str_eq, str_eq→eq, append-cancel_left, lt_int,
}
use parallelis_distributed_e.Model.{unix}
use parallelis_distributed_e.Services.{Services, World, CounterLaws, now}
use parallelis_distributed_e.RateLimitService.{
  RateLimitService, rate_limit_key, count_field, reset_field, Bucket, idle, active, start_commands,
  load_bucket, admit, is_allowed,
}
use parallelis_distributed_e.RateLimitService.Refusal.{was_active}

pub str_eq-apart : (a b : Str) → a ≢ b → str_eq a b ≡ false
str_eq-apart a b h = elim (Bool-cases (str_eq a b)) [
  | inl same ↦ absurd (h (str_eq→eq a b same))
  | inr apart ↦ apart
]

pub rate_limit_key-apart :
    (a b : Str) → a ≢ b → str_eq (rate_limit_key a) (rate_limit_key b) ≡ false
unfolding rate_limit_key
rate_limit_key-apart a b h =
    str_eq-apart _ _ (λ e. h (append-cancel_left (bytes "rate_limit:") a b e))

module _ ⦃S : Services⦄ where
  -- Requests of clients, in the order of the list.
  unfoldable requests : RateLimitService → List Str → World → World
  requests s [] w = w
  requests s (client_id ∷ rest) w = requests s rest (is_allowed s client_id w).1

module _ ⦃S : Services⦄ (counters : CounterLaws S.cache) (s : RateLimitService) where
  open counters use {field}

  counted_field :
      (k f : Str) (n : ℕ) (t : S.cache.Store)
      → (S.cache.hget_int k f t).0 ≡ ok n
      → (m : ℕ) × (field t k f ≡ some m)
  counted_field k f n t answered = elim (Option-cases (field t k f)) [
    | inl missing ↦ let (e, failed) = counters.hget_missing k f t missing in cc
    | inr held ↦ held
  ]

  pub field-load_bucket :
      (at : ℕ) (key l g : Str) (w : World)
      → field (load_bucket at key w).1.store l g ≡ field w.store l g
  unfolding load_bucket
  field-load_bucket at key l g w =
      counters.field-hget key reset_field l g _ ∙ counters.field-hget key count_field l g w.store

  field-admit :
      (at : ℕ) (key l g : Str) (b : Bucket) (w : World)
      → str_eq key l ≡ false
      → ((count reset : ℕ)
          → b ≡ active count reset
          → (m : ℕ) × (field w.store key count_field ≡ some m))
      → field (admit s key at b w).1.store l g ≡ field w.store l g
  unfolding admit start_commands
  field-admit at key l g idle w apart held =
      counters.field-exec (start_commands s key at) l g w.store ∙ rw apart refl
  field-admit at key l g (active count reset) w apart held =
      elim (Bool-cases (lt_int count s.max_requests)) [
        | inl under ↦
            let (m, present) = held count reset refl in
            rw under (counters.field-hincr_by_other key count_field l g 1 w.store (rw apart refl))
        | inr full ↦ rw full refl
      ]

  bucket_field :
      (at : ℕ) (key : Str) (w : World) (count reset : ℕ)
      → (load_bucket at key w).0 ≡ active count reset
      → (m : ℕ) × (field (load_bucket at key w).1.store key count_field ≡ some m)
  unfolding load_bucket
  bucket_field at key w count reset e =
      let (answered, _, _) = was_active at count reset _ _ e in
      let (m, present) = counted_field key count_field count w.store answered in
      (m, field-load_bucket at key key count_field w ∙ present)

  pub field-is_allowed :
      (a b g : Str) (w : World)
      → a ≢ b
      → field (is_allowed s a w).1.store (rate_limit_key b) g ≡ field w.store (rate_limit_key b) g
  unfolding is_allowed
  field-is_allowed a b g w other = elim (Bool-cases s.enabled) [
    | inl on ↦
        let at = unix (w.clock 0) in
        let key = rate_limit_key a in
        simp on (
          field-admit at key (rate_limit_key b) g (load_bucket at key (now w).1).0
            (load_bucket at key (now w).1).1 (rate_limit_key-apart a b other)
            (bucket_field at key (now w).1)
          ∙ field-load_bucket at key (rate_limit_key b) g (now w).1)
    | inr off ↦ simp off refl
  ]

  -- While Redis is up: requests of other clients, however many and in any order, leave the count and
  -- the reset time of a client as they were.
  field-requests :
      (b : Str) (clients : List Str) (g : Str) (w : World)
      → ((a : Str) → Memᴰ a clients → a ≢ b)
      → field (requests s clients w).store (rate_limit_key b) g ≡ field w.store (rate_limit_key b) g
  unfolding requests
  field-requests b [] g w others = refl
  field-requests b (a ∷ clients) g w others =
      field-requests b clients g (is_allowed s a w).1 (λ c m. others c (Memᴰ.tail m))
      ∙ field-is_allowed a b g w (others a (Memᴰ.head refl))
