-- ===== src/RateLimitService/Quota.antt =====
-- How many requests of one client the limiter lets through in a window, while Redis is up.
use Prim.Native.Nat.{min}
use parallelis_distributed_e.Base.{
  ℕ, zero, suc, ◌+◌, ◌-◌, ◌<◌, ◌≤◌, mul_int, ◌≡◌, refl, ap, ◌∙◌, Bool, true, false, some, none, Str,
  str_eq, str_eq_refl, ltb, lt_int, lt_int-small, add_int, sign_bit, if◌then◌else◌, arith, ◌⊎◌,
  Bool-cases, inl, inr,
}
use parallelis_distributed_e.Model.{unix, seconds}
use parallelis_distributed_e.Services.{Services, World, CounterLaws, now}
use parallelis_distributed_e.RateLimitService.{
  RateLimitService, rate_limit_key, count_field, reset_field, idle, active, read_bucket,
  start_commands, load_bucket, admit, is_allowed,
}

module _ ⦃S : Services⦄ where
  -- The requests let through out of so many in a row.
  unfoldable pub allowed_count : RateLimitService → Str → ℕ → World → ℕ
  allowed_count s client_id zero w = 0
  allowed_count s client_id (suc n) w =
      let (passed, w') = is_allowed s client_id w in
      (if passed then 1 else 0) + allowed_count s client_id n w'

-- A bucket of such a window, in seconds, gets a time to live that is positive: a longer one, with
-- the 10 seconds added, does not fit in a `time.Duration`.
abbrev pub longest_window : ℕ
longest_window = 9223372026

expiry_positive :
    (window : ℕ) → window ≤ longest_window → lt_int 0 (seconds (add_int window 10)) ≡ true
unfolding lt_int seconds mul_int add_int
expiry_positive window short = ground arith

module _ ⦃S : Services⦄ (counters : CounterLaws S.cache) (s : RateLimitService)
    (client_id : Str) where
  open counters use {field}

  abbrev pub key : Str
  key = rate_limit_key client_id

  -- The client's hash holds a count and a reset time.
  pub record Holds (w : World) (count reset : ℕ) : Type 0 where
    pub counted : field w.store key count_field ≡ some count
    pub timed : field w.store key reset_field ≡ some reset

  -- Loading reads them, and changes no field.
  pub load_bucket_lem :
      (at count reset : ℕ) (w : World)
      → Holds w count reset
      → lt_int at reset ≡ true
      → ((load_bucket at key w).0 ≡ active count reset) × Holds (load_bucket at key w).1 count reset
  unfolding load_bucket read_bucket
  load_bucket_lem at count reset w h live =
      let first = (S.cache.hget_int key count_field w.store).1 in
      let read_count = counters.hget_present key count_field count w.store h.counted in
      let read_reset =
        counters.hget_present key reset_field reset first
          (counters.field-hget key count_field key reset_field w.store ∙ h.timed) in
      (
        rw (read_count, read_reset, live) refl,
        record {
          counted =
              counters.field-hget key reset_field key count_field first
              ∙ counters.field-hget key count_field key count_field w.store
              ∙ h.counted;
          timed =
              counters.field-hget key reset_field key reset_field first
              ∙ counters.field-hget key count_field key reset_field w.store
              ∙ h.timed;
        },
      )

  -- Letting a request of a live bucket through, or not.
  admit_lem :
      (at count reset : ℕ) (w : World)
      → Holds w count reset
      → count + 1 < sign_bit
      → ((admit s key at (active count reset) w).0 ≡ lt_int count s.max_requests)
        × Holds
            (admit s key at (active count reset) w).1
            (if lt_int count s.max_requests then count + 1 else count)
            reset
        × ((admit s key at (active count reset) w).1.clock ≡ w.clock)
  unfolding admit str_eq
  admit_lem at count reset w h fits = elim (Bool-cases (lt_int count s.max_requests)) [
    | inl under ↦ simp under (
      refl,
      record {
        counted = counters.field-hincr_by key count_field 1 count w.store h.counted fits;
        timed =
            counters.field-hincr_by_other key count_field key reset_field 1 w.store
              (simp (str_eq_refl key))
            ∙ h.timed;
      },
      refl,
    )
    | inr over ↦ simp over (refl, h, refl)
  ]

  -- One request of a live bucket.
  is_allowed_active :
      (count reset : ℕ) (w : World)
      → s.enabled ≡ true
      → Holds w count reset
      → count + 1 < sign_bit
      → lt_int (unix (w.clock 0)) reset ≡ true
      → ((is_allowed s client_id w).0 ≡ lt_int count s.max_requests)
        × Holds
            (is_allowed s client_id w).1
            (if lt_int count s.max_requests then count + 1 else count)
            reset
        × ((is_allowed s client_id w).1.clock ≡ λ i. w.clock (suc i))
  unfolding is_allowed load_bucket
  is_allowed_active count reset w on h fits live =
      let at = unix (w.clock 0) in
      let (loaded, held) =
        load_bucket_lem at count reset (now w).1 (record { counted = h.counted; timed = h.timed })
          live in
      simp (on, loaded) (admit_lem at count reset (load_bucket at key (now w).1).1 held fits)

  quota_step :
      (passed : Bool) (c n rest m : ℕ)
      → passed ≡ ltb c m
      → rest ≡ min n (m - (if ltb c m then c + 1 else c))
      → (if passed then 1 else 0) + rest ≡ min (suc n) (m - c)
  quota_step passed c n rest m p q = ground arith

  -- Let the limiter be enabled and the client's bucket hold a count and a reset time, and let the clock be before that time at
  -- every reading. Of any number of requests in a row exactly as many pass as the count leaves of
  -- the limit, as far as there are requests (for a limit and counts below 2 ^ 63).
  pub active_quota :
      (n count reset : ℕ) (w : World)
      → s.enabled ≡ true
      → s.max_requests < sign_bit
      → count + n < sign_bit
      → Holds w count reset
      → ((i : ℕ) → lt_int (unix (w.clock i)) reset ≡ true)
      → allowed_count s client_id n w ≡ min n (s.max_requests - count)
  unfolding allowed_count
  active_quota zero count reset w on m c h live = omega arith
  active_quota (suc n) count reset w on m c h live =
      let (passed, held, clock) = is_allowed_active count reset w on h (omega arith) (live 0) in
      let test : lt_int count s.max_requests ≡ ltb count s.max_requests =
        lt_int-small count s.max_requests (omega arith) m in
      let held' : Holds (is_allowed s client_id w).1
          (if ltb count s.max_requests then count + 1 else count) reset =
        rw (← test) held in
      let later : (i : ℕ) → lt_int (unix ((is_allowed s client_id w).1.clock i)) reset ≡ true =
        λ i. rw clock (live (suc i)) in
      quota_step _ count n _ s.max_requests (passed ∙ test) (
        active_quota n (if ltb count s.max_requests then count + 1 else count) reset
          (is_allowed s client_id w).1 on m (ground arith) held' later)

  -- No count is kept for the client, or its window is over.
  abbrev pub Lapsed : World → ℕ → Type 0
  Lapsed w at =
      (field w.store key count_field ≡ none)
      ⊎ ((count : ℕ) × (reset : ℕ) × Holds w count reset × (lt_int at reset ≡ false))

  pub load_bucket_idle : (at : ℕ) (w : World) → Lapsed w at → (load_bucket at key w).0 ≡ idle
  unfolding load_bucket read_bucket
  load_bucket_idle at w (inl missing) =
      let (e, failed) = counters.hget_missing key count_field w.store missing in rw failed refl
  load_bucket_idle at w (inr (count, reset, h, over)) =
      let first = (S.cache.hget_int key count_field w.store).1 in
      let read_count = counters.hget_present key count_field count w.store h.counted in
      let read_reset =
        counters.hget_present key reset_field reset first
          (counters.field-hget key count_field key reset_field w.store ∙ h.timed) in
      rw (read_count, read_reset, over) refl

  -- A new bucket counts the request that opens it.
  admit_idle :
      (at : ℕ) (w : World)
      → s.window_seconds ≤ longest_window
      → ((admit s key at idle w).0 ≡ true)
        × Holds (admit s key at idle w).1 1 (add_int at s.window_seconds)
  unfolding admit start_commands str_eq
  admit_idle at w short = (
    refl,
    record {
      counted =
          counters.field-exec _ key count_field w.store
          ∙ simp (str_eq_refl key, expiry_positive s.window_seconds short);
      timed =
          counters.field-exec _ key reset_field w.store
          ∙ simp (str_eq_refl key, expiry_positive s.window_seconds short);
    },
  )

  now-Lapsed : (w : World) → Lapsed w (unix (w.clock 0)) → Lapsed (now w).1 (unix (w.clock 0))
  now-Lapsed w (inl missing) = inl missing
  now-Lapsed w (inr (count, reset, h, over)) =
      inr (count, reset, record { counted = h.counted; timed = h.timed }, over)

  is_allowed_idle :
      (w : World)
      → s.enabled ≡ true
      → s.window_seconds ≤ longest_window
      → Lapsed w (unix (w.clock 0))
      → ((is_allowed s client_id w).0 ≡ true)
        × Holds (is_allowed s client_id w).1 1 (add_int (unix (w.clock 0)) s.window_seconds)
        × ((is_allowed s client_id w).1.clock ≡ λ i. w.clock (suc i))
  unfolding is_allowed load_bucket admit
  is_allowed_idle w on short lapsed =
      let loaded = load_bucket_idle (unix (w.clock 0)) (now w).1 (now-Lapsed w lapsed) in
      let (passed, held) =
        admit_idle (unix (w.clock 0)) (load_bucket (unix (w.clock 0)) key (now w).1).1 short in
      simp (on, loaded) (passed, held, refl)

  -- Let the limiter be enabled, with a limit below 2 ^ 63 and a window of at most 9223372026 seconds.
  -- Let no count be kept for the client, or its window be over at the first of some requests in a
  -- row, fewer than 2 ^ 63, and let the clock be before the end of the new window at the readings of the others. Then
  -- the first request passes, and of the others as many as the limit leaves beside it: altogether
  -- no more than the limit, if it is at least 1, and one request if it is 0.
  pub window_quota :
      (n : ℕ) (w : World)
      → s.enabled ≡ true
      → s.max_requests < sign_bit
      → s.window_seconds ≤ longest_window
      → 1 + n < sign_bit
      → Lapsed w (unix (w.clock 0))
      → ((i : ℕ)
          → lt_int (unix (w.clock (suc i))) (add_int (unix (w.clock 0)) s.window_seconds) ≡ true)
      → allowed_count s client_id (suc n) w ≡ 1 + min n (s.max_requests - 1)
  unfolding allowed_count
  window_quota n w on m short c lapsed live =
      let (passed, held, clock) = is_allowed_idle w on short lapsed in
      let later : (i : ℕ)
          → lt_int (unix ((is_allowed s client_id w).1.clock i))
              (add_int (unix (w.clock 0)) s.window_seconds)
            ≡ true =
        λ i. rw clock (live i) in
      rw passed (
        ap (λ (k : ℕ). 1 + k)
          (active_quota n 1 (add_int (unix (w.clock 0)) s.window_seconds)
            (is_allowed s client_id w).1 on m c held later))
