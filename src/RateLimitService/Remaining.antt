-- ===== src/RateLimitService/Remaining.antt =====
-- `GetRemainingRequests` says how many requests `IsAllowed` will let through.
use Prim.Native.Nat.{min}
use parallelis_distributed_e.Base.{
  ℕ, zero, suc, ◌+◌, ◌-◌, ◌<◌, ◌≤◌, ◌≡◌, refl, ◌∙◌, true, Str, lt_int, add_int, sub_int, sign_bit,
  arith, ◌⊎◌, inl, inr,
}
use parallelis_distributed_e.Model.{unix}
use parallelis_distributed_e.Services.{Services, World, CounterLaws, now}
use parallelis_distributed_e.RateLimitService.{
  RateLimitService, count_field, reset_field, active, remaining, load_bucket,
  get_remaining_requests,
}
use parallelis_distributed_e.RateLimitService.Quota.{
  allowed_count, Holds, Lapsed, key, longest_window, load_bucket_lem, load_bucket_idle,
  active_quota, window_quota,
}

-- The signed subtraction, cut off at 0.
remaining-active :
    (s : RateLimitService) (count reset : ℕ)
    → s.max_requests < sign_bit
    → count < sign_bit
    → remaining s (active count reset) ≡ s.max_requests - count
unfolding remaining sub_int lt_int
remaining-active s count reset small counted = ground arith

module _ ⦃S : Services⦄ (counters : CounterLaws S.cache) (s : RateLimitService)
    (client_id : Str) where
  open counters use {field}

  abbrev Held : World → ℕ → ℕ → Type 0
  Held = Holds counters s client_id

  abbrev Over : World → ℕ → Type 0
  Over = Lapsed counters s client_id

  abbrev loaded : World → World
  loaded w = (load_bucket (unix (w.clock 0)) (key counters s client_id) (now w).1).1

  get_remaining_active :
      (count reset : ℕ) (w : World)
      → s.enabled ≡ true
      → Held w count reset
      → lt_int (unix (w.clock 0)) reset ≡ true
      → ((get_remaining_requests s client_id w).0 ≡ remaining s (active count reset))
        × ((get_remaining_requests s client_id w).1 ≡ loaded w)
        × Held (loaded w) count reset
        × ((loaded w).clock ≡ λ i. w.clock (suc i))
  unfolding get_remaining_requests load_bucket
  get_remaining_active count reset w on h live =
      let (same, held) =
        load_bucket_lem counters s client_id (unix (w.clock 0)) count reset (now w).1
          (record { counted = h.counted; timed = h.timed }) live in
      simp (on, same) (refl, refl, held, refl)

  loaded-Held : (count reset : ℕ) (w : World) → Held w count reset → Held (loaded w) count reset
  unfolding load_bucket
  loaded-Held count reset w h = record {
    counted =
        counters.field-hget _ reset_field _ count_field _
        ∙ counters.field-hget _ count_field _ count_field w.store
        ∙ h.counted;
    timed =
        counters.field-hget _ reset_field _ reset_field _
        ∙ counters.field-hget _ count_field _ reset_field w.store
        ∙ h.timed;
  }

  loaded-Over : (at : ℕ) (w : World) → Over w at → Over (loaded w) at
  unfolding load_bucket
  loaded-Over at w (inl missing) = inl (
      counters.field-hget _ reset_field _ count_field _
      ∙ counters.field-hget _ count_field _ count_field w.store
      ∙ missing)
  loaded-Over at w (inr (count, reset, h, over)) =
      inr (count, reset, loaded-Held count reset w h, over)

  now-Over : (w : World) (at : ℕ) → Over w at → Over (now w).1 at
  now-Over w at (inl missing) = inl missing
  now-Over w at (inr (count, reset, h, over)) =
      inr (count, reset, record { counted = h.counted; timed = h.timed }, over)

  get_remaining_idle :
      (w : World)
      → s.enabled ≡ true
      → Over w (unix (w.clock 0))
      → ((get_remaining_requests s client_id w).0 ≡ s.max_requests)
        × ((get_remaining_requests s client_id w).1 ≡ loaded w)
        × ((loaded w).clock ≡ λ i. w.clock (suc i))
  unfolding get_remaining_requests load_bucket remaining
  get_remaining_idle w on over =
      let same =
        load_bucket_idle counters s client_id (unix (w.clock 0)) (now w).1 (now-Over w _ over) in
      simp (on, same) (refl, refl, refl)

  active_promised :
      (n count reset : ℕ) (w : World)
      → s.enabled ≡ true
      → s.max_requests < sign_bit
      → count + n < sign_bit
      → Held w count reset
      → ((i : ℕ) → lt_int (unix (w.clock i)) reset ≡ true)
      → allowed_count s client_id n (get_remaining_requests s client_id w).1
        ≡ min n (get_remaining_requests s client_id w).0
  active_promised n count reset w on m c h live =
      let (number, world, held, clock) = get_remaining_active count reset w on h (live 0) in
      rw (number, world, remaining-active s count reset m (omega arith))
        (active_quota counters s client_id n count reset (loaded w) on m c held
          (λ i. rw clock (live (suc i))))

  first_passes : (n m : ℕ) → 1 ≤ m → 1 + min n (m - 1) ≡ min (suc n) m
  first_passes n m h = omega arith

  idle_promised :
      (n : ℕ) (w : World)
      → s.enabled ≡ true
      → s.max_requests < sign_bit
      → 1 ≤ s.max_requests
      → s.window_seconds ≤ longest_window
      → n < sign_bit
      → Over w (unix (w.clock 0))
      → Over w (unix (w.clock 1))
      → ((i : ℕ)
          → lt_int (unix (w.clock (suc (suc i)))) (add_int (unix (w.clock 1)) s.window_seconds)
            ≡ true)
      → allowed_count s client_id n (get_remaining_requests s client_id w).1
        ≡ min n (get_remaining_requests s client_id w).0
  unfolding allowed_count load_bucket
  idle_promised zero w on m one short c over next live = omega arith
  idle_promised (suc n) w on m one short c over next live =
      let (number, world, clock) = get_remaining_idle w on over in
      rw (number, world)
        (window_quota counters s client_id n (loaded w) on m short (omega arith)
            (loaded-Over _ w next) live
          ∙ first_passes n s.max_requests one)

  -- While Redis is up, for an enabled limiter with a limit and counts below 2 ^ 63, and whether the
  -- client's bucket holds a count and every reading of the clock is before its reset time, or the
  -- limit is not 0, the window at most 9223372026 seconds and, at the first two readings, no count
  -- is kept or its window is over, and the others are within the window that starts at the second: of any number of requests in a row after `GetRemainingRequests`
  -- exactly as many pass as it said, as far as there are requests.
  pub remaining_promised :
      (n : ℕ) (w : World)
      → s.enabled ≡ true
      → s.max_requests < sign_bit
      → n < sign_bit
      → ((count : ℕ) × (reset : ℕ) × (count + n < sign_bit)
          × Holds counters s client_id w count reset
          × ((i : ℕ) → lt_int (unix (w.clock i)) reset ≡ true))
        ⊎ ((1 ≤ s.max_requests)
            × (s.window_seconds ≤ longest_window)
            × Lapsed counters s client_id w (unix (w.clock 0))
            × Lapsed counters s client_id w (unix (w.clock 1))
            × ((i : ℕ)
                → lt_int
                    (unix (w.clock (suc (suc i))))
                    (add_int (unix (w.clock 1)) s.window_seconds)
                  ≡ true))
      → allowed_count s client_id n (get_remaining_requests s client_id w).1
        ≡ min n (get_remaining_requests s client_id w).0
  remaining_promised n w on m c (inl (count, reset, sum, h, live)) =
      active_promised n count reset w on m sum h live
  remaining_promised n w on m c (inr (one, short, over, next, live)) =
      idle_promised n w on m one short c over next live
