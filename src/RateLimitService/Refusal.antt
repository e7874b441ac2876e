-- ===== src/RateLimitService/Refusal.antt =====
-- When the limiter refuses, and what a refusal tells the client.
use parallelis_distributed_e.Base.{
  ℕ, ◌≡◌, refl, ap, sym, ◌∙◌, Bool, true, false, Str, Result, ok, err, lt_int, arith, Bool-cases,
  inl, inr,
}
use parallelis_distributed_e.Model.{unix}
use parallelis_distributed_e.Services.{Services, World, now}
use parallelis_distributed_e.RateLimitService.{
  RateLimitService, rate_limit_key, count_field, reset_field, Bucket, idle, active, read_bucket,
  load_bucket, admit, is_allowed,
}

module _ ⦃S : Services⦄ where
  -- The replies to the two reads of a call, and the store after them.
  abbrev pub count_reply : Str → World → Result ℕ
  count_reply client_id w = (S.cache.hget_int (rate_limit_key client_id) count_field w.store).0

  abbrev pub after_count : Str → World → S.cache.Store
  after_count client_id w = (S.cache.hget_int (rate_limit_key client_id) count_field w.store).1

  abbrev pub reset_reply : Str → World → Result ℕ
  reset_reply client_id w =
      (S.cache.hget_int (rate_limit_key client_id) reset_field (after_count client_id w)).0

  abbrev pub after_reads : Str → World → S.cache.Store
  after_reads client_id w =
      (S.cache.hget_int (rate_limit_key client_id) reset_field (after_count client_id w)).1

  -- A refusal.
  pub record Spent (s : RateLimitService) (client_id : Str) (w : World) : Type 0 where
    pub on : s.enabled ≡ true
    pub count : ℕ
    pub reset : ℕ
    pub counted : count_reply client_id w ≡ ok count
    pub timed : reset_reply client_id w ≡ ok reset
    pub live : lt_int (unix (w.clock 0)) reset ≡ true
    pub full : lt_int count s.max_requests ≡ false
    pub unwritten : (is_allowed s client_id w).1.store ≡ after_reads client_id w

  admitted :
      (s : RateLimitService) (key : Str) (at : ℕ) (b : Bucket) (w : World)
      → (admit s key at b w).0 ≡ false
      → (count : ℕ) × (reset : ℕ) × (b ≡ active count reset)
        × (lt_int count s.max_requests ≡ false)
        × ((admit s key at b w).1.store ≡ w.store)
  unfolding admit
  admitted s key at idle w e = cc
  admitted s key at (active count reset) w e = (count, reset, refl, ground arith, ground arith)

  pub was_active :
      (at count reset : ℕ) (x y : Result ℕ)
      → read_bucket at x y ≡ active count reset
      → (x ≡ ok count) × (y ≡ ok reset) × (lt_int at reset ≡ true)
  unfolding read_bucket
  was_active at count reset (ok c) (ok r) e = ground arith
  was_active at count reset (ok c) (err m) e = cc
  was_active at count reset (err m) y e = cc

  is_allowed_on :
      (s : RateLimitService) (client_id : Str) (w : World)
      → s.enabled ≡ true
      → let (bucket, v) = load_bucket (unix (w.clock 0)) (rate_limit_key client_id) (now w).1 in
        is_allowed s client_id w ≡ admit s (rate_limit_key client_id) (unix (w.clock 0)) bucket v
  unfolding is_allowed
  is_allowed_on s client_id w on = simp on

  is_allowed_off :
      (s : RateLimitService) (client_id : Str) (w : World)
      → s.enabled ≡ false
      → (is_allowed s client_id w).0 ≡ true
  unfolding is_allowed
  is_allowed_off s client_id w off = simp off

  -- A request is refused only by an enabled limiter, and only if Redis answered both reads, the
  -- clock is before the reset time and the count is not below the limit; the call has then written
  -- nothing. In particular every failure of Redis lets the request through.
  pub is_allowed-Spent :
      (s : RateLimitService) (client_id : Str) (w : World)
      → (is_allowed s client_id w).0 ≡ false
      → Spent s client_id w
  unfolding load_bucket
  is_allowed-Spent s client_id w refused = elim (Bool-cases s.enabled) [
    | inr off ↦ cc (refused, is_allowed_off s client_id w off)
    | inl on ↦
        let at = unix (w.clock 0) in
        let key = rate_limit_key client_id in
        let (bucket, v) = load_bucket at key (now w).1 in
        let call = is_allowed_on s client_id w on in
        let (count, reset, b, full, same) =
          admitted s key at bucket v (sym (ap (λ (r : Bool × World). r.0) call) ∙ refused) in
        let (counted, timed, live) =
          was_active at count reset (count_reply client_id w) (reset_reply client_id w) b in
        record {
          on = on;
          count = count;
          reset = reset;
          counted = counted;
          timed = timed;
          live = live;
          full = full;
          unwritten = ap (λ (r : Bool × World). r.1.store) call ∙ same;
        }
  ]
