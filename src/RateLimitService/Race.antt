-- ===== src/RateLimitService/Race.antt =====
-- Requests of one client whose reads of the bucket all come before the first of their writes.
use parallelis_distributed_e.Base.{
  ℕ, length, ◌+◌, ◌<◌, ◌≡◌, refl, ap, ◌∙◌, true, some, List, [], ◌∷◌, Str, lt_int, sign_bit,
  if◌then◌else◌, arith,
}
use parallelis_distributed_e.Services.{Services, World, CounterLaws}
use parallelis_distributed_e.RateLimitService.{
  RateLimitService, rate_limit_key, count_field, Bucket, active, load_bucket, admit,
}
use parallelis_distributed_e.RateLimitService.Quota.{Holds, load_bucket_lem}

module _ ⦃S : Services⦄ where
  -- `IsAllowed` up to its reads, for requests at these Unix times, one after the other; and the rest
  -- of it for these requests, and how many pass.
  unfoldable pub read_all : Str → List ℕ → World → List (ℕ × Bucket) × World
  read_all key [] w = ([], w)
  read_all key (at ∷ ats) w =
      let (bucket, u) = load_bucket at key w in
      let (rest, v) = read_all key ats u in ((at, bucket) ∷ rest, v)

  unfoldable pub admit_all : RateLimitService → Str → List (ℕ × Bucket) → World → ℕ × World
  admit_all s key [] w = (0, w)
  admit_all s key ((at, bucket) ∷ rest) w =
      let (passed, u) = admit s key at bucket w in
      let (others, v) = admit_all s key rest u in ((if passed then 1 else 0) + others, v)

module _ ⦃S : Services⦄ (counters : CounterLaws S.cache) (s : RateLimitService)
    (client_id : Str) where
  open counters use {field}

  abbrev key : Str
  key = rate_limit_key client_id

  -- Each of these times is before the reset time.
  abbrev pub AllBefore : ℕ → List ℕ → Type 0
  AllBefore reset [] = Unit
  AllBefore reset (at ∷ ats) = (lt_int at reset ≡ true) × AllBefore reset ats

  -- All have seen the same bucket.
  abbrev seen_by : ℕ → ℕ → List ℕ → List (ℕ × Bucket)
  seen_by count reset [] = []
  seen_by count reset (at ∷ ats) = (at, active count reset) ∷ seen_by count reset ats

  read_all_lem :
      (ats : List ℕ) (count reset : ℕ) (w : World)
      → Holds counters s client_id w count reset
      → AllBefore reset ats
      → ((read_all key ats w).0 ≡ seen_by count reset ats)
        × Holds counters s client_id (read_all key ats w).1 count reset
  unfolding read_all
  read_all_lem [] count reset w h live = (refl, h)
  read_all_lem (at ∷ ats) count reset w h (live, others) =
      let (one, kept) = load_bucket_lem counters s client_id at count reset w h live in
      let (rest, held) = read_all_lem ats count reset (load_bucket at key w).1 kept others in
      (rw (one, rest) refl, held)

  admit_counts :
      (at seen reset count : ℕ) (w : World)
      → lt_int seen s.max_requests ≡ true
      → count + 1 < sign_bit
      → field w.store key count_field ≡ some count
      → ((admit s key at (active seen reset) w).0 ≡ true)
        × (field (admit s key at (active seen reset) w).1.store key count_field ≡ some (count + 1))
  unfolding admit
  admit_counts at seen reset count w under fits held =
      simp under (refl, counters.field-hincr_by key count_field 1 count w.store held fits)

  admit_all_lem :
      (ats : List ℕ) (seen reset count : ℕ) (w : World)
      → lt_int seen s.max_requests ≡ true
      → count + length ats < sign_bit
      → field w.store key count_field ≡ some count
      → ((admit_all s key (seen_by seen reset ats) w).0 ≡ length ats)
        × (field (admit_all s key (seen_by seen reset ats) w).1.store key count_field
            ≡ some (count + length ats))
  unfolding admit_all
  admit_all_lem [] seen reset count w under fits held = (refl, held ∙ ap some (omega arith))
  admit_all_lem (at ∷ ats) seen reset count w under fits held =
      let (passed, counted) = admit_counts at seen reset count w under (omega arith) held in
      let (all, final) = admit_all_lem ats seen reset (count + 1) _ under (omega arith) counted in
      (rw (passed, all) (omega arith), final ∙ ap some (omega arith))

  -- While Redis is up: let the client's bucket hold a count below the limit, and let any number of
  -- requests of the client, before its reset time, all make their reads before the first of them
  -- writes. Then all of them pass, however many there are, and the count grows by their number, past
  -- the limit if they are more than were left (for counts below 2 ^ 63).
  pub racing_requests_pass :
      (ats : List ℕ) (count reset : ℕ) (w : World)
      → Holds counters s client_id w count reset
      → AllBefore reset ats
      → lt_int count s.max_requests ≡ true
      → count + length ats < sign_bit
      → let (buckets, u) = read_all (rate_limit_key client_id) ats w in
        let (passed, v) = admit_all s (rate_limit_key client_id) buckets u in
        (passed ≡ length ats)
        × (field v.store (rate_limit_key client_id) count_field ≡ some (count + length ats))
  racing_requests_pass ats count reset w h live under fits =
      let (seen, held) = read_all_lem ats count reset w h live in
      rw seen (admit_all_lem ats count reset count (read_all key ats w).1 under fits held.counted)
