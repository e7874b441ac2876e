-- ===== src/Examples/Quota.antt =====
-- A burst of requests.
use Prim.Native.Nat.{min}
use parallelis_distributed_e.Base.{
  ℕ, some, ◌+◌, ◌-◌, ◌≡◌, refl, inl, true, false, List, [], ◌∷◌, arith, lt_int, add_int, str_eq,
}
use parallelis_distributed_e.Model.{unix}
use parallelis_distributed_e.Services.{World}
use parallelis_distributed_e.Memory.{empty_world}
use parallelis_distributed_e.RateLimitService.{
  RateLimitService, rate_limit_key, count_field, reset_field, read_bucket, load_bucket, admit,
  is_allowed, get_remaining_requests,
}
use parallelis_distributed_e.RateLimitService.Quota.{
  allowed_count, Holds, active_quota, window_quota,
}
use parallelis_distributed_e.RateLimitService.Remaining.{remaining_promised}
use parallelis_distributed_e.RateLimitService.Refusal.{Spent, is_allowed-Spent}
use parallelis_distributed_e.RateLimitService.Race.{
  AllBefore, read_all, admit_all, racing_requests_pass,
}
use parallelis_distributed_e.Examples.Runs.{customer}
use parallelis_distributed_e.Examples.Variants.{steady, steady_counters}

abbrev three : RateLimitService
three = record { enabled = true; max_requests = 3; window_seconds = 60 }

abbrev pub quiet : World ⦃S = steady⦄
quiet = record {
  tables = empty_world.tables;
  store = empty_world.store;
  broker = empty_world.broker;
  clock = λ n. 63839664000000000000;
  fresh_ids = empty_world.fresh_ids;
}

within :
    (i : ℕ)
    → lt_int (unix (quiet.clock i)) (add_int (unix (quiet.clock 0)) three.window_seconds) ≡ true
unfolding lt_int unix add_int
within i = refl

window_quota_example : allowed_count ⦃S = steady⦄ three customer 5 quiet ≡ 1 + min 4 (3 - 1)
window_quota_example =
    window_quota ⦃S = steady⦄ steady_counters three customer 4 quiet refl (omega arith)
      (omega arith) (omega arith) (inl refl) within

-- Two of three requests are spent.
abbrev pub busy : World ⦃S = steady⦄
busy = record quiet {
  store = record {
    strings = [];
    hashes =
        (rate_limit_key customer, count_field, 2)
        ∷ (rate_limit_key customer, reset_field, 2000000000)
        ∷ [];
    texts = [];
    down = false;
  };
}

busy-Holds : Holds ⦃S = steady⦄ steady_counters three customer busy 2 2000000000
unfolding rate_limit_key str_eq
busy-Holds = record { counted = refl; timed = refl }

before_reset : (i : ℕ) → lt_int (unix (busy.clock i)) 2000000000 ≡ true
unfolding lt_int unix
before_reset i = refl

active_quota_example : allowed_count ⦃S = steady⦄ three customer 5 busy ≡ min 5 (3 - 2)
active_quota_example =
    active_quota ⦃S = steady⦄ steady_counters three customer 5 2 2000000000 busy refl (omega arith)
      (omega arith) busy-Holds before_reset

remaining_promised_example :
    let (r, w) = get_remaining_requests ⦃S = steady⦄ three customer busy in
    allowed_count ⦃S = steady⦄ three customer 5 w ≡ min 5 r
remaining_promised_example =
    remaining_promised ⦃S = steady⦄ steady_counters three customer 5 busy refl (omega arith)
      (omega arith) (inl (2, 2000000000, omega arith, busy-Holds, before_reset))

abbrev one : RateLimitService
one = record { enabled = true; max_requests = 1; window_seconds = 60 }

is_allowed-Spent_example : Spent ⦃S = steady⦄ one customer busy
unfolding is_allowed admit load_bucket read_bucket lt_int unix rate_limit_key str_eq
is_allowed-Spent_example = is_allowed-Spent ⦃S = steady⦄ one customer busy refl

-- Four requests that all read that two of three are spent.
abbrev four_times : List ℕ
four_times = 1900000000 ∷ 1900000000 ∷ 1900000001 ∷ 1900000002 ∷ []

all_before : AllBefore ⦃S = steady⦄ steady_counters three customer 2000000000 four_times
unfolding lt_int
all_before = (refl, (refl, (refl, (refl, tt))))

racing_requests_pass_example :
    let (buckets, u) = read_all ⦃S = steady⦄ (rate_limit_key customer) four_times busy in
    let (passed, v) = admit_all ⦃S = steady⦄ three (rate_limit_key customer) buckets u in
    (passed ≡ 4) × (steady_counters.field v.store (rate_limit_key customer) count_field ≡ some 6)
unfolding lt_int
racing_requests_pass_example =
    racing_requests_pass ⦃S = steady⦄ steady_counters three customer four_times 2 2000000000 busy
      busy-Holds all_before refl (omega arith)
