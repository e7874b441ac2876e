-- ===== src/Metrics/Steps.antt =====
-- One step of a call, whatever the others have done.
use parallelis_distributed_e.Base.{
  ℕ, ◌+◌, ◌%◌, ◌≡◌, refl, ap, sym, subst, ◌∙◌, inl, inr, false, Bool-cases, some, Str, str_eq,
  str_eq→eq, str_eq_refl, put, value_of, value_of-put, value_of-put_self, add_int, word_mod,
  if◌then◌else◌, arith,
}
use parallelis_distributed_e.Metrics.{
  CounterMap, Metrics, microseconds, bumped, bump, with_counters, register, with_requests,
  with_sums, with_counts, Stage, started, registered, counted, summed, finished, Call, effect,
  next_stage,
}
use parallelis_distributed_e.Metrics.Calls.{
  Weights, nothing, contribution, weight_at, plus, Cell, absent, present,
}

-- The counters of all keys, for a call at a stage beside what the others have contributed.
abbrev pub Fits : (Str → Weights) → Stage → Call → Metrics → Type 0
Fits others s c m = (k : Str) → Cell (plus (weight_at s c k) (others k)) m k

pub same-Cell :
    (w : Weights) (m m' : Metrics) (k : Str)
    → value_of m'.http_requests_total k ≡ value_of m.http_requests_total k
    → value_of m'.http_latency_sum k ≡ value_of m.http_latency_sum k
    → value_of m'.http_latency_count k ≡ value_of m.http_latency_count k
    → Cell w m k
    → Cell w m' k
same-Cell w m m' k p q r (absent a b c d e) = absent a b c d (p ∙ e)
same-Cell w m m' k p q r (present a b c) = present (p ∙ a) (q ∙ b) (r ∙ c)

put_apart :
    (key : Str) (n : ℕ) (m : CounterMap) (k : Str)
    → str_eq key k ≡ false
    → value_of (put key n m) k ≡ value_of m k
put_apart key n m k apart = value_of-put key n m k ∙ rw apart refl

-- The key of the call.
own :
    (others : Str → Weights) (s : Stage) (c : Call) (m : Metrics)
    → Fits others s c m
    → Cell (plus (contribution s (microseconds c.duration)) (others c.key)) m c.key
own others s c m h =
    subst
      (λ b.
        Cell (plus (if b then contribution s (microseconds c.duration) else nothing) (others c.key))
          m c.key)
      (str_eq_refl c.key) (h c.key)

-- The other keys, and all of them again.
join :
    (others : Str → Weights) (s s' : Stage) (c : Call) (m m' : Metrics)
    → Fits others s c m
    → Cell (plus (contribution s' (microseconds c.duration)) (others c.key)) m' c.key
    → ((k : Str)
        → str_eq c.key k ≡ false
        → Cell (plus nothing (others k)) m k
        → Cell (plus nothing (others k)) m' k)
    → Fits others s' c m'
join others s s' c m m' h mine rest k = elim (Bool-cases (str_eq c.key k)) [
  | inl same ↦
      subst (λ x. Cell (plus (weight_at s' c x) (others x)) m' x) (str_eq→eq c.key k same)
        (subst
          (λ b.
            Cell
              (plus (if b then contribution s' (microseconds c.duration) else nothing)
                (others c.key))
              m' c.key)
          (sym (str_eq_refl c.key)) mine)
  | inr apart ↦
      subst
        (λ b.
          Cell (plus (if b then contribution s' (microseconds c.duration) else nothing) (others k))
            m' k)
        (sym apart)
        (rest k apart (
          subst
            (λ b.
              Cell
                (plus (if b then contribution s (microseconds c.duration) else nothing) (others k))
                m k)
            apart (h k)))
]

added : (a n : ℕ) → add_int (a % word_mod) n ≡ (n + a) % word_mod
unfolding add_int
added a n = omega arith

bump_lem :
    (key : Str) (n c : ℕ) (m : CounterMap)
    → value_of m key ≡ some c
    → bump key n m ≡ some (put key (add_int c n) m)
unfolding bump bumped
bump_lem key n c m e = rw e refl

-- A call at this stage makes its step, and the counters then fit its next stage.
abbrev pub Steps : (Str → Weights) → Stage → Call → Metrics → Type 0
Steps others s c m = (m' : Metrics) × (effect s c m ≡ some m') × Fits others (next_stage s) c m'

module _ (others : Str → Weights) (c : Call) (m : Metrics) where
  self_put : (n v : ℕ) (mp : CounterMap) → n ≡ v → value_of (put c.key n mp) c.key ≡ some v
  self_put n v mp e = value_of-put_self c.key n mp ∙ ap some e

  start_step : Fits others started c m → Steps others started c m
  unfolding effect next_stage register with_counters
  start_step h = (register c.key m, refl, go (own others started c m h))
    where
      go :
          Cell (plus nothing (others c.key)) m c.key
          → Fits others registered c (with_counters c.key m (value_of m.http_requests_total c.key))
      go (absent a b x d e) =
          subst (λ o. Fits others registered c (with_counters c.key m o)) (sym e)
            (join others started registered c m _ h
              (present (self_put 0 _ m.http_requests_total (omega arith))
                (self_put 0 _ m.http_latency_sum (omega arith))
                (self_put 0 _ m.http_latency_count (omega arith)))
              (λ k apart.
                same-Cell _ m _ k (put_apart c.key 0 m.http_requests_total k apart)
                  (put_apart c.key 0 m.http_latency_sum k apart)
                  (put_apart c.key 0 m.http_latency_count k apart)))
      go (present a b x) =
          subst (λ o. Fits others registered c (with_counters c.key m o)) (sym a)
            (join others started registered c m m h (present a b x) (λ k apart cell. cell))

  request_step : Fits others registered c m → Steps others registered c m
  unfolding effect next_stage with_requests
  request_step h = go (own others registered c m h)
    where
      go :
          Cell (plus (contribution registered (microseconds c.duration)) (others c.key)) m c.key
          → Steps others registered c m
      go (absent a b x d e) = absurd (omega arith)
      go (present a b x) =
          let total =
            put c.key (add_int ((others c.key).requests % word_mod) 1) m.http_requests_total in
          (
            record m { http_requests_total = total },
            ap (with_requests m)
                (bump_lem c.key 1 _ m.http_requests_total (a ∙ ap some (omega arith))),
            join others registered counted c m _ h
                (present (self_put _ _ m.http_requests_total (added _ 1)) b x)
                (λ k apart.
                  same-Cell _ m _ k (put_apart c.key _ m.http_requests_total k apart) refl refl),
          )

  sum_step : Fits others counted c m → Steps others counted c m
  unfolding effect next_stage with_sums
  sum_step h = go (own others counted c m h)
    where
      go :
          Cell (plus (contribution counted (microseconds c.duration)) (others c.key)) m c.key
          → Steps others counted c m
      go (absent a b x d e) = absurd (omega arith)
      go (present a b x) =
          let us = microseconds c.duration in
          let sums = put c.key (add_int ((others c.key).micros % word_mod) us) m.http_latency_sum in
          (
            record m { http_latency_sum = sums },
            ap (with_sums m) (bump_lem c.key us _ m.http_latency_sum (b ∙ ap some (omega arith))),
            join others counted summed c m _ h
                (present a (self_put _ _ m.http_latency_sum (added _ us)) x)
                (λ k apart.
                  same-Cell _ m _ k refl (put_apart c.key _ m.http_latency_sum k apart) refl),
          )

  count_step : Fits others summed c m → Steps others summed c m
  unfolding effect next_stage with_counts
  count_step h = go (own others summed c m h)
    where
      go :
          Cell (plus (contribution summed (microseconds c.duration)) (others c.key)) m c.key
          → Steps others summed c m
      go (absent a b x d e) = absurd (omega arith)
      go (present a b x) =
          let counts =
            put c.key (add_int ((others c.key).latencies % word_mod) 1) m.http_latency_count in
          (
            record m { http_latency_count = counts },
            ap (with_counts m)
                (bump_lem c.key 1 _ m.http_latency_count (x ∙ ap some (omega arith))),
            join others summed finished c m _ h
                (present a b (self_put _ _ m.http_latency_count (added _ 1)))
                (λ k apart.
                  same-Cell _ m _ k refl refl (put_apart c.key _ m.http_latency_count k apart)),
          )

  pub call-Steps : (s : Stage) → Fits others s c m → Steps others s c m
  unfolding effect next_stage
  call-Steps started h = start_step h
  call-Steps registered h = request_step h
  call-Steps counted h = sum_step h
  call-Steps summed h = count_step h
  call-Steps finished h = (m, refl, h)
