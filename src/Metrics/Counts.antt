-- ===== src/Metrics/Counts.antt =====
-- What the counters of HTTP requests show after any interleaving of requests.
use parallelis_distributed_e.Base.{
  ℕ, zero, suc, ◌≡◌, refl, ap, sym, subst, ◌∙◌, Option, some, List, [], ◌∷◌, map, Str, arith,
  value_of,
}
use parallelis_distributed_e.Metrics.{
  Metrics, app_metrics, tick, Tick, inc_jobs_created, inc_jobs_completed, inc_jobs_failed,
  inc_jobs_dead_lettered, inc_jobs_retried, inc_kafka_produced, inc_kafka_consumed,
  inc_kafka_produce_error, inc_cache_hit, inc_cache_miss, inc_rate_limit_rejection,
  inc_active_workers, dec_active_workers, add_processing_time, count_processing_time, started,
  finished, Call, next_stage, stepped, advance, record_http_request,
}
use parallelis_distributed_e.Metrics.Calls.{
  Process, Event, begin, move, other, front, behind, advance_at, occur, and_then, run, Weights,
  nothing, weight_at, plus, tally, Cell, absent,
}
use parallelis_distributed_e.Metrics.Steps.{same-Cell, call-Steps}

plus_assoc : (a b c : Weights) → plus (plus a b) c ≡ plus a (plus b c)
plus_assoc a b c = ground arith

plus_swap : (a b c : Weights) → plus (plus a b) c ≡ plus b (plus a c)
plus_swap a b c = ground arith

plus-nothing : (a : Weights) → plus a nothing ≡ a
plus-nothing a = ground arith

tick_keeps :
    (t : Tick) (m : Metrics)
    → ((tick t m).http_requests_total ≡ m.http_requests_total)
      × ((tick t m).http_latency_sum ≡ m.http_latency_sum)
      × ((tick t m).http_latency_count ≡ m.http_latency_count)
unfolding tick
tick_keeps inc_jobs_created m = (refl, refl, refl)
tick_keeps inc_jobs_completed m = (refl, refl, refl)
tick_keeps inc_jobs_failed m = (refl, refl, refl)
tick_keeps inc_jobs_dead_lettered m = (refl, refl, refl)
tick_keeps inc_jobs_retried m = (refl, refl, refl)
tick_keeps inc_kafka_produced m = (refl, refl, refl)
tick_keeps inc_kafka_consumed m = (refl, refl, refl)
tick_keeps inc_kafka_produce_error m = (refl, refl, refl)
tick_keeps inc_cache_hit m = (refl, refl, refl)
tick_keeps inc_cache_miss m = (refl, refl, refl)
tick_keeps inc_rate_limit_rejection m = (refl, refl, refl)
tick_keeps inc_active_workers m = (refl, refl, refl)
tick_keeps dec_active_workers m = (refl, refl, refl)
tick_keeps (add_processing_time d) m = (refl, refl, refl)
tick_keeps (count_processing_time d) m = (refl, refl, refl)

-- The counters fit some calls beside what others have contributed.
abbrev Counts : (Str → Weights) → Process → Type 0
Counts others p = (k : Str) → Cell (plus (tally k p.calls) (others k)) p.metrics k

-- `c`, at its end.
abbrev ended : Call → Call
ended c = record c { stage = finished }

-- What a step of a process gives: no panic, counters that fit, and the same calls but for stages.
abbrev Goes : (Str → Weights) → List Call → Option Process → Type 0
Goes others cs o =
    (p : Process) × (o ≡ some p) × Counts others p × (map ended p.calls ≡ map ended cs)

advance-Goes :
    (i : ℕ) (cs : List Call) (m : Metrics) (others : Str → Weights)
    → Counts others (record { calls = cs; metrics = m })
    → Goes others cs (advance_at i cs m)
unfolding advance_at front behind advance stepped tally
advance-Goes i [] m others h = (record { calls = []; metrics = m }, refl, h, refl)
advance-Goes zero (c ∷ cs) m others h =
    let (m', e, fits) =
      call-Steps (λ k. plus (tally k cs) (others k)) c m c.stage
        (λ k. subst (λ w. Cell w m k) (plus_assoc _ _ _) (h k)) in
    (
      record { calls = record c { stage = next_stage c.stage } ∷ cs; metrics = m' },
      ap (λ o. front cs (stepped c o)) e,
      λ k. subst (λ w. Cell w m' k) (sym (plus_assoc _ _ _)) (fits k),
      refl,
    )
advance-Goes (suc i) (c ∷ cs) m others h =
    let (p, e, fits, same) =
      advance-Goes i cs m (λ k. plus (weight_at c.stage c k) (others k))
        (λ k. subst (λ w. Cell w m k) (plus_swap _ _ _) (h k)) in
    (
      record p { calls = c ∷ p.calls },
      ap (behind c) e,
      λ k. subst (λ w. Cell w p.metrics k) (sym (plus_swap _ _ _)) (fits k),
      ap (λ l. ended c ∷ l) same,
    )

none_yet : Str → Weights
none_yet k = nothing

-- The calls that an event begins, as they end, in front of those before.
unfoldable pub begun : List Event → List Call → List Call
begun [] before = before
begun (begin method path status d ∷ es) before =
    begun es (ended (record_http_request method path status d) ∷ before)
begun (move i ∷ es) before = begun es before
begun (other t ∷ es) before = begun es before

occur_goes :
    (e : Event) (p : Process)
    → Counts none_yet p
    → (q : Process) × (occur e p ≡ some q)
      × Counts none_yet q
      × ((es : List Event) → begun (e ∷ es) (map ended p.calls) ≡ begun es (map ended q.calls))
unfolding occur begun tally record_http_request none_yet
occur_goes (begin method path status d) p h = (
  record p { calls = record_http_request method path status d ∷ p.calls },
  refl,
  λ k. subst (λ w. Cell w p.metrics k) (unstarted k) (h k),
  λ es. refl,
)
  where
    unstarted :
        (k : Str)
        → plus (tally k p.calls) nothing
          ≡ plus
              (plus
                (weight_at started (record_http_request method path status d) k)
                (tally k p.calls))
              nothing
    unstarted k = ground arith
occur_goes (move i) p h =
    let (q, e, fits, same) = advance-Goes i p.calls p.metrics none_yet h in
    (q, e, fits, λ es. ap (begun es) (sym same))
occur_goes (other t) p h =
    let (a, b, c) = tick_keeps t p.metrics in
    (
      record p { metrics = tick t p.metrics },
      refl,
      λ k.
          same-Cell _ p.metrics (tick t p.metrics) k (ap (λ x. value_of x k) a)
            (ap (λ x. value_of x k) b) (ap (λ x. value_of x k) c) (h k),
      λ es. refl,
    )

run_goes :
    (es : List Event) (p : Process)
    → Counts none_yet p
    → (q : Process) × (run es p ≡ some q)
      × Counts none_yet q
      × (begun es (map ended p.calls) ≡ map ended q.calls)
unfolding run and_then begun
run_goes [] p h = (p, refl, h, refl)
run_goes (e ∷ es) p h =
    let (q, happened, fits, same) = occur_goes e p h in
    let (r, ran, good, all) = run_goes es q fits in
    (r, ap (λ o. and_then o (run es)) happened ∙ ran, good, same es ∙ all)

-- The process at its start.
abbrev pub fresh : Process
fresh = record { calls = []; metrics = app_metrics }

fresh-Counts : Counts none_yet fresh
unfolding tally none_yet value_of
fresh-Counts k = absent refl refl refl refl refl

-- No order of the steps of requests that are recorded at the same time, with other counters changed
-- in between, makes the process panic; and at any time the counters of a key hold what the calls
-- have contributed so far, modulo 2 ^ 64: the requests counted, the microseconds and the latencies
-- counted, or the key has no counters in the first map and no call has contributed.
pub run_counts :
    (es : List Event)
    → (p : Process) × (run es fresh ≡ some p) × ((k : Str) → Cell (tally k p.calls) p.metrics k)
unfolding none_yet
run_counts es =
    let (p, ran, fits, same) = run_goes es fresh fresh-Counts in
    (p, ran, λ k. subst (λ w. Cell w p.metrics k) (plus-nothing _) (fits k))

-- Every call has ended.
abbrev pub AllEnded : List Call → Type 0
AllEnded [] = Unit
AllEnded (c ∷ cs) = (c.stage ≡ finished) × AllEnded cs

ended_calls : (cs : List Call) → AllEnded cs → map ended cs ≡ cs
ended_calls [] h = refl
ended_calls (c ∷ cs) (e, h) =
    let one : ended c ≡ c = ground (arith, e) in rw (one, ended_calls cs h)

-- If all the calls have ended after some events, in whatever order, then the counters of a key hold,
-- modulo 2 ^ 64, the number of the requests with that key, the sum of their microseconds and that
-- number again; or no such request was made and the first map has no counter for the key.
pub ended_counts :
    (es : List Event) (p : Process)
    → run es fresh ≡ some p
    → AllEnded p.calls
    → (k : Str) → Cell (tally k (begun es [])) p.metrics k
unfolding none_yet
ended_counts es p ran over k =
    let (q, ran', fits, same) = run_goes es fresh fresh-Counts in
    let e : q ≡ p = cc (ran, ran') in
    subst (λ x. AllEnded x.calls → Cell (tally k (begun es [])) x.metrics k) e
      (λ all.
        subst (λ l. Cell (tally k l) q.metrics k) (sym (same ∙ ended_calls q.calls all))
          (subst (λ w. Cell w q.metrics k) (plus-nothing _) (fits k)))
      over
