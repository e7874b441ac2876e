-- ===== src/Metrics/Calls.antt =====
-- Requests that are recorded at the same time: goroutines in any order, one atomic step at a time.
use parallelis_distributed_e.Base.{
  ℕ, zero, suc, ◌+◌, ◌%◌, ◌≡◌, Option, none, some, List, [], ◌∷◌, Str, str_eq, value_of, word_mod,
  if◌then◌else◌,
}
use parallelis_distributed_e.Model.{Duration}
use parallelis_distributed_e.Metrics.{
  Metrics, microseconds, Tick, tick, Stage, started, registered, counted, summed, finished, Call,
  advance, record_http_request,
}

-- The calls so far, each with its stage, and the metrics.
pub record Process : Type 0 where
  pub calls : List Call
  pub metrics : Metrics

-- A call begins; the call at a position makes its next step; another counter changes.
pub data Event : Type 0 where
  begin : (method path : Str) (status : ℕ) → Duration → Event
  move : ℕ → Event
  other : Tick → Event

-- The call at a position makes a step.
unfoldable pub front : List Call → Option (Call × Metrics) → Option Process
front cs none = none
front cs (some (c, m)) = some (record { calls = c ∷ cs; metrics = m })

unfoldable pub behind : Call → Option Process → Option Process
behind c none = none
behind c (some p) = some (record p { calls = c ∷ p.calls })

unfoldable pub advance_at : ℕ → List Call → Metrics → Option Process
unfolding front behind
advance_at i [] m = some (record { calls = []; metrics = m })
advance_at zero (c ∷ cs) m = front cs (advance c m)
advance_at (suc i) (c ∷ cs) m = behind c (advance_at i cs m)

unfoldable pub occur : Event → Process → Option Process
occur (begin method path status d) p =
    some (record p { calls = record_http_request method path status d ∷ p.calls })
occur (move i) p = advance_at i p.calls p.metrics
occur (other t) p = some (record p { metrics = tick t p.metrics })

unfoldable pub and_then : Option Process → (Process → Option Process) → Option Process
and_then none f = none
and_then (some p) f = f p

-- `none` if one of the events makes the process panic.
unfoldable pub run : List Event → Process → Option Process
run [] p = some p
run (e ∷ es) p = and_then (occur e p) (run es)

-- What calls have contributed to the counters of a key.
pub record Weights : Type 0 where
  pub entered : ℕ
  pub requests : ℕ
  pub micros : ℕ
  pub latencies : ℕ

abbrev pub nothing : Weights
nothing = record { entered = 0; requests = 0; micros = 0; latencies = 0 }

abbrev pub contribution : Stage → ℕ → Weights
contribution started d = nothing
contribution registered d = record { entered = 1; requests = 0; micros = 0; latencies = 0 }
contribution counted d = record { entered = 1; requests = 1; micros = 0; latencies = 0 }
contribution summed d = record { entered = 1; requests = 1; micros = d; latencies = 0 }
contribution finished d = record { entered = 1; requests = 1; micros = d; latencies = 1 }

abbrev pub weight_at : Stage → Call → Str → Weights
weight_at s c k = if str_eq c.key k then contribution s (microseconds c.duration) else nothing

abbrev pub plus : Weights → Weights → Weights
plus a b = record {
  entered = a.entered + b.entered;
  requests = a.requests + b.requests;
  micros = a.micros + b.micros;
  latencies = a.latencies + b.latencies;
}

unfoldable pub tally : Str → List Call → Weights
tally k [] = nothing
tally k (c ∷ cs) = plus (weight_at c.stage c k) (tally k cs)

-- The counters of a key hold what the calls have contributed, modulo 2 ^ 64; or the key has none
-- and no call has contributed.
pub data Cell (w : Weights) (m : Metrics) (k : Str) : Type 0 where
  absent :
      w.entered ≡ 0
      → w.requests ≡ 0
      → w.micros ≡ 0
      → w.latencies ≡ 0
      → value_of m.http_requests_total k ≡ none
      → Cell w m k
  present :
      value_of m.http_requests_total k ≡ some (w.requests % word_mod)
      → value_of m.http_latency_sum k ≡ some (w.micros % word_mod)
      → value_of m.http_latency_count k ≡ some (w.latencies % word_mod)
      → Cell w m k
