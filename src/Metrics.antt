-- ===== src/Metrics.antt =====
-- config/metrics.go: the counters of the process, and the report of them.
pub mod Calls
pub mod Steps
pub mod Counts
use parallelis_distributed_e.Base.{
  ℕ, ◌+◌, ◌-◌, ◌/◌, ◌%◌, ◌++◌, ltb, lt_int, Bool, Option, none, some, List, [], ◌∷◌, Str, bytes,
  put, value_of, add_int, word_mod, sign_bit, if◌then◌else◌,
}
use parallelis_distributed_e.Model.{Duration, Time, since}
use parallelis_distributed_e.Strconv.{format_int}

-- `map[string]*atomic.Int64`
abbrev pub CounterMap : Type 0
CounterMap = List (Str × ℕ)

-- `Metrics`; the mutex shows in which calls are one step.
pub record Metrics : Type 0 where
  pub http_requests_total : CounterMap
  pub http_latency_sum : CounterMap
  pub http_latency_count : CounterMap
  pub jobs_created : ℕ
  pub jobs_completed : ℕ
  pub jobs_failed : ℕ
  pub jobs_dead_lettered : ℕ
  pub jobs_retried : ℕ
  pub kafka_messages_produced : ℕ
  pub kafka_messages_consumed : ℕ
  pub kafka_produce_errors : ℕ
  pub cache_hits : ℕ
  pub cache_misses : ℕ
  pub rate_limit_rejections : ℕ
  pub active_workers : ℕ
  pub processing_time_sum : ℕ
  pub processing_time_count : ℕ

-- `appMetrics` at the start
abbrev pub app_metrics : Metrics
app_metrics = record {
  http_requests_total = [];
  http_latency_sum = [];
  http_latency_count = [];
  jobs_created = 0;
  jobs_completed = 0;
  jobs_failed = 0;
  jobs_dead_lettered = 0;
  jobs_retried = 0;
  kafka_messages_produced = 0;
  kafka_messages_consumed = 0;
  kafka_produce_errors = 0;
  cache_hits = 0;
  cache_misses = 0;
  rate_limit_rejections = 0;
  active_workers = 0;
  processing_time_sum = 0;
  processing_time_count = 0;
}

-- `d.Microseconds()`: a quotient of signed integers, cut to 0.
unfoldable pub microseconds : Duration → ℕ
microseconds d = if ltb d sign_bit then d / 1000 else (word_mod - (word_mod - d) / 1000) % word_mod

-- The counters that are not of HTTP requests, by the methods that add to them.
pub data Tick : Type 0 where
  inc_jobs_created inc_jobs_completed inc_jobs_failed inc_jobs_dead_lettered inc_jobs_retried : Tick
  inc_kafka_produced inc_kafka_consumed inc_kafka_produce_error : Tick
  inc_cache_hit inc_cache_miss inc_rate_limit_rejection : Tick
  inc_active_workers dec_active_workers : Tick
  add_processing_time count_processing_time : Duration → Tick

-- Each is one atomic addition; `RecordProcessingTime` makes the last two, one after the other.
unfoldable pub tick : Tick → Metrics → Metrics
tick inc_jobs_created m = record m { jobs_created = add_int m.jobs_created 1 }
tick inc_jobs_completed m = record m { jobs_completed = add_int m.jobs_completed 1 }
tick inc_jobs_failed m = record m { jobs_failed = add_int m.jobs_failed 1 }
tick inc_jobs_dead_lettered m = record m { jobs_dead_lettered = add_int m.jobs_dead_lettered 1 }
tick inc_jobs_retried m = record m { jobs_retried = add_int m.jobs_retried 1 }
tick inc_kafka_produced m = record m {
  kafka_messages_produced = add_int m.kafka_messages_produced 1;
}
tick inc_kafka_consumed m = record m {
  kafka_messages_consumed = add_int m.kafka_messages_consumed 1;
}
tick inc_kafka_produce_error m = record m {
  kafka_produce_errors = add_int m.kafka_produce_errors 1;
}
tick inc_cache_hit m = record m { cache_hits = add_int m.cache_hits 1 }
tick inc_cache_miss m = record m { cache_misses = add_int m.cache_misses 1 }
tick inc_rate_limit_rejection m = record m {
  rate_limit_rejections = add_int m.rate_limit_rejections 1;
}
tick inc_active_workers m = record m { active_workers = add_int m.active_workers 1 }
tick dec_active_workers m = record m { active_workers = add_int m.active_workers (word_mod - 1) }
tick (add_processing_time d) m = record m {
  processing_time_sum = add_int m.processing_time_sum (microseconds d);
}
tick (count_processing_time d) m = record m {
  processing_time_count = add_int m.processing_time_count 1;
}

-- `m[key].Add(n)`; `none` is the panic of a key that is not there.
unfoldable pub bumped : Str → ℕ → CounterMap → Option ℕ → Option CounterMap
bumped key n m none = none
bumped key n m (some c) = some (put key (add_int c n) m)

unfoldable pub bump : Str → ℕ → CounterMap → Option CounterMap
unfolding bumped
bump key n m = bumped key n m (value_of m key)

-- `RecordHTTPRequest` under its write lock: a key that is not in the first map gets counters.
unfoldable pub with_counters : Str → Metrics → Option ℕ → Metrics
with_counters key m (some c) = m
with_counters key m none = record m {
  http_requests_total = put key 0 m.http_requests_total;
  http_latency_sum = put key 0 m.http_latency_sum;
  http_latency_count = put key 0 m.http_latency_count;
}

unfoldable pub register : Str → Metrics → Metrics
register key m = with_counters key m (value_of m.http_requests_total key)

-- The metrics with one of the maps of requests, if the addition to it was made.
unfoldable pub with_requests : Metrics → Option CounterMap → Option Metrics
with_requests m none = none
with_requests m (some t) = some (record m { http_requests_total = t })

unfoldable pub with_sums : Metrics → Option CounterMap → Option Metrics
with_sums m none = none
with_sums m (some t) = some (record m { http_latency_sum = t })

unfoldable pub with_counts : Metrics → Option CounterMap → Option Metrics
with_counts m none = none
with_counts m (some t) = some (record m { http_latency_count = t })

-- How far a call of `RecordHTTPRequest` has come. Other calls may run between any two stages: the
-- second lock that it takes is shared, and an addition is atomic.
pub data Stage : Type 0 where
  started registered counted summed finished : Stage

pub record Call : Type 0 where
  pub key : Str
  pub duration : Duration
  pub stage : Stage

-- `method + " " + path + " " + strconv.Itoa(status)`
unfoldable pub request_key : Str → Str → ℕ → Str
request_key method path status = method ++ bytes " " ++ path ++ bytes " " ++ format_int status

-- The next step of a call, on the metrics; `none` is a panic.
unfoldable pub effect : Stage → Call → Metrics → Option Metrics
effect started c m = some (register c.key m)
effect registered c m = with_requests m (bump c.key 1 m.http_requests_total)
effect counted c m = with_sums m (bump c.key (microseconds c.duration) m.http_latency_sum)
effect summed c m = with_counts m (bump c.key 1 m.http_latency_count)
effect finished c m = some m

unfoldable pub next_stage : Stage → Stage
next_stage started = registered
next_stage registered = counted
next_stage counted = summed
next_stage summed = finished
next_stage finished = finished

unfoldable pub stepped : Call → Option Metrics → Option (Call × Metrics)
stepped c none = none
stepped c (some m) = some (record c { stage = next_stage c.stage }, m)

unfoldable pub advance : Call → Metrics → Option (Call × Metrics)
advance c m = stepped c (effect c.stage c m)

-- `RecordHTTPRequest`: the call of a request, begun.
unfoldable pub record_http_request : Str → Str → ℕ → Duration → Call
record_http_request method path status duration = record {
  key = request_key method path status;
  duration = duration;
  stage = started;
}

-- `MetricsMiddleware`, after the rest of the chain: a request that took from `start` to `end`.
unfoldable pub metrics_middleware : Str → Str → ℕ → Time → Time → Call
metrics_middleware method path status start end =
    record_http_request method path status (since start end)

-- The loads of `MetricsHandler`, each atomic, at moments of their own.
pub data Load : Type 0 where
  hits_load misses_load : Load
  processing_test processing_sum processing_count : Load
  latency_test latency_sum latency_count request_load : Str → Load
  created_load completed_load failed_load dead_lettered_load retried_load : Load
  produced_load consumed_load errors_load : Load
  rejections_load workers_load : Load

-- `float64` and what the report does with it: the conversion of an integer, `/` and `*`.
pub record Floats : Type 1 where
  pub Float : Type 0
  pub of_int : ℕ → Float
  pub div : Float → Float → Float
  pub mul : Float → Float → Float

module _ (F : Floats) where
  open F use {Float, of_int, div, mul}

  -- One of the HTTP endpoints in the report
  pub record Endpoint : Type 0 where
    pub count : ℕ
    pub avg_latency_ms : Float

  -- The JSON body of `MetricsHandler`, without its nesting; of the counters it shows only some.
  pub record Report : Type 0 where
    pub jobs_created : ℕ
    pub jobs_completed : ℕ
    pub jobs_failed : ℕ
    pub jobs_dead_lettered : ℕ
    pub jobs_retried : ℕ
    pub kafka_messages_produced : ℕ
    pub kafka_messages_consumed : ℕ
    pub kafka_produce_errors : ℕ
    pub cache_hits : ℕ
    pub cache_misses : ℕ
    pub hit_ratio : Float
    pub rate_limit_rejections : ℕ
    pub active_workers : ℕ
    pub avg_processing_time_ms : Float
    pub http_endpoints : List (Str × Endpoint)

  unfoldable pub hit_ratio_of : ℕ → ℕ → Float
  hit_ratio_of hits misses =
      let all = add_int hits misses in
      if lt_int 0 all then mul (div (of_int hits) (of_int all)) (of_int 100) else of_int 0

  -- The mean of a sum of microseconds, in milliseconds; the number is loaded twice, for the test and
  -- for the quotient.
  unfoldable pub average_ms : ℕ → ℕ → ℕ → Float
  average_ms tested sum count =
      if lt_int 0 tested then div (div (of_int sum) (of_int count)) (of_int 1000) else of_int 0

  -- The mean latency of a key, from the values that its loads find; `none` is a panic. The sum is
  -- loaded only if the test finds latencies.
  unfoldable pub latency_of : Option ℕ → Option ℕ → Option ℕ → Option Float
  latency_of none sum count = none
  latency_of (some tested) (some sum) (some count) = some (average_ms tested sum count)
  latency_of (some tested) _ _ = if lt_int 0 tested then none else some (of_int 0)

  unfoldable pub endpoint :
      Str
      → Option ℕ
      → Option Float
      → Option (List (Str × Endpoint))
      → Option (List (Str × Endpoint))
  endpoint key none latency rest = none
  endpoint key (some count) none rest = none
  endpoint key (some count) (some latency) none = none
  endpoint key (some count) (some latency) (some rest) =
      some ((key, record { count = count; avg_latency_ms = latency }) ∷ rest)

  -- The loop of `MetricsHandler` over the first map, given the metrics at each load; its keys do not
  -- change under the lock, while the counters do.
  unfoldable pub endpoints : (Load → Metrics) → CounterMap → Option (List (Str × Endpoint))
  endpoints at [] = some []
  endpoints at ((key, counter) ∷ rest) =
      endpoint key (value_of (at (request_load key)).http_requests_total key)
        (latency_of (value_of (at (latency_test key)).http_latency_count key)
          (value_of (at (latency_sum key)).http_latency_sum key)
          (value_of (at (latency_count key)).http_latency_count key))
        (endpoints at rest)

  unfoldable pub report_of : (Load → Metrics) → Option (List (Str × Endpoint)) → Option Report
  report_of at none = none
  report_of at (some shown) = some (record {
    jobs_created = (at created_load).jobs_created;
    jobs_completed = (at completed_load).jobs_completed;
    jobs_failed = (at failed_load).jobs_failed;
    jobs_dead_lettered = (at dead_lettered_load).jobs_dead_lettered;
    jobs_retried = (at retried_load).jobs_retried;
    kafka_messages_produced = (at produced_load).kafka_messages_produced;
    kafka_messages_consumed = (at consumed_load).kafka_messages_consumed;
    kafka_produce_errors = (at errors_load).kafka_produce_errors;
    cache_hits = (at hits_load).cache_hits;
    cache_misses = (at misses_load).cache_misses;
    hit_ratio = hit_ratio_of (at hits_load).cache_hits (at misses_load).cache_misses;
    rate_limit_rejections = (at rejections_load).rate_limit_rejections;
    active_workers = (at workers_load).active_workers;
    avg_processing_time_ms =
        average_ms (at processing_test).processing_time_count
          (at processing_sum).processing_time_sum (at processing_count).processing_time_count;
    http_endpoints = shown;
  })

  -- `MetricsHandler`, on the metrics at each of its loads, between which requests go on being
  -- recorded, and on the first map while its lock is held; `none` is a panic.
  unfoldable pub metrics_handler : (Load → Metrics) → CounterMap → Option Report
  metrics_handler at keys = report_of at (endpoints at keys)
