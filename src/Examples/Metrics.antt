-- ===== src/Examples/Metrics.antt =====
-- Two requests of one key whose steps interleave, and the report after them.
use parallelis_distributed_e.Base.{
  ◌≡◌, refl, Option, none, some, List, [], ◌∷◌, Str, bytes, value_of, put, str_eq, add_int,
}
use parallelis_distributed_e.Strconv.{format_int, print_digits}
use parallelis_distributed_e.Metrics.{
  inc_cache_hit, record_http_request, request_key, advance, effect, next_stage, stepped, register,
  with_counters, bump, bumped, with_requests, with_sums, with_counts, microseconds, tick,
}
use parallelis_distributed_e.Metrics.Calls.{
  Process, Event, begin, move, other, run, and_then, occur, advance_at, tally, Cell,
}
use parallelis_distributed_e.Metrics.Counts.{fresh, begun, run_counts, AllEnded, ended_counts}

-- Both have taken the first lock before one of them counts.
abbrev two_requests : List Event
two_requests =
    begin (bytes "GET") (bytes "/h") 200 3000000
    ∷ begin (bytes "GET") (bytes "/h") 200 1000000
    ∷ move 0
    ∷ move 1
    ∷ move 1
    ∷ other inc_cache_hit
    ∷ move 0
    ∷ move 0
    ∷ move 1
    ∷ move 1
    ∷ move 0
    ∷ []

abbrev get_h : Str
get_h = bytes "GET /h 200"

run_counts_example :
    (p : Process) × (run two_requests fresh ≡ some p)
    × ((k : Str) → Cell (tally k p.calls) p.metrics k)
run_counts_example = run_counts two_requests

abbrev or_fresh : Option Process → Process
or_fresh none = fresh
or_fresh (some p) = p

-- To unfold this name is to unfold all that a run calls.
after_both : Process
unfolding run and_then occur advance_at advance effect next_stage stepped register with_counters
    bump bumped with_requests with_sums with_counts microseconds tick put value_of str_eq add_int
    format_int print_digits record_http_request request_key
after_both = or_fresh (run two_requests fresh)

ran_both : run two_requests fresh ≡ some after_both
unfolding after_both
ran_both = refl

ended_both : AllEnded after_both.calls
unfolding after_both
ended_both = (refl, (refl, tt))

ended_counts_example : Cell (tally get_h (begun two_requests [])) after_both.metrics get_h
ended_counts_example = ended_counts two_requests after_both ran_both ended_both get_h

both_counted : value_of after_both.metrics.http_requests_total get_h ≡ some 2
unfolding after_both
both_counted = refl
