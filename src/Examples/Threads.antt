-- ===== src/Examples/Threads.antt =====
-- Goroutines of a worker and a scheduler.
use parallelis_distributed_e.Base.{◌≡◌, refl, some, none, ok, [], ◌∷◌}
use parallelis_distributed_e.Model.{Job, running}
use parallelis_distributed_e.Services.{World}
use parallelis_distributed_e.Lifecycle.{IsSound}
use parallelis_distributed_e.Memory.{memory, memory_laws, empty_world}
use parallelis_distributed_e.System.{post, act}
use parallelis_distributed_e.System.Threads.{
  Thread, begun, polling, drive, advance, after_query, after_write, begin_parsed, after_get,
  after_find, process_taken,
}
use parallelis_distributed_e.System.Interleaved.{
  Runs, start, turn, deliver, poll, outside, drives, interleaved_rows,
}
use parallelis_distributed_e.Examples.Runs.{
  config, cache, customer, request, message, done_job, after,
}

abbrev posted_world : World ⦃S = memory⦄
posted_world = after (post customer (ok request) ∷ []) empty_world

-- A poll has published the job; a worker runs it; then the poll saves its copy.
abbrev pub published : Thread × World ⦃S = memory⦄
published = drive ⦃S = memory⦄ cache 2 polling posted_world

abbrev handled : Thread × World ⦃S = memory⦄
handled = drive ⦃S = memory⦄ cache 4 (begun message) published.1

abbrev marked : Thread × World ⦃S = memory⦄
marked = drive ⦃S = memory⦄ cache 1 published.0 handled.1

raced : Runs memory_laws config empty_world (handled.0 ∷ marked.0 ∷ []) marked.1
unfolding after
raced =
    let posted = turn start (outside (act (post customer (ok request)))) in
    let sent = drives memory_laws config 2 [] polling [] (turn posted poll) in
    let done =
      drives memory_laws config 4 [] (begun message) (published.0 ∷ [])
        (turn sent (deliver message)) in
    drives memory_laws config 1 (handled.0 ∷ []) published.0 [] done

abbrev raced_job : Job
raced_job = record done_job { status = running; completed_at = none }

raced_row : memory_laws.database.row marked.1.tables 1 ≡ some raced_job
unfolding after drive advance after_query after_write begin_parsed after_get after_find
    process_taken
raced_row = refl

interleaved_rows_example : IsSound raced_job
interleaved_rows_example =
    interleaved_rows memory_laws config (λ id. refl) (λ key. refl) raced 1 raced_job raced_row
