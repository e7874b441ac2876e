-- ===== src/Examples/Soundness.antt =====
-- Runs of the whole system.
use parallelis_distributed_e.Base.{◌≡◌, refl, some, ok}
use parallelis_distributed_e.Memory.{memory, memory_laws, empty_world}
use parallelis_distributed_e.System.{post, poll, deliver, Reach, act, here, next}
use parallelis_distributed_e.Examples.Runs.{
  config, customer, request, message, after, lifecycle, done_job,
}

lifecycle_reached : Reach memory_laws config empty_world (after lifecycle empty_world)
unfolding after
lifecycle_reached =
    next (next (next here (act (post customer (ok request)))) (act poll)) (act (deliver message))

lifecycle_row : memory_laws.database.row (after lifecycle empty_world).tables 1 ≡ some done_job
unfolding after
lifecycle_row = refl
