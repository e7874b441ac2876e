-- ===== src/Examples/Identity.antt =====
-- A job whose scheduling is under way.
use parallelis_distributed_e.Base.{ℕ, ◌≡◌, ◌≢◌, refl, ◌+◌, some, [], ◌∷◌, arith}
use parallelis_distributed_e.Model.{Job, Uuid, uuid_nil, payment_process}
use parallelis_distributed_e.Services.{World}
use parallelis_distributed_e.CacheService.{get_job}
use parallelis_distributed_e.Memory.{memory, memory_laws, empty_world}
use parallelis_distributed_e.Memory.Rows.{row}
use parallelis_distributed_e.System.Threads.{polling, drive}
use parallelis_distributed_e.System.Interleaved.{Runs, start, turn, poll, drives}
use parallelis_distributed_e.System.Identity.{AsAsked, asked_kept}
use parallelis_distributed_e.Examples.Runs.{config, cache, customer, waiting_job}

-- The job is stored, and the next identifiers are others.
abbrev waiting : World ⦃S = memory⦄
waiting = record empty_world {
  tables = record { jobs = waiting_job ∷ []; faults = [] };
  fresh_ids = λ n. n + 2;
}

others : (n : ℕ) → (waiting.fresh_ids n ≢ uuid_nil) × (waiting.fresh_ids n ≢ 1)
others n = (λ e. omega arith, λ e. omega arith)

scheduled :
    Runs memory_laws config waiting
      ((drive ⦃S = memory⦄ cache 3 polling waiting).0 ∷ [])
      (drive ⦃S = memory⦄ cache 3 polling waiting).1
scheduled = drives memory_laws config 3 [] polling [] (turn start poll)

asked_kept_example :
    let w = (drive ⦃S = memory⦄ cache 3 polling waiting).1 in
    ((i : Uuid) (j : Job)
      → row w.tables i ≡ some j
      → j.id ≡ waiting_job.id
      → AsAsked customer payment_process waiting_job.payload j)
    × ((j : Job)
        → (get_job ⦃S = memory⦄ 1 w).0 ≡ some j
        → AsAsked customer payment_process waiting_job.payload j)
asked_kept_example =
    asked_kept memory_laws config waiting_job others (λ key. refl) refl refl scheduled
