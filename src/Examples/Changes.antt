-- ===== src/Examples/Changes.antt =====
-- What becomes of a row.
use parallelis_distributed_e.Base.{
  ◌≡◌, ◌≢◌, refl, ℕ, ◌+◌, some, ok, [], ◌∷◌, List, Memᴰ, Str, arith,
}
use parallelis_distributed_e.Model.{Job, uuid_nil, other, completed}
use parallelis_distributed_e.Services.{World}
use parallelis_distributed_e.Memory.{memory}
use parallelis_distributed_e.Memory.Rows.{row}
use parallelis_distributed_e.System.{
  Action, post, poll, deliver, clear_caches, perform, perform_all, here,
}
use parallelis_distributed_e.System.Changes.{Changed, row_changes}
use parallelis_distributed_e.System.Completed.{done_for_good}
use parallelis_distributed_e.Examples.Runs.{config, customer, request, message, waiting_job}
use parallelis_distributed_e.Examples.Variants.{memory_reads_up}
use parallelis_distributed_e.Examples.Willing.{willing, willing_laws, waiting_world}

-- The row of the job waits; the next identifiers are others.
abbrev pub later_world : World ⦃S = willing⦄
later_world = record waiting_world { fresh_ids = λ n. n + 2 }

others : (n : ℕ) → (later_world.fresh_ids n ≢ uuid_nil) × (later_world.fresh_ids n ≢ waiting_job.id)
others n = (λ e. omega arith, λ e. omega arith)

row_changes_example :
    Changed ⦃S = willing⦄ 1 waiting_job poll
      (row (perform ⦃S = willing⦄ config poll later_world).tables 1)
row_changes_example =
    row_changes ⦃S = willing⦄ willing_laws config 1 poll waiting_job others (λ key. refl) refl here
      refl

-- The message comes twice, with a poll and a request in between.
abbrev busy_day : List Action
busy_day =
    poll ∷ deliver message ∷ post customer (ok request) ∷ poll ∷ deliver message ∷ clear_caches ∷ []

known : (name : Str) → waiting_job.type ≢ other name
known name e = cc

done_for_good_example :
    (i : Job) × (row (perform_all ⦃S = willing⦄ config busy_day later_world).tables 1 ≡ some i)
    × (i.status ≡ completed)
done_for_good_example =
    done_for_good ⦃S = willing⦄ willing_laws memory_reads_up (λ j t. refl) config waiting_job
      message busy_day later_world others (λ key. refl) refl refl known (Memᴰ.tail (Memᴰ.head refl))
      refl
