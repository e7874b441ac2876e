-- ===== src/Examples/Stuck.antt =====
-- A completion that the scheduler overwrites.
use parallelis_distributed_e.Base.{ℕ, ◌≢◌, refl, ok, List, [], ◌∷◌, Memᴰ, arith}
use parallelis_distributed_e.Services.{Message}
use parallelis_distributed_e.Memory.{memory}
use parallelis_distributed_e.System.{Action, post, poll, deliver, clear_caches}
use parallelis_distributed_e.System.Threads.{begun, queued, advance, drive}
use parallelis_distributed_e.System.Stuck.{Overwritten, completion_lost}
use parallelis_distributed_e.Examples.Runs.{config, cache, customer, request, message, waiting_job}
use parallelis_distributed_e.Examples.Variants.{memory_reads_up}
use parallelis_distributed_e.Examples.Willing.{willing, willing_laws}
use parallelis_distributed_e.Examples.Changes.{later_world}

-- The message of the next job
abbrev next_message : Message
next_message = record message { value = 2 ∷ [] }

abbrev next_day : List Action
next_day = poll ∷ post customer (ok request) ∷ poll ∷ deliver next_message ∷ clear_caches ∷ []

of_another : (m : Message) → Memᴰ (deliver m) next_day → willing.parse_uuid m.value ≢ ok 1
of_another m (Memᴰ.head e) p = cc
of_another m (Memᴰ.tail (Memᴰ.head e)) p = cc
of_another m (Memᴰ.tail (Memᴰ.tail (Memᴰ.head e))) p = cc
of_another m (Memᴰ.tail (Memᴰ.tail (Memᴰ.tail (Memᴰ.head e)))) p = absurd (ground arith)
of_another m (Memᴰ.tail (Memᴰ.tail (Memᴰ.tail (Memᴰ.tail (Memᴰ.head e))))) p = cc
of_another m (Memᴰ.tail (Memᴰ.tail (Memᴰ.tail (Memᴰ.tail (Memᴰ.tail at))))) p = elim at [ ]

completion_lost_example :
    (n : ℕ) × (let poller = advance ⦃S = willing⦄ cache (queued (waiting_job ∷ [])) later_world in
      Overwritten ⦃S = willing⦄ willing_laws memory_reads_up
        (λ j t. refl)
        config
        waiting_job
        []
        next_day
        poller.0
        (drive ⦃S = willing⦄ cache n (begun message) poller.1))
completion_lost_example =
    completion_lost ⦃S = willing⦄ willing_laws memory_reads_up (λ j t. refl) config waiting_job []
      message next_day later_world (λ n. (λ e. omega arith, λ e. omega arith)) (λ key. refl) refl
      refl refl (λ name e. cc) refl refl of_another
