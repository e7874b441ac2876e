-- ===== src/System/Ranks.antt =====
-- How many steps a worker's loop has left at most once the stop channel is closed.
use parallelis_distributed_e.Base.{
  ℕ, ◌+◌, ◌≤◌, ◌<◌, ◌≢◌, refl, Bool, true, false, Option, some, none, Str, Result, ok, err,
  if◌then◌else◌, arith,
}
use parallelis_distributed_e.Model.{Uuid, JobType, payment_process, email_confirmation, other, Job}
use parallelis_distributed_e.Services.{Message, Services, World}
use parallelis_distributed_e.CacheService.{CacheService}
use parallelis_distributed_e.System.Threads.{
  Thread, begun, missed, loaded, taken, failing, outdated, uncached, committing, polling, queued,
  sent, ended, after_get, after_find, after_save, begin_parsed, process_taken, advance,
}
use parallelis_distributed_e.System.Pool.{
  Loop, checking, fetching, handling, stopped, after_fetch, after_advance, step_loop,
}

-- The library calls that the handling of a message has left at most.
abbrev calls_left : Thread → ℕ
calls_left (begun msg) = 8
calls_left (missed msg id) = 7
calls_left (loaded msg job) = 6
calls_left (taken msg job) = 5
calls_left (failing msg message job) = 4
calls_left (outdated msg job) = 3
calls_left (uncached msg job) = 2
calls_left (committing msg) = 1
calls_left polling = 0
calls_left (queued jobs) = 0
calls_left (sent job jobs) = 0
calls_left ended = 0

abbrev pub steps_left : Loop → ℕ
steps_left stopped = 0
steps_left checking = 1
steps_left (handling t) = 1 + calls_left t
steps_left fetching = 10

-- A goroutine that handles a message, and has not ended.
abbrev IsHandling : Thread → Type 0
IsHandling (begun msg) = Unit
IsHandling (missed msg id) = Unit
IsHandling (loaded msg job) = Unit
IsHandling (taken msg job) = Unit
IsHandling (failing msg message job) = Unit
IsHandling (outdated msg job) = Unit
IsHandling (uncached msg job) = Unit
IsHandling (committing msg) = Unit
IsHandling polling = ⊥
IsHandling (queued jobs) = ⊥
IsHandling (sent job jobs) = ⊥
IsHandling ended = ⊥

abbrev pub IsWorker : Loop → Type 0
IsWorker checking = Unit
IsWorker fetching = Unit
IsWorker (handling t) = IsHandling t
IsWorker stopped = Unit

-- A loop that still runs a worker, with at most so many steps left.
abbrev Within : ℕ → Loop → Type 0
Within n l = IsWorker l × (steps_left l ≤ n)

pub steps_left_bound : (l : Loop) → IsWorker l → steps_left l ≤ 10
steps_left_bound stopped h = omega arith
steps_left_bound checking h = omega arith
steps_left_bound fetching h = omega arith
steps_left_bound (handling t) h = ground arith

module _ ⦃S : Services⦄ (cs : CacheService) where
  Within-after_get :
      (msg : Message) (id : Uuid) (o : Option Job) → Within 8 (after_advance (after_get msg id o))
  unfolding after_get after_advance
  Within-after_get msg id none = omega arith
  Within-after_get msg id (some job) = omega arith

  Within-begin_parsed :
      (msg : Message) (r : Result Uuid) (w : World)
      → Within 8 (after_advance (begin_parsed msg r w).0)
  unfolding begin_parsed after_advance
  Within-begin_parsed msg (err e) w = omega arith
  Within-begin_parsed msg (ok id) w = Within-after_get msg id _

  Within-after_find : (msg : Message) (r : Result Job) → Within 7 (after_advance (after_find msg r))
  unfolding after_find after_advance
  Within-after_find msg (err e) = omega arith
  Within-after_find msg (ok job) = omega arith

  Within-after_save :
      (msg : Message) (saved : Option Str × Job) → Within 5 (after_advance (after_save msg saved))
  unfolding after_save after_advance
  Within-after_save msg (some e, job) = omega arith
  Within-after_save msg (none, job) = omega arith

  Within-process_taken :
      (msg : Message) (t : JobType) (job : Job) (w : World)
      → Within 5 (after_advance (process_taken msg t job w).0)
  unfolding process_taken after_advance
  Within-process_taken msg payment_process job w = Within-after_save msg _
  Within-process_taken msg email_confirmation job w = Within-after_save msg _
  Within-process_taken msg (other name) job w = omega arith

  Within-advance :
      (t : Thread) (w : World)
      → IsHandling t
      → Within (calls_left t) (after_advance (advance cs t w).0)
  unfolding advance after_advance
  Within-advance (begun msg) w h = Within-begin_parsed msg _ w
  Within-advance (missed msg id) w h = Within-after_find msg _
  Within-advance (loaded msg job) w h = omega arith
  Within-advance (taken msg job) w h = Within-process_taken msg job.type job w
  Within-advance (failing msg message job) w h = omega arith
  Within-advance (outdated msg job) w h = omega arith
  Within-advance (uncached msg job) w h = omega arith
  Within-advance (committing msg) w h = omega arith
  Within-advance polling w h = elim h [ ]
  Within-advance (queued jobs) w h = elim h [ ]
  Within-advance (sent job jobs) w h = elim h [ ]
  Within-advance ended w h = elim h [ ]

  Within-after_fetch : (r : Result Message) → Within 9 (after_fetch r)
  unfolding after_fetch
  Within-after_fetch (err e) = omega arith
  Within-after_fetch (ok msg) = omega arith

  checked-IsWorker : (closed : Bool) → IsWorker (if closed then stopped else fetching)
  checked-IsWorker true = tt
  checked-IsWorker false = tt

  -- Every step leaves a worker's loop.
  pub step_loop-IsWorker :
      (closed : Bool) (l : Loop) (w : World) → IsWorker l → IsWorker (step_loop cs closed l w).0
  unfolding step_loop
  step_loop-IsWorker closed checking w h = checked-IsWorker closed
  step_loop-IsWorker closed fetching w h = (Within-after_fetch _).0
  step_loop-IsWorker closed (handling t) w h = (Within-advance t w h).0
  step_loop-IsWorker closed stopped w h = tt

  -- After the channel is closed, a step of a loop that has not stopped leaves fewer.
  pub steps_left-step_loop :
      (l : Loop) (w : World)
      → IsWorker l
      → l ≢ stopped
      → steps_left (step_loop cs true l w).0 < steps_left l
  unfolding step_loop
  steps_left-step_loop checking w h runs = omega arith
  steps_left-step_loop fetching w h runs =
      omega (arith, (Within-after_fetch (S.queue.fetch_message w.broker).0).1)
  steps_left-step_loop (handling t) w h runs = omega (arith, (Within-advance t w h).1)
  steps_left-step_loop stopped w h runs = absurd (runs refl)
