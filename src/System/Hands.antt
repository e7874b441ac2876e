-- ===== src/System/Hands.antt =====
-- Which messages a step of a worker's loop takes into its hands and gives out of them.
use parallelis_distributed_e.Base.{
  length, ◌+◌, ◌≤◌, ◌≡◌, refl, sym, ap, ◌∙◌, Bool, true, false, Option, some, none, List, [], ◌∷◌,
  ◌++◌, Str, Result, ok, err, if◌then◌else◌, arith,
}
use parallelis_distributed_e.Model.{Uuid, JobType, payment_process, email_confirmation, other, Job}
use parallelis_distributed_e.Services.{got, Message, Services, World}
use parallelis_distributed_e.CacheService.{CacheService}
use parallelis_distributed_e.System.Threads.{
  Thread, begun, missed, loaded, taken, failing, outdated, uncached, committing, polling, queued,
  sent, ended, after_get, after_find, after_save, after_query, after_write, begin_parsed,
  process_taken, advance,
}
use parallelis_distributed_e.System.Pool.{
  Loop, checking, fetching, handling, stopped, after_fetch, after_advance, step_loop, in_hand,
  held_by, committed_by, fetched_by, count,
}

module _ ⦃S : Services⦄ (cs : CacheService) where
  held_by-after_advance : (t : Thread) → held_by (after_advance t) ≡ in_hand t
  unfolding after_advance
  held_by-after_advance (begun msg) = refl
  held_by-after_advance (missed msg id) = refl
  held_by-after_advance (loaded msg job) = refl
  held_by-after_advance (taken msg job) = refl
  held_by-after_advance (failing msg message job) = refl
  held_by-after_advance (outdated msg job) = refl
  held_by-after_advance (uncached msg job) = refl
  held_by-after_advance (committing msg) = refl
  held_by-after_advance polling = refl
  held_by-after_advance (queued jobs) = refl
  held_by-after_advance (sent job jobs) = refl
  held_by-after_advance ended = refl

  in_hand-after_get :
      (msg : Message) (id : Uuid) (o : Option Job) → in_hand (after_get msg id o) ≡ msg ∷ []
  unfolding after_get
  in_hand-after_get msg id none = refl
  in_hand-after_get msg id (some job) = refl

  in_hand-begin_parsed :
      (msg : Message) (r : Result Uuid) (w : World) → in_hand (begin_parsed msg r w).0 ≡ msg ∷ []
  unfolding begin_parsed
  in_hand-begin_parsed msg (err e) w = refl
  in_hand-begin_parsed msg (ok id) w = in_hand-after_get msg id _

  in_hand-after_find : (msg : Message) (r : Result Job) → in_hand (after_find msg r) ≡ msg ∷ []
  unfolding after_find
  in_hand-after_find msg (err e) = refl
  in_hand-after_find msg (ok job) = refl

  in_hand-after_save :
      (msg : Message) (saved : Option Str × Job) → in_hand (after_save msg saved) ≡ msg ∷ []
  unfolding after_save
  in_hand-after_save msg (some e, job) = refl
  in_hand-after_save msg (none, job) = refl

  in_hand-process_taken :
      (msg : Message) (t : JobType) (job : Job) (w : World)
      → in_hand (process_taken msg t job w).0 ≡ msg ∷ []
  unfolding process_taken
  in_hand-process_taken msg payment_process job w = in_hand-after_save msg _
  in_hand-process_taken msg email_confirmation job w = in_hand-after_save msg _
  in_hand-process_taken msg (other name) job w = refl

  in_hand-after_query : (r : Result (List Job)) → in_hand (after_query r) ≡ []
  unfolding after_query
  in_hand-after_query (err e) = refl
  in_hand-after_query (ok jobs) = refl

  in_hand-after_write :
      (job : Job) (jobs : List Job) (o : Option Str) → in_hand (after_write job jobs o) ≡ []
  unfolding after_write
  in_hand-after_write job jobs (some e) = refl
  in_hand-after_write job jobs none = refl

  -- A call keeps the message, or commits it.
  in_hand-advance :
      (t : Thread) (w : World) → in_hand t ≡ committed_by (handling t) ++ in_hand (advance cs t w).0
  unfolding advance
  in_hand-advance (begun msg) w = sym (in_hand-begin_parsed msg _ w)
  in_hand-advance (missed msg id) w = sym (in_hand-after_find msg _)
  in_hand-advance (loaded msg job) w = refl
  in_hand-advance (taken msg job) w = sym (in_hand-process_taken msg job.type job w)
  in_hand-advance (failing msg message job) w = refl
  in_hand-advance (outdated msg job) w = refl
  in_hand-advance (uncached msg job) w = refl
  in_hand-advance (committing msg) w = refl
  in_hand-advance polling w = sym (in_hand-after_query _)
  in_hand-advance (queued []) w = refl
  in_hand-advance (queued (job ∷ jobs)) w = sym (in_hand-after_write job jobs _)
  in_hand-advance (sent job jobs) w = refl
  in_hand-advance ended w = refl

  held_by-after_fetch : (r : Result Message) → held_by (after_fetch r) ≡ got r
  unfolding after_fetch
  held_by-after_fetch (err e) = refl
  held_by-after_fetch (ok msg) = refl

  held_by-checked : (closed : Bool) → held_by (if closed then stopped else fetching) ≡ []
  held_by-checked true = refl
  held_by-checked false = refl

  -- What a step of a loop fetches and has is what it commits and then has.
  append_nil : (ms : List Message) → ms ++ [] ≡ ms
  append_nil [] = refl
  append_nil (msg ∷ ms) = ap (λ ns. msg ∷ ns) (append_nil ms)

  pub held_by-step_loop :
      (closed : Bool) (l : Loop) (w : World)
      → fetched_by l w ++ held_by l ≡ committed_by l ++ held_by (step_loop cs closed l w).0
  unfolding step_loop
  held_by-step_loop closed checking w = sym (held_by-checked closed)
  held_by-step_loop closed fetching w = append_nil (got _) ∙ sym (held_by-after_fetch _)
  held_by-step_loop closed (handling t) w =
      in_hand-advance t w
      ∙ ap (λ ms. committed_by (handling t) ++ ms) (sym (held_by-after_advance (advance cs t w).0))
  held_by-step_loop closed stopped w = refl

  pub count-append :
      (p : Message → Bool) (ms ns : List Message) → count p (ms ++ ns) ≡ count p ms + count p ns
  count-append p [] ns = omega arith
  count-append p (msg ∷ ms) ns = rw (count-append p ms ns) (omega arith)

  length-in_hand : (t : Thread) → length (in_hand t) ≤ 1
  length-in_hand (begun msg) = omega arith
  length-in_hand (missed msg id) = omega arith
  length-in_hand (loaded msg job) = omega arith
  length-in_hand (taken msg job) = omega arith
  length-in_hand (failing msg message job) = omega arith
  length-in_hand (outdated msg job) = omega arith
  length-in_hand (uncached msg job) = omega arith
  length-in_hand (committing msg) = omega arith
  length-in_hand (queued jobs) = omega arith
  length-in_hand (sent job jobs) = omega arith
  length-in_hand polling = omega arith
  length-in_hand ended = omega arith

  pub length-held_by : (l : Loop) → length (held_by l) ≤ 1
  length-held_by checking = omega arith
  length-held_by fetching = omega arith
  length-held_by (handling t) = length-in_hand t
  length-held_by stopped = omega arith
