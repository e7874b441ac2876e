-- ===== src/System/Atomic.antt =====
-- A goroutine that runs without interruption does what `processJob` and a poll do.
use parallelis_distributed_e.Base.{
  ℕ, suc, ◌≡◌, refl, Option, none, some, List, [], ◌∷◌, Str, Result, ok, err,
}
use parallelis_distributed_e.Model.{Uuid, JobType, payment_process, email_confirmation, other, Job}
use parallelis_distributed_e.Services.{Message, Services, World}
use parallelis_distributed_e.CacheService.{CacheService, update_job}
use parallelis_distributed_e.JobScheduler.{
  mark_published, schedule_job, schedule_all, schedule_found, schedule_jobs,
}
use parallelis_distributed_e.JobWorker.{
  save_failed, unknown_type, finish, complete, process_by_type, process_job_internal,
  handle_job_failure, cache_loaded, or_load, fetch_job, settle, run_job, acknowledge, run_found,
  process_parsed, process_job,
}
use parallelis_distributed_e.System.Threads.{
  Thread, begun, missed, loaded, taken, failing, outdated, uncached, committing, polling, queued,
  sent, ended, after_get, after_find, after_save, after_query, after_write, begin_parsed,
  process_taken, advance, drive,
}

module _ ⦃S : Services⦄ (cs : CacheService) where
  -- A goroutine comes to its end, and the world is then so.
  abbrev pub Ends : Thread → World → World → Type 0
  Ends t w u = (n : ℕ) × (drive cs n t w ≡ (ended, u))

  one_more : (t : Thread) (w u : World) → Ends (advance cs t w).0 (advance cs t w).1 u → Ends t w u
  unfolding drive
  one_more t w u (n, e) = (suc n, e)

  ended-Ends : (w : World) → Ends ended w w
  unfolding drive
  ended-Ends w = (0, refl)

  committing-Ends : (msg : Message) (w : World) → Ends (committing msg) w (acknowledge msg w).1
  unfolding advance
  committing-Ends msg w = one_more (committing msg) w _ (ended-Ends _)

  outdated-Ends :
      (msg : Message) (j : Job) (w : World)
      → Ends (outdated msg j) w (acknowledge msg (update_job cs j w).1).1
  unfolding advance update_job
  outdated-Ends msg j w =
      one_more (outdated msg j) w _ (one_more (uncached msg j) _ _ (committing-Ends msg _))

  failing-Ends :
      (msg : Message) (message : Str) (j : Job) (w : World)
      → Ends (failing msg message j) w (acknowledge msg (handle_job_failure cs j message w).1).1
  unfolding advance handle_job_failure
  failing-Ends msg message j w = one_more (failing msg message j) w _ (outdated-Ends msg _ _)

  saved-Ends :
      (msg : Message) (saved : Option Str × Job) (w : World)
      → Ends
          (after_save msg saved)
          w
          (acknowledge msg (settle cs (finish cs saved w).0 (finish cs saved w).1).1).1
  unfolding after_save finish settle
  saved-Ends msg (some e, j) w = failing-Ends msg (save_failed e) j w
  saved-Ends msg (none, j) w = outdated-Ends msg j w

  type-Ends :
      (t : JobType) (msg : Message) (j : Job) (w : World)
      → Ends
          (process_taken msg t j w).0
          (process_taken msg t j w).1
          (acknowledge msg
            (settle cs (process_by_type t cs j w).0 (process_by_type t cs j w).1).1).1
  unfolding process_taken process_by_type complete settle
  type-Ends payment_process msg j w = saved-Ends msg _ _
  type-Ends email_confirmation msg j w = saved-Ends msg _ _
  type-Ends (other name) msg j w = failing-Ends msg (unknown_type name) j w

  taken-Ends :
      (msg : Message) (j : Job) (w : World) → Ends (taken msg j) w (run_found cs msg (some j) w).1
  unfolding advance run_found run_job process_job_internal
  taken-Ends msg j w = one_more (taken msg j) w _ (type-Ends j.type msg j w)

  found-Ends :
      (msg : Message) (r : Result Job) (w : World)
      → Ends
          (after_find msg r)
          w
          (run_found cs msg (cache_loaded cs r w).0 (cache_loaded cs r w).1).1
  unfolding after_find cache_loaded run_found advance
  found-Ends msg (err e) w = committing-Ends msg w
  found-Ends msg (ok j) w = one_more (loaded msg j) w _ (taken-Ends msg j _)

  got-Ends :
      (msg : Message) (id : Uuid) (o : Option Job) (w : World)
      → Ends (after_get msg id o) w (run_found cs msg (or_load cs id o w).0 (or_load cs id o w).1).1
  unfolding after_get or_load advance
  got-Ends msg id none w = one_more (missed msg id) w _ (found-Ends msg _ _)
  got-Ends msg id (some j) w = taken-Ends msg j w

  parsed-Ends :
      (msg : Message) (r : Result Uuid) (w : World)
      → Ends (begin_parsed msg r w).0 (begin_parsed msg r w).1 (process_parsed cs msg r w).1
  unfolding begin_parsed process_parsed fetch_job
  parsed-Ends msg (err e) w = committing-Ends msg w
  parsed-Ends msg (ok id) w = got-Ends msg id _ _

  marked-Ends :
      (j : Job) (js : List Job) (o : Option Str) (w u : World)
      → Ends (queued js) (mark_published j o w).1 u
      → Ends (after_write j js o) w u
  unfolding after_write mark_published advance
  marked-Ends j js (some e) w u h = h
  marked-Ends j js none w u h = one_more (sent j js) w u h

  queued-Ends : (js : List Job) (w : World) → Ends (queued js) w (schedule_all js w).1
  unfolding advance schedule_all schedule_job
  queued-Ends [] w = one_more (queued []) w _ (ended-Ends w)
  queued-Ends (j ∷ js) w =
      one_more (queued (j ∷ js)) w _ (marked-Ends j js _ _ _ (queued-Ends js _))

  query-Ends : (r : Result (List Job)) (w : World) → Ends (after_query r) w (schedule_found r w).1
  unfolding after_query schedule_found
  query-Ends (err e) w = ended-Ends w
  query-Ends (ok js) w = queued-Ends js w

  -- Whatever the libraries answer, the goroutine of a message and that of a poll come to their end
  -- after some number of library calls if no other runs in between, and the world is then as the
  -- handling of the message, or the poll, leaves it.
  pub threads_end :
      (msg : Message) (w : World)
      → Ends (begun msg) w (process_job cs msg w).1 × Ends polling w (schedule_jobs w).1
  unfolding advance process_job schedule_jobs
  threads_end msg w = (
    one_more (begun msg) w _ (parsed-Ends msg (S.parse_uuid msg.value) w),
    one_more polling w _ (query-Ends _ _),
  )
