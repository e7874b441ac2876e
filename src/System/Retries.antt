-- ===== src/System/Retries.antt =====
-- A job that fails every time, from its first delivery to the dead letters, with polls in between.
use parallelis_distributed_e.Base.{
  ℕ, suc, ◌+◌, ◌<◌, ◌≤◌, ◌≡◌, ◌≢◌, refl, sym, ap, subst, ◌∙◌, true, false, Option, some, none, List,
  [], ◌∷◌, Str, ok, err, ◌==◌, arith,
}
use parallelis_distributed_e.Model.{Time, Duration, Uuid, uuid_nil, running, JobType, other, Job}
use parallelis_distributed_e.Services.{
  Condition, matches, Stored, Message, Services, World, ServiceLaws, now,
}
use parallelis_distributed_e.Repository.{save}
use parallelis_distributed_e.CacheService.{CacheService, get_job, update_job}
use parallelis_distributed_e.CacheService.Coherence.{get_job-update_job}
use parallelis_distributed_e.JobScheduler.{running_job, schedule_jobs}
use parallelis_distributed_e.JobScheduler.Poll.{Scheduled, kept, marked, due, row-schedule_jobs}
use parallelis_distributed_e.JobScheduler.Loop.{nil-schedule_jobs}
use parallelis_distributed_e.JobWorker.{
  failed_job, unknown_type, process_by_type, process_job_internal, handle_job_failure, or_load,
  fetch_job, settle, run_job, acknowledge, run_found, process_parsed, process_job,
}
use parallelis_distributed_e.JobWorker.Fetch.{row-save, row-or_load, or_load_lem}
use parallelis_distributed_e.Lifecycle.Hooked.{
  id-Stored, status-Stored, type-Stored, max_retries-Stored,
}
use parallelis_distributed_e.System.Turns.{
  Turn, polled, delivered, deliveries, Progress, waiting, queued, buried, failed-Progress,
  failed_keeps, turns, store-schedule_jobs, tables-update_job,
}

module _ ⦃S : Services⦄ (laws : ServiceLaws S)
    (reads_up : (c : Condition) (t : S.database.Tables) (e : Str) (j : Job)
      → (S.database.first c t).0 ≡ err e
      → matches c j ≡ true
      → laws.database.row t j.id ≢ some j)
    (writes_up : (j : Job) (t : S.database.Tables) → (S.database.save j t).0.0 ≡ none)
    (cache_up : (k v : Str) (d : Duration) (s : S.cache.Store) → (S.cache.set k v d s).0 ≡ none)
    (texts : (j : Job) → (text : Str) × (S.marshal j ≡ ok text)) (id : Uuid) (name : Str)
    (named : id ≢ uuid_nil) where
  open laws use {database.{row}}

  -- The job, after so many deliveries.
  abbrev pub IsTried : ℕ → Job → Type 0
  IsTried n j = (j.id ≡ id) × (j.type ≡ other name) × (j.attempts ≡ n) × (j.max_retries ≡ 3)

  -- The row of the job, and what the cache has of it, after so many deliveries.
  pub record Tried (n : ℕ) (w : World) : Type 0 where
    pub job : Job
    pub stored : row w.tables id ≡ some job
    pub tried : IsTried n job
    pub stage : Progress n job.status
    pub cached : (c : Job) → (get_job id w).0 ≡ some c → IsTried n c
    pub no_nil : row w.tables uuid_nil ≡ none

  -- A save of the failed job.
  Stored-IsTried :
      (n : ℕ) (message : Str) (updated read : Time) (c k : Job)
      → n < 3
      → IsTried n c
      → Stored (failed_job message updated read c) k
      → IsTried (suc n) k × Progress (suc n) k.status
  Stored-IsTried n message updated read c k few (same, typed, count, budget) how =
      let (same', typed', budget') = failed_keeps message updated read c in
      let (stage, attempts) = failed-Progress message updated read c (omega arith) budget in
      let (status_k, attempts_k, _) = status-Stored how in
      (
        (
          id-Stored how (λ e. named (sym same ∙ sym same' ∙ e)) ∙ same' ∙ same,
          type-Stored how ∙ typed' ∙ typed,
          attempts_k ∙ attempts ∙ ap suc count,
          max_retries-Stored how (budget' ∙ budget),
        ),
        subst (λ s. Progress (suc n) s) (sym status_k)
            (subst (λ m. Progress (suc m) (failed_job message updated read c).status) count stage),
      )

  -- `handleJobFailure` on the job that the worker took.
  failure-Tried :
      (cs : CacheService) (n : ℕ) (message : Str) (c : Job) (w : World)
      → n < 3
      → IsTried n c
      → row w.tables uuid_nil ≡ none
      → Tried (suc n) (handle_job_failure cs c message w).1
  unfolding handle_job_failure save
  failure-Tried cs n message c w few before no_nil =
      let read = (now w).1.clock 0 in
      let z = (now (now w).1).1 in
      let copy = failed_job message (w.clock 0) read c in
      let how = laws.database.save_stored copy z.tables in
      let k = (save copy z).0.1 in
      let (tried, stage) = Stored-IsTried n message (w.clock 0) read c k few before how in
      let same_copy : copy.id ≡ id = (failed_keeps message (w.clock 0) read c).0 ∙ before.0 in
      let off : (k.id == uuid_nil) ≡ false = ground (arith, tried.0) in
      let (text, marshalled) = texts k in
      record {
        job = k;
        stored =
            ap (λ t. row t id) (tables-update_job cs k (save copy z).1)
            ∙ ap (row (save copy z).1.tables) (sym same_copy)
            ∙ row-save laws writes_up copy z (λ e. named (sym same_copy ∙ e));
        tried = tried;
        stage = stage;
        cached = λ c' found.
            subst (IsTried (suc n))
              (sym (
                get_job-update_job laws cs k c' (save copy z).1 text (λ e. named (sym tried.0 ∙ e))
                  marshalled (cache_up _ _ _ _)
                  (ap (λ i. (get_job i (update_job cs k (save copy z).1).1).0) tried.0 ∙ found)))
              tried;
        no_nil =
            ap (λ t. row t uuid_nil) (tables-update_job cs k (save copy z).1)
            ∙ laws.database.row-save_ok copy z.tables uuid_nil (writes_up copy z.tables)
            ∙ rw off no_nil;
      }

  Tried-committed :
      (n : ℕ) (b : S.queue.Broker) (w : World) → Tried n w → Tried n (record w { broker = b })
  unfolding get_job
  Tried-committed n b w t = record {
    job = t.job;
    stored = t.stored;
    tried = t.tried;
    stage = t.stage;
    cached = t.cached;
    no_nil = t.no_nil;
  }

  run-Tried :
      (t : JobType) (cs : CacheService) (n : ℕ) (c : Job) (w : World)
      → t ≡ other name
      → n < 3
      → IsTried n c
      → row w.tables uuid_nil ≡ none
      → Tried (suc n) (settle cs (process_by_type t cs c w).0 (process_by_type t cs c w).1).1
  unfolding process_by_type settle
  run-Tried t cs n c w typed few before no_nil =
      subst
        (λ x. Tried (suc n) (settle cs (process_by_type x cs c w).0 (process_by_type x cs c w).1).1)
        (sym typed) (failure-Tried cs n (unknown_type name) c w few before no_nil)

  found-Tried :
      (cs : CacheService) (msg : Message) (n : ℕ) (c : Job) (o : Option Job) (w : World)
      → o ≡ some c
      → n < 3
      → IsTried n c
      → row w.tables uuid_nil ≡ none
      → Tried (suc n) (run_found cs msg o w).1
  unfolding run_found run_job process_job_internal acknowledge
  found-Tried cs msg n c o w found few before no_nil =
      rw found (Tried-committed (suc n) _ _ (run-Tried c.type cs n c w before.1 few before no_nil))

  -- A delivery while there are attempts left.
  delivery-Tried :
      (cs : CacheService) (msg : Message) (n : ℕ) (w : World)
      → S.parse_uuid msg.value ≡ ok id
      → n < 3
      → Tried n w
      → Tried (suc n) (process_job cs msg w).1
  unfolding process_job process_parsed fetch_job get_job
  delivery-Tried cs msg n w parsed few t =
      let asked = get_job id w in
      let here = t.tried.0 in
      let (c, taken, before) =
        or_load_lem laws reads_up (IsTried n) cs t.job asked.0 asked.1
          (ap (row w.tables) here ∙ t.stored) t.tried t.cached in
      subst (λ r. Tried (suc n) (process_parsed cs msg r w).1) (sym parsed)
        (found-Tried cs msg n c (or_load cs id asked.0 asked.1).0 (or_load cs id asked.0 asked.1).1
          (ap (λ i. (or_load cs i asked.0 asked.1).0) (sym here) ∙ taken) few before
          (row-or_load laws cs id asked.0 asked.1 uuid_nil ∙ t.no_nil))

  poll-Progress :
      (n : ℕ) (j : Job) (at : Time)
      → matches (due laws at) j ≡ true
      → Progress n j.status
      → Progress n running
  poll-Progress n j at fits (waiting few e) = queued few refl
  poll-Progress n j at fits (queued few e) = queued few refl
  poll-Progress n j at fits (buried all e) = absurd (ground arith)

  polled_row :
      (n : ℕ) (at : Time) (j : Job) (o : Option Job)
      → Scheduled (due laws at) j o
      → IsTried n j
      → Progress n j.status
      → (k : Job) × (o ≡ some k) × IsTried n k × Progress n k.status
  unfolding running_job
  polled_row n at j o (kept e) t stage = (j, e, t, stage)
  polled_row n at j o (marked read k fits how e) (same, typed, count, budget) stage =
      let (status_k, attempts_k, _) = status-Stored how in
      (
        k,
        e,
        (
          id-Stored how (λ x. named (sym same ∙ x)) ∙ same,
          type-Stored how ∙ typed,
          attempts_k ∙ count,
          max_retries-Stored how budget,
        ),
        subst (Progress n) (sym status_k) (poll-Progress n j at fits stage),
      )

  -- A poll in between.
  poll-Tried : (n : ℕ) (w : World) → Tried n w → Tried n (schedule_jobs w).1
  unfolding get_job
  poll-Tried n w t =
      let here = t.tried.0 in
      let seen = row-schedule_jobs laws t.job w t.no_nil (ap (row w.tables) here ∙ t.stored) in
      let (k, e, tried, stage) = polled_row n (w.clock 0) t.job _ seen t.tried t.stage in
      record {
        job = k;
        stored = ap (row (schedule_jobs w).1.tables) (sym here) ∙ e;
        tried = tried;
        stage = stage;
        cached = λ c found. t.cached c (rw (← store-schedule_jobs w) found);
        no_nil = nil-schedule_jobs laws w t.no_nil;
      }

  -- Let a job with an identifier have a type that is unknown, so that it fails every time, and let it
  -- have been tried so often, out of a budget of 3, in its row and in the copy that the cache may
  -- have, no row having the nil identifier. While the database, the writes of the cache and the
  -- encoder are up: after any polls and deliveries of its message, in any order and with no more deliveries than
  -- attempts left, the attempts have grown by the number of deliveries, and the row is PENDING or
  -- RUNNING while they are below 3 and DEAD_LETTER at 3, and what was let of the row and of the copy still holds.
  pub retries_end :
      (cs : CacheService) (msg : Message) (ts : List Turn) (n : ℕ) (w : World)
      → S.parse_uuid msg.value ≡ ok id
      → n + deliveries ts ≤ 3
      → Tried n w
      → Tried (n + deliveries ts) (turns cs msg ts w)
  unfolding turns deliveries
  retries_end cs msg [] n w parsed few t = subst (λ m. Tried m w) (omega arith) t
  retries_end cs msg (polled ∷ ts) n w parsed few t =
      retries_end cs msg ts n (schedule_jobs w).1 parsed few (poll-Tried n w t)
  retries_end cs msg (delivered ∷ ts) n w parsed few t =
      subst (λ m. Tried m (turns cs msg ts (process_job cs msg w).1)) (omega arith)
        (retries_end cs msg ts (suc n) (process_job cs msg w).1 parsed (omega arith)
          (delivery-Tried cs msg n w parsed (omega arith) t))
