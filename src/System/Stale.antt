-- ===== src/System/Stale.antt =====
-- A job that fails every time, while the cache can be read and not written.
use parallelis_distributed_e.Base.{
  ◌+◌, ◌<◌, ◌≡◌, ◌≢◌, refl, sym, ap, ◌∙◌, inl, inr, Bool-cases, lt→ltb, Option, some, none, List,
  [], ◌∷◌, Str, Result, ok, err, ◌==◌, arith,
}
use parallelis_distributed_e.Model.{
  Time, Duration, Uuid, uuid_nil, JobType, payment_process, email_confirmation, pending, other, Job,
}
use parallelis_distributed_e.Services.{Message, Services, World, ServiceLaws, now}
use parallelis_distributed_e.Repository.{save}
use parallelis_distributed_e.CacheService.{
  CacheService, get_job, cache_text, cache_job, invalidate_job, update_job,
}
use parallelis_distributed_e.JobScheduler.{schedule_jobs}
use parallelis_distributed_e.JobWorker.{
  failed_job, unknown_type, process_by_type, process_job_internal, handle_job_failure, or_load,
  fetch_job, settle, run_job, acknowledge, run_found, process_parsed, process_job,
}
use parallelis_distributed_e.JobWorker.Retry.{failed_job_lem}
use parallelis_distributed_e.JobWorker.Fetch.{row-save}
use parallelis_distributed_e.Lifecycle.Hooked.{status-Stored}
use parallelis_distributed_e.System.Turns.{
  Turn, polled, delivered, failed_keeps, turns, store-schedule_jobs, tables-update_job,
}

retried_lem :
    (message : Str) (updated read : Time) (j : Job)
    → j.attempts + 1 < j.max_retries
    → j.max_retries < 33
    → ((failed_job message updated read j).attempts ≡ j.attempts + 1)
      × ((failed_job message updated read j).status ≡ pending)
retried_lem message updated read j left small =
    rw (failed_job_lem message updated read j (omega arith) (omega arith))
      (rw (lt→ltb _ _ left) (refl, refl))

module _ ⦃S : Services⦄ (laws : ServiceLaws S)
    (writes_up : (j : Job) (t : S.database.Tables) → (S.database.save j t).0.0 ≡ none)
    (get_only : (k : Str) (s : S.cache.Store) → (S.cache.get k s).1 ≡ s)
    (no_set : (k v : Str) (d : Duration) (s : S.cache.Store) → (S.cache.set k v d s).1 ≡ s)
    (no_del : (ks : List Str) (s : S.cache.Store) → (S.cache.del ks s).1 ≡ s) (name : Str)
    (c : Job) where
  open laws use {database.{row}}

  store-cache_text :
      (cs : CacheService) (i : Uuid) (r : Result Str) (w : World)
      → (cache_text cs i r w).1.store ≡ w.store
  unfolding cache_text
  store-cache_text cs i (err e) w = refl
  store-cache_text cs i (ok text) w = no_set _ _ _ w.store

  store-update_job :
      (cs : CacheService) (j : Job) (w : World) → (update_job cs j w).1.store ≡ w.store
  unfolding update_job invalidate_job cache_job
  store-update_job cs j w = elim (Bool-cases (j.id == uuid_nil)) [
    | inl unnamed ↦ rw unnamed (no_del _ w.store)
    | inr named ↦ rw named (store-cache_text cs j.id (S.marshal j) _ ∙ no_del _ w.store)
  ]

  -- A failure of the copy.
  failure :
      (cs : CacheService) (message : Str) (w : World)
      → c.id ≢ uuid_nil
      → c.attempts + 1 < c.max_retries
      → c.max_retries < 33
      → ((handle_job_failure cs c message w).1.store ≡ w.store)
        × ((k : Job) × (row (handle_job_failure cs c message w).1.tables c.id ≡ some k)
            × (k.attempts ≡ c.attempts + 1)
            × (k.status ≡ pending))
  unfolding handle_job_failure save
  failure cs message w named left small =
      let read = (now w).1.clock 0 in
      let z = (now (now w).1).1 in
      let copy = failed_job message (w.clock 0) read c in
      let k = (save copy z).0.1 in
      let (same, _, _) = failed_keeps message (w.clock 0) read c in
      let (status_k, attempts_k, _) = status-Stored (laws.database.save_stored copy z.tables) in
      let (count, retried) = retried_lem message (w.clock 0) read c left small in
      (
        store-update_job cs k (save copy z).1,
        (
          k,
          ap (λ t. row t c.id) (tables-update_job cs k (save copy z).1)
              ∙ ap (row (save copy z).1.tables) (sym same)
              ∙ row-save laws writes_up copy z (λ e. named (sym same ∙ e)),
          attempts_k ∙ count,
          status_k ∙ retried,
        ),
      )

  -- The worker takes the copy.
  abbrev pub Kept : World → Type 0
  Kept w = (get_job c.id w).0 ≡ some c

  Kept-store : (w u : World) → u.store ≡ w.store → Kept w → Kept u
  unfolding get_job
  Kept-store w u same k = rw same k

  run_failure :
      (t : JobType) (cs : CacheService) (w : World)
      → t ≡ other name
      → c.id ≢ uuid_nil
      → c.attempts + 1 < c.max_retries
      → c.max_retries < 33
      → let u = (settle cs (process_by_type t cs c w).0 (process_by_type t cs c w).1).1 in
        (u.store ≡ w.store)
        × ((k : Job) × (row u.tables c.id ≡ some k)
            × (k.attempts ≡ c.attempts + 1)
            × (k.status ≡ pending))
  unfolding process_by_type settle
  run_failure payment_process cs w typed named left small = cc
  run_failure email_confirmation cs w typed named left small = cc
  run_failure (other n) cs w typed named left small = failure cs (unknown_type n) w named left small

  found_failure :
      (cs : CacheService) (msg : Message) (o : Option Job) (w : World)
      → o ≡ some c
      → c.type ≡ other name
      → c.id ≢ uuid_nil
      → c.attempts + 1 < c.max_retries
      → c.max_retries < 33
      → let u = (run_found cs msg (or_load cs c.id o w).0 (or_load cs c.id o w).1).1 in
        (u.store ≡ w.store)
        × ((k : Job) × (row u.tables c.id ≡ some k)
            × (k.attempts ≡ c.attempts + 1)
            × (k.status ≡ pending))
  unfolding run_found run_job process_job_internal acknowledge or_load
  found_failure cs msg o w found typed named left small =
      rw found (run_failure c.type cs w typed named left small)

  -- One delivery.
  delivery :
      (cs : CacheService) (msg : Message) (w : World)
      → S.parse_uuid msg.value ≡ ok c.id
      → Kept w
      → c.type ≡ other name
      → c.id ≢ uuid_nil
      → c.attempts + 1 < c.max_retries
      → c.max_retries < 33
      → ((process_job cs msg w).1.store ≡ w.store)
        × ((k : Job) × (row (process_job cs msg w).1.tables c.id ≡ some k)
            × (k.attempts ≡ c.attempts + 1)
            × (k.status ≡ pending))
  unfolding process_job process_parsed fetch_job get_job
  delivery cs msg w parsed kept typed named left small = rw parsed (
      let (same, rest) =
        found_failure cs msg (get_job c.id w).0 (get_job c.id w).1 kept typed named left small in
      (same ∙ get_only _ w.store, rest))

  -- Let the type of a job be unknown, so that it fails every time, and let the cache have a copy of
  -- it with a budget, below 33, of at least two attempts more than it has. While the database is up,
  -- and the cache can be read and changes nothing: after any polls and deliveries of its message,
  -- one more delivery leaves the row PENDING, with one attempt more than the copy has; so however
  -- often the job fails, it never becomes a dead letter.
  pub stale_copy :
      (cs : CacheService) (msg : Message) (ts : List Turn) (w : World)
      → S.parse_uuid msg.value ≡ ok c.id
      → Kept w
      → c.type ≡ other name
      → c.id ≢ uuid_nil
      → c.attempts + 1 < c.max_retries
      → c.max_retries < 33
      → (k : Job) × (row (process_job cs msg (turns cs msg ts w)).1.tables c.id ≡ some k)
        × (k.attempts ≡ c.attempts + 1)
        × (k.status ≡ pending)
  unfolding turns
  stale_copy cs msg [] w parsed kept typed named left small =
      (delivery cs msg w parsed kept typed named left small).1
  stale_copy cs msg (polled ∷ ts) w parsed kept typed named left small =
      stale_copy cs msg ts (schedule_jobs w).1 parsed
        (Kept-store w (schedule_jobs w).1 (store-schedule_jobs w) kept) typed named left small
  stale_copy cs msg (delivered ∷ ts) w parsed kept typed named left small =
      stale_copy cs msg ts (process_job cs msg w).1 parsed
        (Kept-store w (process_job cs msg w).1
          (delivery cs msg w parsed kept typed named left small).0 kept)
        typed named left small
