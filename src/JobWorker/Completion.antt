-- ===== src/JobWorker/Completion.antt =====
-- A delivery while the database is up.
use parallelis_distributed_e.Base.{
  ℕ, ◌≡◌, ◌≢◌, refl, sym, ap, ◌∙◌, true, Option, some, none, Str, Result, ok, err, subst,
}
use parallelis_distributed_e.Model.{
  Time, Uuid, uuid_nil, JobType, payment_process, email_confirmation, other, Job, completed,
}
use parallelis_distributed_e.Services.{
  Condition, matches, Message, Services, World, ServiceLaws, now,
}
use parallelis_distributed_e.Repository.{save}
use parallelis_distributed_e.CacheService.{CacheService, get_job}
use parallelis_distributed_e.CacheService.Frame.{frame-update_job}
use parallelis_distributed_e.JobWorker.{
  completed_job, finish, complete, process_by_type, process_job_internal, or_load, fetch_job,
  settle, run_job, acknowledge, run_found, process_parsed, process_job,
}
use parallelis_distributed_e.JobWorker.Fetch.{row-save, or_load_lem, clock-or_load}
use parallelis_distributed_e.Lifecycle.Hooked.{status-Stored}

module _ ⦃S : Services⦄ (laws : ServiceLaws S)
    (reads_up : (c : Condition) (t : S.database.Tables) (e : Str) (j : Job)
      → (S.database.first c t).0 ≡ err e
      → matches c j ≡ true
      → laws.database.row t j.id ≢ some j)
    (writes_up : (j : Job) (t : S.database.Tables) → (S.database.save j t).0.0 ≡ none) where
  open laws use {database.{row}}

  row-finish :
      (cs : CacheService) (saved : Option Str × Job) (v : World) (id : Uuid)
      → saved.0 ≡ none
      → row (settle cs (finish cs saved v).0 (finish cs saved v).1).1.tables id ≡ row v.tables id
  unfolding settle finish
  row-finish cs (none, j) v id e = ap (λ (u : World). row u.tables id) (frame-update_job cs j v)
  row-finish cs (some x, j) v id e = cc

  -- The row of the job `j` is COMPLETED at a time in `w`.
  abbrev pub Done : Time → Job → World → Type 0
  Done at j w =
      (k : Job) × (row w.tables j.id ≡ some k)
      × (k.status ≡ completed)
      × (k.completed_at ≡ some at)
      × (k.attempts ≡ j.attempts)

  complete-Done :
      (cs : CacheService) (j : Job) (w : World)
      → j.id ≢ uuid_nil
      → Done (w.clock 0) j (settle cs (complete cs j w).0 (complete cs j w).1).1
  unfolding complete save completed_job
  complete-Done cs j w named =
      let copy = completed_job (w.clock 0) j in
      let saved = save copy (now w).1 in
      let (a, b, c) = status-Stored (laws.database.save_stored copy w.tables) in
      (
        saved.0.1,
        row-finish cs saved.0 saved.1 j.id (writes_up copy w.tables)
            ∙ row-save laws writes_up copy (now w).1 named,
        a,
        c,
        b,
      )

  type-Done :
      (t : JobType) (cs : CacheService) (j : Job) (w : World)
      → ((name : Str) → t ≢ other name)
      → j.id ≢ uuid_nil
      → Done (w.clock 0) j (settle cs (process_by_type t cs j w).0 (process_by_type t cs j w).1).1
  unfolding process_by_type
  type-Done payment_process cs j w known named = complete-Done cs j w named
  type-Done email_confirmation cs j w known named = complete-Done cs j w named
  type-Done (other name) cs j w known named = absurd (known name refl)

  run_found-Done :
      (cs : CacheService) (msg : Message) (j : Job) (w : World) (o : Option Job)
      → o ≡ some j
      → ((name : Str) → j.type ≢ other name)
      → j.id ≢ uuid_nil
      → Done (w.clock 0) j (run_found cs msg o w).1
  unfolding run_found run_job process_job_internal acknowledge
  run_found-Done cs msg j w o found known named = rw found (type-Done j.type cs j w known named)

  -- What the cache has of the job, if anything, is that job with its type.
  abbrev pub Agrees : Job → World → Type 0
  Agrees k w = (c : Job) → (get_job k.id w).0 ≡ some c → (c.id ≡ k.id) × (c.type ≡ k.type)

  pub process_parsed-Done :
      (cs : CacheService) (msg : Message) (k : Job) (w : World) (r : Result Uuid)
      → r ≡ ok k.id
      → row w.tables k.id ≡ some k
      → Agrees k w
      → ((name : Str) → k.type ≢ other name)
      → k.id ≢ uuid_nil
      → (c : Job) × (c.id ≡ k.id) × Done (w.clock 0) c (process_parsed cs msg r w).1
  unfolding process_parsed fetch_job get_job
  process_parsed-Done cs msg k w r parsed stored agrees known named =
      let (c, fetched, likeness) =
        or_load_lem laws reads_up (λ c. (c.id ≡ k.id) × (c.type ≡ k.type)) cs k (get_job k.id w).0
          (get_job k.id w).1 stored (refl, refl) agrees in
      let (same, typed) = likeness in
      (
        c,
        same,
        subst (λ q. Done (w.clock 0) c (process_parsed cs msg q w).1) (sym parsed)
            (subst
              (λ (f : ℕ → Time).
                Done (f 0) c
                  (run_found cs msg (or_load cs k.id (get_job k.id w).0 (get_job k.id w).1).0
                    (or_load cs k.id (get_job k.id w).0 (get_job k.id w).1).1).1)
              (clock-or_load cs k.id (get_job k.id w).0 (get_job k.id w).1)
              (run_found-Done cs msg c _ _ fetched (λ name e. known name (sym typed ∙ e))
                (λ e. named (sym same ∙ e)))),
      )

  -- Let the row of a job have an identifier, and the job a known type; the row may have any status,
  -- also COMPLETED or DEAD_LETTER. While the database is up, and if the cache has the job with its
  -- type or nothing under its key, then a worker that handles a message of the job runs it: the row
  -- is COMPLETED at the first reading of the clock. So a message that is delivered twice runs its
  -- job twice.
  pub delivered_again :
      (cs : CacheService) (msg : Message) (k : Job) (w : World)
      → S.parse_uuid msg.value ≡ ok k.id
      → row w.tables k.id ≡ some k
      → Agrees k w
      → ((name : Str) → k.type ≢ other name)
      → k.id ≢ uuid_nil
      → (i : Job) × (row (process_job cs msg w).1.tables k.id ≡ some i)
        × (i.status ≡ completed)
        × (i.completed_at ≡ some (w.clock 0))
  unfolding process_job
  delivered_again cs msg k w parsed stored agrees known named =
      let (c, same, done) = process_parsed-Done cs msg k w _ parsed stored agrees known named in
      let (i, e, a, b, _) = done in
      (i, ap (row (process_job cs msg w).1.tables) (sym same) ∙ e, a, b)
