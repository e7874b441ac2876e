-- ===== src/JobWorker/LateRetry.antt =====
-- A retry of a job whose completion could not be saved.
use parallelis_distributed_e.Base.{
  ◌≡◌, ◌≢◌, ◌∙◌, sym, ap, refl, ◌<◌, none, some, Str, ltb, arith, true, lt→ltb, ◌+◌, ◌==◌, ==-refl,
}
use parallelis_distributed_e.Model.{uuid_nil, pending, Time, Job}
use parallelis_distributed_e.Services.{Stored, Services, World, ServiceLaws}
use parallelis_distributed_e.CacheService.{CacheService}
use parallelis_distributed_e.Lifecycle.Hooked.{id-Stored, status-Stored, max_retries-Stored}
use parallelis_distributed_e.JobWorker.{completed_job, failed_job, save_failed, run_job}
use parallelis_distributed_e.JobWorker.Outcome.{
  Ran, first_save, second_save, IsKnown, completes, retries, loses, refuses, drops, run_job_outcome,
}
use parallelis_distributed_e.JobWorker.Retry.{failed_job_lem}

kept_id :
    (message : Str) (updated read : Time) (j : Job) → (failed_job message updated read j).id ≡ j.id
unfolding failed_job
kept_id message updated read j = ground arith

-- What the two saves make of the status and of the completion time.
unsaved_completion :
    (j : Job) (e : Str) (at updated read : Time) (i k : Job)
    → j.attempts < 2
    → j.max_retries ≡ 3
    → Stored (completed_job at j) i
    → Stored (failed_job (save_failed e) updated read i) k
    → (k.status ≡ pending) × (k.completed_at ≡ some at)
unfolding completed_job
unsaved_completion j e at updated read i k few budget first again =
    let (s1, a1, c1) = status-Stored first in
    let (s2, a2, c2) = status-Stored again in
    let m = max_retries-Stored first budget in
    let f = failed_job_lem (save_failed e) updated read i (omega (arith, a1)) (omega (arith, m)) in
    let left : ltb (i.attempts + 1) i.max_retries ≡ true = lt→ltb _ _ (omega (arith, a1, m)) in
    (
      s2 ∙ ap (λ (x : Job). x.status) f ∙ rw left refl,
      c2 ∙ ap (λ (x : Job). x.completed_at) f ∙ rw left c1,
    )

module _ ⦃S : Services⦄ (laws : ServiceLaws S) where
  open laws use {database.{row}}

  late_id :
      (j : Job) (e : Str) (w : World) → j.id ≢ uuid_nil → (second_save laws e j w).0.1.id ≡ j.id
  unfolding completed_job
  late_id j e w named =
      let first = id-Stored (laws.database.save_stored _ w.tables) named in
      let same =
        kept_id (save_failed e) (w.clock 1) (w.clock 2) (first_save laws j w).0.1 ∙ first in
      id-Stored (laws.database.save_stored _ _) (λ nil. named (sym same ∙ nil)) ∙ same

  late_outcome :
      (j : Job) (e : Str) (w u : World)
      → IsKnown laws j
      → j.id ≢ uuid_nil
      → j.attempts < 2
      → j.max_retries ≡ 3
      → (first_save laws j w).0.0 ≡ some e
      → (second_save laws e j w).0.0 ≡ none
      → Ran laws j w u
      → (k : Job) × (row u.tables j.id ≡ some k)
        × (k.status ≡ pending)
        × (k.completed_at ≡ some (w.clock 0))
  late_outcome j e w u known named few budget lost saved (completes _ fine _ _ _) = cc
  late_outcome j e w u known named few budget lost saved (retries x _ failed done _ wrote) =
      let here : ((second_save laws x j w).0.1.id == j.id) ≡ true =
        rw (late_id j x w named) (==-refl j.id) in
      let (status, at) =
        unsaved_completion j x (w.clock 0) (w.clock 1) (w.clock 2) (first_save laws j w).0.1
          (second_save laws x j w).0.1 few budget (laws.database.save_stored _ _)
          (laws.database.save_stored _ _) in
      ((second_save laws x j w).0.1, wrote j.id ∙ rw here refl, status, at)
  late_outcome j e w u known named few budget lost saved (loses x y _ failed again _ _) = cc
  late_outcome j e w u known named few budget lost saved (refuses name type _ _ _) =
      absurd (known name type)
  late_outcome j e w u known named few budget lost saved (drops name x type _ _ _) =
      absurd (known name type)

  -- The worker marks the job in its memory COMPLETED before it saves it, and if the save fails it
  -- marks the same job for a retry. Let a job with an identifier and a known type have had fewer
  -- than two attempts of a budget of 3. If the save of its completion fails and that of its failure
  -- succeeds, then running it leaves its row PENDING, with the completion time of the run that could
  -- not be saved.
  pub retried_with_completion_time :
      (cs : CacheService) (j : Job) (e : Str) (w : World)
      → IsKnown laws j
      → j.id ≢ uuid_nil
      → j.attempts < 2
      → j.max_retries ≡ 3
      → (first_save laws j w).0.0 ≡ some e
      → (second_save laws e j w).0.0 ≡ none
      → (k : Job) × (row (run_job cs j w).1.tables j.id ≡ some k)
        × (k.status ≡ pending)
        × (k.completed_at ≡ some (w.clock 0))
  retried_with_completion_time cs j e w known named few budget lost saved =
      late_outcome j e w _ known named few budget lost saved (run_job_outcome laws cs j w)
