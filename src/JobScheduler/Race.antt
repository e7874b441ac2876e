-- ===== src/JobScheduler/Race.antt =====
-- A poll marks a job RUNNING after its message is out: what that does to a job that a worker has
-- finished in between.
use parallelis_distributed_e.Base.{◌≡◌, ◌≢◌, refl, ◌∙◌, some, none, ==-refl, ◌==◌, true}
use parallelis_distributed_e.Model.{uuid_nil, running, Job}
use parallelis_distributed_e.Services.{Stored, Services, World, ServiceLaws, now}
use parallelis_distributed_e.Repository.{save}
use parallelis_distributed_e.JobScheduler.{running_job, mark_published}
use parallelis_distributed_e.Lifecycle.Hooked.{id-Stored, status-Stored}

module _ ⦃S : Services⦄ (laws : ServiceLaws S) where
  open laws use {database.{row}}

  -- Let a job with an identifier be published, and let `w` be any world of the time when the
  -- scheduler goes on: the job's row may have been completed there, or failed with an attempt
  -- counted. If the scheduler's save then succeeds, the row has the status RUNNING and the attempts
  -- and completion time of the copy that the poll had read before, whatever the row was.
  pub mark_published_overwrites :
      (j : Job) (w : World)
      → j.id ≢ uuid_nil
      → (save (running_job (now w).0 j) (now w).1).0.0 ≡ none
      → (k : Job) × (row (mark_published j none w).1.tables j.id ≡ some k)
        × (k.status ≡ running)
        × (k.attempts ≡ j.attempts)
        × (k.completed_at ≡ j.completed_at)
  unfolding mark_published save running_job
  mark_published_overwrites j w named done =
      let copy = running_job (now w).0 j in
      let stored = (S.database.save copy w.tables).0.1 in
      let how : Stored copy stored = laws.database.save_stored copy w.tables in
      let same : (stored.id == j.id) ≡ true = rw (id-Stored how named) (==-refl j.id) in
      let (a, b, c) = status-Stored how in
      (stored, laws.database.row-save_ok copy w.tables j.id done ∙ rw same refl, a, b, c)
