-- ===== src/JobWorker/Outcome.antt =====
-- What running a job does to the table.
use parallelis_distributed_e.Base.{
  ◌≡◌, ◌≢◌, refl, ap, ◌∙◌, ◌⊎◌, inl, inr, Option, some, none, Str, ◌==◌, if◌then◌else◌,
  Option-cases,
}
use parallelis_distributed_e.Model.{Uuid, JobType, payment_process, email_confirmation, other, Job}
use parallelis_distributed_e.Services.{Stored, Services, World, ServiceLaws, now}
use parallelis_distributed_e.Repository.{save}
use parallelis_distributed_e.CacheService.{CacheService, update_job}
use parallelis_distributed_e.CacheService.Frame.{frame-update_job}
use parallelis_distributed_e.JobWorker.{
  completed_job, failed_job, save_failed, unknown_type, finish, complete, process_by_type,
  process_job_internal, handle_job_failure, settle, run_job,
}

module _ ⦃S : Services⦄ (laws : ServiceLaws S) where
  open laws use {database.{row}}

  -- The table of `u` is that of `w`; or that of `w` with one job written.
  abbrev pub Same : World → World → Type 0
  Same w u = (id : Uuid) → row u.tables id ≡ row w.tables id

  abbrev pub Wrote : Job → World → World → Type 0
  Wrote k w u = (id : Uuid) → row u.tables id ≡ (if k.id == id then some k else row w.tables id)

  -- The first save of a run, and the save of failure handling.
  abbrev pub first_save : Job → World → (Option Str × Job) × S.database.Tables
  first_save j w = S.database.save (completed_job (w.clock 0) j) w.tables

  abbrev pub second_save : Str → Job → World → (Option Str × Job) × S.database.Tables
  second_save e j w =
      S.database.save (failed_job (save_failed e) (w.clock 1) (w.clock 2) (first_save j w).0.1)
        (first_save j w).1

  abbrev pub refusal_save : Str → Job → World → (Option Str × Job) × S.database.Tables
  refusal_save name j w =
      S.database.save (failed_job (unknown_type name) (w.clock 0) (w.clock 1) j) w.tables

  abbrev pub IsKnown : Job → Type 0
  IsKnown j = (name : Str) → j.type ≢ other name

  -- What a run of `j` may do: the calls of the database that it makes, with their results, and the
  -- rows after.
  pub data Ran (j : Job) (w u : World) : Type 0 where
    completes :
        IsKnown j
        → (first_save j w).0.0 ≡ none
        → u.tables ≡ (first_save j w).1
        → Stored (completed_job (w.clock 0) j) (first_save j w).0.1
        → Wrote (first_save j w).0.1 w u
        → Ran j w u
    retries :
        (e : Str)
        → IsKnown j
        → (first_save j w).0.0 ≡ some e
        → (second_save e j w).0.0 ≡ none
        → u.tables ≡ (second_save e j w).1
        → Wrote (second_save e j w).0.1 w u
        → Ran j w u
    loses :
        (e x : Str)
        → IsKnown j
        → (first_save j w).0.0 ≡ some e
        → (second_save e j w).0.0 ≡ some x
        → u.tables ≡ (second_save e j w).1
        → Same w u
        → Ran j w u
    refuses :
        (name : Str)
        → j.type ≡ other name
        → (refusal_save name j w).0.0 ≡ none
        → u.tables ≡ (refusal_save name j w).1
        → Wrote (refusal_save name j w).0.1 w u
        → Ran j w u
    drops :
        (name x : Str)
        → j.type ≡ other name
        → (refusal_save name j w).0.0 ≡ some x
        → u.tables ≡ (refusal_save name j w).1
        → Same w u
        → Ran j w u

  -- A save over rows that are those of `w`, by its result; `u` has the tables that it leaves.
  Saved : Job → S.database.Tables → World → World → Type 0
  Saved i t w u =
      (((S.database.save i t).0.0 ≡ none) × Wrote (S.database.save i t).0.1 w u)
      ⊎ ((e : Str) × ((S.database.save i t).0.0 ≡ some e) × Same w u)

  save_cases :
      (i : Job) (t : S.database.Tables) (w u : World)
      → ((id : Uuid) → row t id ≡ row w.tables id)
      → u.tables ≡ (S.database.save i t).1
      → Saved i t w u
  unfolding Saved
  save_cases i t w u rows after =
      let here = λ (id : Uuid). ap (λ v. row v id) after in
      elim (Option-cases (S.database.save i t).0.0) [
        | inl done ↦ inl (
          done,
          λ id.
              here id
              ∙ laws.database.row-save_ok i t id done
              ∙ ap
                  (λ o.
                    if (S.database.save i t).0.1.id == id
                    then some (S.database.save i t).0.1
                    else o)
                  (rows id),
        )
        | inr (e, failed) ↦
            inr (e, failed, λ id. here id ∙ laws.database.row-save_err i t id e failed ∙ rows id)
      ]

  tables-update_job :
      (cs : CacheService) (j : Job) (w : World) → (update_job cs j w).1.tables ≡ w.tables
  tables-update_job cs j w = ap (λ (u : World). u.tables) (frame-update_job cs j w)

  -- Failure handling makes one save.
  tables-handle_job_failure :
      (cs : CacheService) (i : Job) (message : Str) (v : World)
      → (handle_job_failure cs i message v).1.tables
        ≡ (S.database.save (failed_job message (v.clock 0) (v.clock 1) i) v.tables).1
  unfolding handle_job_failure save
  tables-handle_job_failure cs i message v = tables-update_job cs _ _

  -- The world after the first save.
  abbrev saved_world : Job → World → World
  saved_world j w = (save (completed_job (w.clock 0) j) (now w).1).1

  failed-Ran :
      (cs : CacheService) (j : Job) (w : World) (e : Str)
      → IsKnown j
      → (first_save j w).0.0 ≡ some e
      → Ran j w (handle_job_failure cs (first_save j w).0.1 (save_failed e) (saved_world j w)).1
  unfolding Saved save
  failed-Ran cs j w e known failed =
      let after =
        tables-handle_job_failure cs (first_save j w).0.1 (save_failed e) (saved_world j w) in
      elim (save_cases _ (first_save j w).1 w
        (handle_job_failure cs (first_save j w).0.1 (save_failed e) (saved_world j w)).1
        (λ id. laws.database.row-save_err _ w.tables id e failed) after) [
          | inl (done, wrote) ↦ retries e known failed done after wrote
          | inr (x, again, same) ↦ loses e x known failed again after same
        ]

  finished :
      (cs : CacheService) (j : Job) (w : World) (o : Option Str)
      → IsKnown j
      → (first_save j w).0.0 ≡ o
      → Ran j w
          (settle cs
            (finish cs (o, (first_save j w).0.1) (saved_world j w)).0
            (finish cs (o, (first_save j w).0.1) (saved_world j w)).1).1
  unfolding finish settle save Saved
  finished cs j w none known done =
      let after = tables-update_job cs (first_save j w).0.1 (saved_world j w) in
      elim (save_cases _ w.tables w (update_job cs (first_save j w).0.1 (saved_world j w)).1
        (λ id. refl) after) [
          | inl (fine, wrote) ↦
              completes known done after (laws.database.save_stored _ w.tables) wrote
          | inr (x, failed, same) ↦ cc
        ]
  finished cs j w (some e) known failed = failed-Ran cs j w e known failed

  completed-Ran :
      (cs : CacheService) (j : Job) (w : World)
      → IsKnown j
      → Ran j w (settle cs (complete cs j w).0 (complete cs j w).1).1
  unfolding complete save
  completed-Ran cs j w known = finished cs j w (first_save j w).0.0 known refl

  refused-Ran :
      (cs : CacheService) (name : Str) (j : Job) (w : World)
      → j.type ≡ other name
      → Ran j w (settle cs (some (unknown_type name), j) w).1
  unfolding settle Saved
  refused-Ran cs name j w unknown =
      let after = tables-handle_job_failure cs j (unknown_type name) w in
      elim (save_cases _ w.tables w (handle_job_failure cs j (unknown_type name) w).1 (λ id. refl)
        after) [
          | inl (done, wrote) ↦ refuses name unknown done after wrote
          | inr (x, failed, same) ↦ drops name x unknown failed after same
        ]

  type-Ran :
      (t : JobType) (cs : CacheService) (j : Job) (w : World)
      → j.type ≡ t
      → Ran j w (settle cs (process_by_type t cs j w).0 (process_by_type t cs j w).1).1
  unfolding process_by_type
  type-Ran payment_process cs j w e = completed-Ran cs j w (λ name f. cc)
  type-Ran email_confirmation cs j w e = completed-Ran cs j w (λ name f. cc)
  type-Ran (other name) cs j w e = refused-Ran cs name j w e

  -- Running a job of a known type saves it COMPLETED at the first reading of the clock. If that save
  -- succeeds, the database is as it leaves it, and exactly that job was written. If it fails, a
  -- second save follows, of what failure handling makes, with the message of the failed save and the
  -- next two readings, of the job that the first left in memory; it is written, or that save failed
  -- too and every row is as before. Running a job of another type makes one save, of what failure
  -- handling makes of the job; it is written, or that save failed and every row is as before. The
  -- database is then as the last of these saves leaves it.
  pub run_job_outcome : (cs : CacheService) (j : Job) (w : World) → Ran j w (run_job cs j w).1
  unfolding run_job process_job_internal
  run_job_outcome cs j w = type-Ran j.type cs j w refl
