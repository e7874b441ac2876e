-- ===== src/System/Changes.antt =====
-- What can change the row of a job.
use parallelis_distributed_e.Base.{
  ℕ, ◌≡◌, ◌≢◌, refl, sym, ap, ◌∙◌, subst, inl, inr, Bool-cases, Option-cases, Option, some, none,
  true, false, Str, Result, ok, err, ◌==◌, ==→eq, arith,
}
use parallelis_distributed_e.Model.{Time, Uuid, uuid_nil, pending, Job}
use parallelis_distributed_e.Services.{
  Condition, matches, Stored, Message, Services, World, ServiceLaws,
}
use parallelis_distributed_e.Dto.{JobRequest}
use parallelis_distributed_e.JobService.{requested_job}
use parallelis_distributed_e.RateLimitService.{reset_rate_limit}
use parallelis_distributed_e.JobWorker.{completed_job, process_job}
use parallelis_distributed_e.JobScheduler.{running_job, schedule_jobs}
use parallelis_distributed_e.JobScheduler.Poll.{due, Scheduled, kept, marked, row-schedule_jobs}
use parallelis_distributed_e.Lifecycle.{Invariant}
use parallelis_distributed_e.Lifecycle.Stores
use parallelis_distributed_e.Lifecycle.Polls
use parallelis_distributed_e.Lifecycle.Hooked.{id-Stored}
use parallelis_distributed_e.System.{
  Config, Action, post, get_one, get_list, get_stats, poll, deliver, clear_caches, reset_limit,
  perform, Reach,
}
use parallelis_distributed_e.System.Soundness.{Reach-Everywhere}
use parallelis_distributed_e.System.Foreign.{id-failed_job, row-process_job}
use parallelis_distributed_e.System.Rows.{
  row-create_job_handler, row-get_job_handler, row-get_jobs_by_client_handler,
  row-get_stats_handler, row-clear_all_job_caches,
}

module _ ⦃S : Services⦄ where
  -- What an action makes of the row `k` of a job: nothing; or a poll schedules it; or the action is
  -- the delivery of its message.
  pub data Changed (id : Uuid) (k : Job) (a : Action) (o : Option Job) : Type 0 where
    same : o ≡ some k → Changed id k a o
    scheduled :
        (at : Time) (i : Job)
        → (k.status ≡ pending) × (a ≡ poll)
        → Stored (running_job at k) i
        → o ≡ some i
        → Changed id k a o
    handled : (msg : Message) → a ≡ deliver msg → S.parse_uuid msg.value ≡ ok id → Changed id k a o

module _ ⦃S : Services⦄ (laws : ServiceLaws S) (c : Config) (id : Uuid) {P : Job → Type 0}
    {Fresh : Uuid → Type 0} (inv : Invariant P Fresh) (named : (j : Job) → P j → j.id ≢ uuid_nil)
    (new : (n : Uuid) → Fresh n → (n ≢ uuid_nil) × (n ≢ id)) where
  open laws use {database.{row}}

  abbrev Everywhere : World → Type 0
  Everywhere = Stores.Everywhere laws inv

  Changed-process_job :
      (msg : Message) (k : Job) (w : World)
      → Everywhere w
      → row w.tables id ≡ some k
      → (r : Result Uuid) → S.parse_uuid msg.value ≡ r
      → Changed id k (deliver msg) (row (process_job c.cache msg w).1.tables id)
  Changed-process_job msg k w good stored (err e) parsed =
      same (row-process_job laws inv named c.cache id msg w good (λ p. cc) ∙ stored)
  Changed-process_job msg k w good stored (ok own) parsed = elim (Bool-cases (own == id)) [
    | inl mine ↦ handled msg refl (parsed ∙ ap ok (==→eq own id mine))
    | inr apart ↦ same (
        row-process_job laws inv named c.cache id msg w good (λ p. not_mine (sym parsed ∙ p) apart)
        ∙ stored)
  ]
    where
      not_mine : ◌≡◌ {A = Result Uuid} (ok own) (ok id) → (own == id) ≡ false → ⊥
      not_mine p apart = ground arith

  no_nil_row : (w : World) → Everywhere w → row w.tables uuid_nil ≡ none
  no_nil_row w good = elim (Option-cases (row w.tables uuid_nil)) [
    | inl nothing ↦ nothing
    | inr (j, stored) ↦
        absurd
          (named j (good.rows uuid_nil j stored) (laws.database.row_id w.tables uuid_nil j stored))
  ]

  Changed-Scheduled :
      (k : Job) (o : Option Job) (cond : Condition)
      → (matches cond k ≡ true → k.status ≡ pending)
      → Scheduled cond k o
      → Changed id k poll o
  Changed-Scheduled k o cond waits (kept e) = same e
  Changed-Scheduled k o cond waits (marked at i fits how e) =
      scheduled at i (waits fits, refl) how e

  pub Changed-perform :
      (a : Action) (k : Job) (w : World)
      → Everywhere w
      → row w.tables id ≡ some k
      → Changed id k a (row (perform c a w).tables id)
  unfolding perform reset_rate_limit
  Changed-perform (post a bound) k w good stored = same (
      row-create_job_handler laws id c.limits a bound w (new (w.fresh_ids 0) (good.fresh 0))
      ∙ stored)
  Changed-perform (get_one id_text) k w good stored =
      same (row-get_job_handler laws id id_text w ∙ stored)
  Changed-perform (get_list a) k w good stored =
      same (row-get_jobs_by_client_handler laws id a w ∙ stored)
  Changed-perform get_stats k w good stored = same (row-get_stats_handler laws id w ∙ stored)
  Changed-perform poll k w good stored =
      let here = laws.database.row_id w.tables id k stored in
      Changed-Scheduled k _ (due laws (w.clock 0)) (Polls.pending_of_due (w.clock 0) k) (
        subst (λ i. Scheduled (due laws (w.clock 0)) k (row (schedule_jobs w).1.tables i)) here
          (row-schedule_jobs laws k w (no_nil_row w good) (ap (row w.tables) here ∙ stored)))
  Changed-perform (deliver msg) k w good stored = Changed-process_job msg k w good stored _ refl
  Changed-perform clear_caches k w good stored = same (row-clear_all_job_caches laws id w ∙ stored)
  Changed-perform (reset_limit a) k w good stored = same stored

named_request :
    {id : Uuid} (new : Uuid) (at : Time) (client_id : Str) (request : JobRequest)
    → (new ≢ uuid_nil) × (new ≢ id)
    → (requested_job new at client_id request).id ≢ uuid_nil
unfolding requested_job
named_request new at client_id request (named, other) = named

named_running :
    (at : Time) (j : Job) → j.id ≢ uuid_nil → j.status ≡ pending → (running_job at j).id ≢ uuid_nil
unfolding running_job
named_running at j named waits = named

named_completed : (at : Time) (j : Job) → j.id ≢ uuid_nil → (completed_job at j).id ≢ uuid_nil
unfolding completed_job
named_completed at j named = named

-- Every job has an identifier.
named_invariant : (id : Uuid) → Invariant (λ j. j.id ≢ uuid_nil) (λ n. (n ≢ uuid_nil) × (n ≢ id))
named_invariant id = record {
  of_stored = λ stored named e. named (sym (id-Stored stored named) ∙ e);
  of_requested = named_request;
  of_running = named_running;
  of_completed = named_completed;
  of_failed =
      λ message updated read j named e. named (sym (id-failed_job message updated read j) ∙ e);
}

module _ ⦃S : Services⦄ (laws : ServiceLaws S) (c : Config) where
  open laws use {database.{row}}

  nameless :
      (w : World) (i : Uuid) (j : Job)
      → row w.tables uuid_nil ≡ none
      → row w.tables i ≡ some j
      → j.id ≢ uuid_nil
  nameless w i j no_nil stored nil =
      cc (ap (row w.tables) (sym nil ∙ laws.database.row_id w.tables i j stored), no_nil, stored)

  -- Let no row have the nil identifier and the cache have no string, and let the generator of
  -- identifiers never give the nil identifier nor that of a job. After any run of requests, polls
  -- and deliveries, with losses of cache keys in between and whatever fails, an action leaves the
  -- row of the job as it is; or it is a poll, the job was PENDING, and its row is as a save leaves
  -- the RUNNING copy of it; or it is the delivery of a message of this job.
  pub row_changes :
      (id : Uuid) (a : Action) (k : Job) {v w : World}
      → ((n : ℕ) → (v.fresh_ids n ≢ uuid_nil) × (v.fresh_ids n ≢ id))
      → ((key : Str) → laws.cache.value v.store key ≡ none)
      → row v.tables uuid_nil ≡ none
      → Reach laws c v w
      → row w.tables id ≡ some k
      → Changed id k a (row (perform c a w).tables id)
  row_changes id a k {v = v} {w = w} new no_keys no_nil r stored =
      Changed-perform laws c id (named_invariant id) (λ j h. h) (λ n h. h) a k w
        (Reach-Everywhere laws c (named_invariant id) r (
          Stores.Everywhere-uncached laws (named_invariant id)
            (λ i j present. nameless v i j no_nil present) no_keys new))
        stored
