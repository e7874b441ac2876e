-- ===== src/System/Identity.antt =====
-- A job keeps its client, its type and its payload for ever.
use parallelis_distributed_e.Base.{
  ℕ, ◌≡◌, ◌≢◌, refl, sym, ◌∙◌, ap, subst, List, [], some, none, Option, Str, Result, ok, err, arith,
}
use parallelis_distributed_e.Model.{Time, Uuid, uuid_nil, JobType, pending, Job}
use parallelis_distributed_e.Services.{
  Services, World, ServiceLaws, Stored, Reply, found, absent, broken,
}
use parallelis_distributed_e.Dto.{JobRequest}
use parallelis_distributed_e.CacheService.{job_cache_key, get_job, decoded, decode_reply}
use parallelis_distributed_e.CacheService.Coherence.{job_cache_key_separate}
use parallelis_distributed_e.JobService.{requested_job}
use parallelis_distributed_e.JobScheduler.{running_job}
use parallelis_distributed_e.JobWorker.{failed_job, completed_job}
use parallelis_distributed_e.Lifecycle.{Invariant}
use parallelis_distributed_e.Lifecycle.Hooked.{id-Stored, request-Stored}
use parallelis_distributed_e.Lifecycle.Stores
use parallelis_distributed_e.System.{Config}
use parallelis_distributed_e.System.Threads.{Thread}
use parallelis_distributed_e.System.Interleaved.{Runs, runs_keep}

-- The job is as it was asked for.
abbrev pub AsAsked : Str → JobType → Str → Job → Type 0
AsAsked client_id type payload j =
    (j.client_id ≡ client_id) × (j.type ≡ type) × (j.payload ≡ payload)

module _ (id : Uuid) (client_id : Str) (type : JobType) (payload : Str) where
  -- A job has an identifier, and if it has this one, it is as asked.
  abbrev pub AsAskedIf : Job → Type 0
  AsAskedIf j = (j.id ≢ uuid_nil) × (j.id ≡ id → AsAsked client_id type payload j)

  AsAskedIf-Stored : {j k : Job} → Stored j k → AsAskedIf j → AsAskedIf k
  AsAskedIf-Stored stored (named, asked) =
      let same = id-Stored stored named in
      let (c, t, p) = request-Stored stored in
      (
        λ e. named (sym same ∙ e),
        λ e. let (c', t', p') = asked (sym same ∙ e) in (c ∙ c', t ∙ t', p ∙ p'),
      )

  AsAskedIf-requested_job :
      (new : Uuid) (at : Time) (c : Str) (request : JobRequest)
      → (new ≢ uuid_nil) × (new ≢ id)
      → AsAskedIf (requested_job new at c request)
  unfolding requested_job
  AsAskedIf-requested_job new at c request (named, other) = (named, λ e. absurd (other e))

  AsAskedIf-running_job :
      (at : Time) (j : Job) → AsAskedIf j → j.status ≡ pending → AsAskedIf (running_job at j)
  unfolding running_job
  AsAskedIf-running_job at j h p = h

  AsAskedIf-completed_job : (at : Time) (j : Job) → AsAskedIf j → AsAskedIf (completed_job at j)
  unfolding completed_job
  AsAskedIf-completed_job at j h = h

  AsAskedIf-failed_job :
      (message : Str) (updated read : Time) (j : Job)
      → AsAskedIf j
      → AsAskedIf (failed_job message updated read j)
  unfolding failed_job
  AsAskedIf-failed_job message updated read j (named, asked) = ground arith

  pub asked_invariant : Invariant AsAskedIf (λ new. (new ≢ uuid_nil) × (new ≢ id))
  asked_invariant = record {
    of_stored = AsAskedIf-Stored;
    of_requested = AsAskedIf-requested_job;
    of_running = AsAskedIf-running_job;
    of_completed = AsAskedIf-completed_job;
    of_failed = AsAskedIf-failed_job;
  }

module _ ⦃S : Services⦄ (laws : ServiceLaws S) where
  open laws use {database.{row}}

  -- The row of a job is the only one with its identifier.
  pub rows_asked :
      (k : Job) (w : World)
      → row w.tables uuid_nil ≡ none
      → row w.tables k.id ≡ some k
      → (i : Uuid) (j : Job) → row w.tables i ≡ some j
      → AsAskedIf k.id k.client_id k.type k.payload j
  rows_asked k w no_nil present i j stored =
      let at : j.id ≡ i = laws.database.row_id w.tables i j stored in
      (
        λ nil. cc (ap (row w.tables) (sym nil ∙ at), no_nil, stored),
        λ same.
            let here : row w.tables k.id ≡ some j = ap (row w.tables) (sym same ∙ at) ∙ stored in
            subst (AsAsked k.client_id k.type k.payload) (the_same _ here present)
              (refl, refl, refl),
      )
    where
      the_same : (o : Option Job) → o ≡ some j → o ≡ some k → k ≡ j
      the_same o p q = cc

module _ ⦃S : Services⦄ (laws : ServiceLaws S) (id : Uuid) (client_id : Str) (type : JobType)
    (payload : Str) where
  abbrev Everywhere : World → Type 0
  Everywhere = Stores.Everywhere laws (asked_invariant id client_id type payload)

  AsAsked-decoded :
      (o : Result Job) (j : Job)
      → decoded o ≡ some j
      → ((k : Job) → o ≡ ok k → AsAsked client_id type payload k)
      → AsAsked client_id type payload j
  unfolding decoded
  AsAsked-decoded (ok k) j e h = h j (cc)
  AsAsked-decoded (err m) j e h = cc

  AsAsked-reply :
      (r : Reply) (j : Job) (w : World)
      → Everywhere w
      → (S.cache.get (job_cache_key id) w.store).0 ≡ r
      → decode_reply r ≡ some j
      → AsAsked client_id type payload j
  unfolding decode_reply
  AsAsked-reply absent j w good e d = cc
  AsAsked-reply (broken m) j w good e d = cc
  AsAsked-reply (found text) j w good e d = AsAsked-decoded (S.unmarshal text) j d (λ k p.
      let ((named, asked), key) =
        Stores.found_sound laws (asked_invariant id client_id type payload) (job_cache_key id) text
          k w good e p in
      asked (sym ((job_cache_key_separate laws id k.id []).0 key)))

module _ ⦃S : Services⦄ (laws : ServiceLaws S) (c : Config) where
  -- Let goroutines of workers and of schedulers, any number of each, make their library calls in any
  -- order, with requests, changes of limits and losses of cache keys in between. If at first a job
  -- has a row, no row has the nil identifier and the cache has no string, and the generator of
  -- identifiers never gives the nil identifier nor that of the job, then at every moment the rows
  -- with the job's identifier have its client, its type and its payload, and so has the job that a
  -- lookup in the cache finds for it.
  pub asked_kept :
      (k : Job) {v w : World} {ts : List Thread}
      → ((n : ℕ) → (v.fresh_ids n ≢ uuid_nil) × (v.fresh_ids n ≢ k.id))
      → ((key : Str) → laws.cache.value v.store key ≡ none)
      → laws.database.row v.tables uuid_nil ≡ none
      → laws.database.row v.tables k.id ≡ some k
      → Runs laws c v ts w
      → ((i : Uuid) (j : Job)
          → laws.database.row w.tables i ≡ some j
          → j.id ≡ k.id
          → AsAsked k.client_id k.type k.payload j)
        × ((j : Job) → (get_job k.id w).0 ≡ some j → AsAsked k.client_id k.type k.payload j)
  unfolding get_job
  asked_kept k {v = v} {w = w} new no_keys no_nil present r =
      let inv = asked_invariant k.id k.client_id k.type k.payload in
      let start =
        Stores.Everywhere-uncached laws inv (rows_asked laws k v no_nil present) no_keys new in
      let good = (runs_keep laws c inv r start).0 in
      (
        λ i j e. (good.rows i j e).1,
        λ j d. AsAsked-reply laws k.id k.client_id k.type k.payload _ j w good refl d,
      )
