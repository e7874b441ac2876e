-- ===== src/System/Completed.antt =====
-- A job whose message is delivered is done for good, while the database is up.
use parallelis_distributed_e.Base.{
  ◌≡◌, ◌≢◌, sym, ap, ◌∙◌, subst, true, some, none, List, [], ◌∷◌, Memᴰ, Str, ok, err, ℕ,
}
use parallelis_distributed_e.Model.{Uuid, uuid_nil, JobType, other, completed, Job}
use parallelis_distributed_e.Services.{Condition, matches, Message, Services, World, ServiceLaws}
use parallelis_distributed_e.JobWorker.{process_job}
use parallelis_distributed_e.JobWorker.Completion.{Agrees, delivered_again}
use parallelis_distributed_e.Lifecycle.Stores
use parallelis_distributed_e.System.{Config, Action, deliver, perform, perform_all}
use parallelis_distributed_e.System.Soundness.{perform-Everywhere}
use parallelis_distributed_e.System.Identity.{asked_invariant, rows_asked}
use parallelis_distributed_e.System.Changes.{Changed, same, scheduled, handled, Changed-perform}
use parallelis_distributed_e.System.Foreign.{Its-get_job}

module _ ⦃S : Services⦄ (laws : ServiceLaws S)
    (reads_up : (c : Condition) (t : S.database.Tables) (e : Str) (j : Job)
      → (S.database.first c t).0 ≡ err e
      → matches c j ≡ true
      → laws.database.row t j.id ≢ some j)
    (writes_up : (j : Job) (t : S.database.Tables) → (S.database.save j t).0.0 ≡ none) (c : Config)
    (id : Uuid) (client_id : Str) (type : JobType) (payload : Str) where
  open laws use {database.{row}}

  abbrev Everywhere : World → Type 0
  Everywhere = Stores.Everywhere laws (asked_invariant id client_id type payload)

  -- The row is the job's, and the cache agrees.
  its_row :
      (k : Job) (w : World)
      → Everywhere w
      → row w.tables id ≡ some k
      → (k.id ≡ id) × (k.type ≡ type) × (k.id ≢ uuid_nil) × Agrees laws reads_up writes_up k w
  its_row k w good stored =
      let here = laws.database.row_id w.tables id k stored in
      let (named, asked) = good.rows id k stored in
      let typed = (asked here).1 in
      (
        here,
        typed,
        named,
        λ j found.
            let ((_, likeness), there) =
              Its-get_job laws (asked_invariant id client_id type payload) k.id w good j found in
            (there, (likeness (there ∙ here)).1 ∙ sym typed),
      )

  own_delivery :
      (msg : Message) (k : Job) (w : World)
      → ((name : Str) → type ≢ other name)
      → Everywhere w
      → row w.tables id ≡ some k
      → S.parse_uuid msg.value ≡ ok id
      → (i : Job) × (row (process_job c.cache msg w).1.tables id ≡ some i) × (i.status ≡ completed)
  own_delivery msg k w known good stored parsed =
      let (here, typed, named, agrees) = its_row k w good stored in
      let (i, after, status, _) =
        delivered_again laws reads_up writes_up c.cache msg k w (parsed ∙ ap ok (sym here))
          (ap (row w.tables) here ∙ stored) agrees (λ name e. known name (sym typed ∙ e)) named in
      (i, ap (row (process_job c.cache msg w).1.tables) (sym here) ∙ after, status)

  -- The job has a row; or a COMPLETED row.
  abbrev pub Stands : World → Type 0
  Stands w = (k : Job) × (row w.tables id ≡ some k)

  abbrev pub IsDone : World → Type 0
  IsDone w = (k : Job) × (row w.tables id ≡ some k) × (k.status ≡ completed)

  pub row-perform :
      (a : Action) (k : Job) (w : World)
      → Everywhere w
      → row w.tables id ≡ some k
      → Changed id k a (row (perform c a w).tables id)
  row-perform a k w good stored =
      Changed-perform laws c id (asked_invariant id client_id type payload) (λ j h. h.0) (λ n h. h)
        a k w good stored

  pub performed :
      (msg : Message) (k : Job) (w : World)
      → ((name : Str) → type ≢ other name)
      → Everywhere w
      → row w.tables id ≡ some k
      → S.parse_uuid msg.value ≡ ok id
      → IsDone (perform c (deliver msg) w)
  unfolding perform
  performed msg k w known good stored parsed = own_delivery msg k w known good stored parsed

  pub Stands-perform :
      (a : Action) (k : Job) (w : World)
      → ((name : Str) → type ≢ other name)
      → Everywhere w
      → row w.tables id ≡ some k
      → Changed id k a (row (perform c a w).tables id)
      → Stands (perform c a w)
  Stands-perform a k w known good stored (same e) = (k, e)
  Stands-perform a k w known good stored (scheduled at i waits how e) = (i, e)
  Stands-perform a k w known good stored (handled msg own parsed) =
      let (i, e, status) =
        subst (λ b. IsDone (perform c b w)) (sym own)
          (performed msg k w known good stored parsed) in
      (i, e)

  pub IsDone-perform :
      (a : Action) (k : Job) (w : World)
      → ((name : Str) → type ≢ other name)
      → Everywhere w
      → row w.tables id ≡ some k
      → k.status ≡ completed
      → Changed id k a (row (perform c a w).tables id)
      → IsDone (perform c a w)
  IsDone-perform a k w known good stored finished (same e) = (k, e, finished)
  IsDone-perform a k w known good stored finished (scheduled at i waits how e) = cc
  IsDone-perform a k w known good stored finished (handled msg own parsed) =
      subst (λ b. IsDone (perform c b w)) (sym own) (performed msg k w known good stored parsed)

  IsDone-perform_all :
      (actions : List Action) (w : World)
      → ((name : Str) → type ≢ other name)
      → Everywhere w
      → IsDone w
      → IsDone (perform_all c actions w)
  unfolding perform_all
  IsDone-perform_all [] w known good finished = finished
  IsDone-perform_all (a ∷ rest) w known good (k, stored, status) =
      IsDone-perform_all rest (perform c a w) known
        (perform-Everywhere laws c (asked_invariant id client_id type payload) a w good)
        (IsDone-perform a k w known good stored status (row-perform a k w good stored))

  delivered-IsDone :
      (msg : Message) (actions : List Action) (w : World)
      → ((name : Str) → type ≢ other name)
      → Everywhere w
      → Stands w
      → Memᴰ (deliver msg) actions
      → S.parse_uuid msg.value ≡ ok id
      → IsDone (perform_all c actions w)
  unfolding perform_all
  delivered-IsDone msg [] w known good stands m parsed = elim m [ ]
  delivered-IsDone msg (a ∷ rest) w known good (k, stored) (Memᴰ.head e) parsed =
      IsDone-perform_all rest (perform c a w) known
        (perform-Everywhere laws c (asked_invariant id client_id type payload) a w good)
        (subst (λ b. IsDone (perform c b w)) e (performed msg k w known good stored parsed))
  delivered-IsDone msg (a ∷ rest) w known good (k, stored) (Memᴰ.tail m) parsed =
      delivered-IsDone msg rest (perform c a w) known
        (perform-Everywhere laws c (asked_invariant id client_id type payload) a w good)
        (Stands-perform a k w known good stored (row-perform a k w good stored)) m parsed

module _ ⦃S : Services⦄ (laws : ServiceLaws S)
    (reads_up : (c : Condition) (t : S.database.Tables) (e : Str) (j : Job)
      → (S.database.first c t).0 ≡ err e
      → matches c j ≡ true
      → laws.database.row t j.id ≢ some j)
    (writes_up : (j : Job) (t : S.database.Tables) → (S.database.save j t).0.0 ≡ none)
    (c : Config) where
  open laws use {database.{row}}

  -- While the database is up, and whatever the cache and the queue answer: let a job of a known type
  -- have a row, no row have the nil identifier, the cache have no string, and the generator of
  -- identifiers never give the nil identifier nor that of the job. After any requests, lookups,
  -- polls, deliveries of any messages and clearings of caches and limits, in any order, among which
  -- a message of the job is delivered at least once, the job's row is COMPLETED.
  pub done_for_good :
      (k : Job) (msg : Message) (actions : List Action) (w : World)
      → ((n : ℕ) → (w.fresh_ids n ≢ uuid_nil) × (w.fresh_ids n ≢ k.id))
      → ((key : Str) → laws.cache.value w.store key ≡ none)
      → row w.tables uuid_nil ≡ none
      → row w.tables k.id ≡ some k
      → ((name : Str) → k.type ≢ other name)
      → Memᴰ (deliver msg) actions
      → S.parse_uuid msg.value ≡ ok k.id
      → (i : Job) × (row (perform_all c actions w).tables k.id ≡ some i) × (i.status ≡ completed)
  done_for_good k msg actions w new no_keys no_nil stored known m parsed =
      delivered-IsDone laws reads_up writes_up c k.id k.client_id k.type k.payload msg actions w
        known
        (Stores.Everywhere-uncached laws (asked_invariant k.id k.client_id k.type k.payload)
          (rows_asked laws k w no_nil stored) no_keys new)
        (k, stored) m parsed
