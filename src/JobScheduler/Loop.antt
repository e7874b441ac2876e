-- ===== src/JobScheduler/Loop.antt =====
-- Polls in a row.
use parallelis_distributed_e.Base.{
  ℕ, zero, suc, ◌≡◌, ◌≢◌, refl, ap, ◌∙◌, inl, inr, false, some, none, Option, Option-cases, Result,
  ok, err, List, [], ◌∷◌, Memᴰ, Str, ◌==◌, arith,
}
use parallelis_distributed_e.Model.{Uuid, uuid_nil, pending, Job}
use parallelis_distributed_e.Services.{Services, World, ServiceLaws}
use parallelis_distributed_e.Repository.{save, find_by_status_and_scheduled_at_before}
use parallelis_distributed_e.Lifecycle.Hooked.{id-Stored}
use parallelis_distributed_e.JobScheduler.{
  running_job, mark_published, schedule_job, schedule_all, schedule_found, schedule_jobs, poll_loop,
}
use parallelis_distributed_e.JobScheduler.Poll.{Scheduled, kept, marked, due, row-schedule_jobs}

module _ ⦃S : Services⦄ (laws : ServiceLaws S) where
  open laws use {database.{row}}

  row-mark_other :
      (i : Job) (o : Option Str) (id : Uuid) (w : World)
      → i.id ≢ uuid_nil
      → i.id ≢ id
      → row (mark_published i o w).1.tables id ≡ row w.tables id
  unfolding mark_published save running_job
  row-mark_other i (some e) id w named apart = refl
  row-mark_other i none id w named apart =
      let copy = running_job (w.clock 0) i in
      let same = id-Stored (laws.database.save_stored copy w.tables) named in
      elim (Option-cases (S.database.save copy w.tables).0.0) [
        | inr (e, failed) ↦ laws.database.row-save_err copy w.tables id e failed
        | inl done ↦
            let off : ((S.database.save copy w.tables).0.1.id == id) ≡ false =
              ground (arith, same) in
            laws.database.row-save_ok copy w.tables id done ∙ rw off refl
      ]

  row-schedule_others :
      (js : List Job) (id : Uuid) (w : World)
      → ((i : Job) → Memᴰ i js → (i.id ≢ uuid_nil) × (i.id ≢ id))
      → row (schedule_all js w).1.tables id ≡ row w.tables id
  unfolding schedule_all schedule_job
  row-schedule_others [] id w h = refl
  row-schedule_others (i ∷ js) id w h =
      let (named, apart) = h i (Memᴰ.head refl) in
      row-schedule_others js id _ (λ k m. h k (Memᴰ.tail m)) ∙ row-mark_other i _ id _ named apart

  no_row : (o : Option Job) (i : Job) → o ≡ none → o ≢ some i
  no_row o i p q = cc

  nil-schedule_found :
      (r : Result (List Job)) (w : World)
      → ((js : List Job) (i : Job) → r ≡ ok js → Memᴰ i js → i.id ≢ uuid_nil)
      → row (schedule_found r w).1.tables uuid_nil ≡ row w.tables uuid_nil
  unfolding schedule_found
  nil-schedule_found (err e) w h = refl
  nil-schedule_found (ok js) w h =
      row-schedule_others js uuid_nil w (λ i m. (h js i refl m, h js i refl m))

  -- A poll gives no row the nil identifier.
  pub nil-schedule_jobs :
      (w : World) → row w.tables uuid_nil ≡ none → row (schedule_jobs w).1.tables uuid_nil ≡ none
  unfolding schedule_jobs find_by_status_and_scheduled_at_before
  nil-schedule_jobs w no_nil =
      nil-schedule_found _ _ (λ js i found m nil.
        let (stored, fits) = laws.database.find_sound _ w.tables js i found m in
        no_row _ i (ap (row w.tables) nil ∙ no_nil) stored)
      ∙ laws.database.row-find _ w.tables uuid_nil
      ∙ no_nil

  -- Not PENDING, so not due.
  not_due :
      (j : Job) (o : Option Job) (w : World)
      → j.status ≢ pending
      → Scheduled (due laws (w.clock 0)) j o
      → o ≡ some j
  not_due j o w busy (kept e) = e
  not_due j o w busy (marked at k fits stored e) = absurd (busy (ground arith))

  -- Let no row have the nil identifier. However many polls there are in a row, and whatever the
  -- queue and the database answer, a row that is not PENDING stays as it is.
  row-poll_loop :
      (n : ℕ) (j : Job) (w : World)
      → row w.tables uuid_nil ≡ none
      → row w.tables j.id ≡ some j
      → j.status ≢ pending
      → row (poll_loop n w).1.tables j.id ≡ some j
  unfolding poll_loop
  row-poll_loop zero j w no_nil stored busy = stored
  row-poll_loop (suc n) j w no_nil stored busy =
      row-poll_loop n j (schedule_jobs w).1 (nil-schedule_jobs w no_nil)
        (not_due j _ w busy (row-schedule_jobs laws j w no_nil stored)) busy
