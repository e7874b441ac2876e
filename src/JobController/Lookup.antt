-- ===== src/JobController/Lookup.antt =====
-- The lookup of a job that has a row.
use parallelis_distributed_e.Base.{
  ◌≡◌, ◌≢◌, refl, sym, ap, ◌∙◌, true, Option, some, Str, ok, err, ==→eq, ==-refl, Result-cases, inl,
  inr,
}
use parallelis_distributed_e.Model.{Job}
use parallelis_distributed_e.Services.{Condition, id_is, matches, Services, World, ServiceLaws}
use parallelis_distributed_e.Dto.{job_response_from}
use parallelis_distributed_e.Repository.{find_by_id}
use parallelis_distributed_e.JobService.{get_job, found_or_error}
use parallelis_distributed_e.JobController.{
  job_body, known_response, get_parsed_job, get_job_handler,
}

module _ ⦃S : Services⦄ (laws : ServiceLaws S)
    (reads_up : (c : Condition) (t : S.database.Tables) (e : Str) (j : Job)
      → (S.database.first c t).0 ≡ err e
      → matches c j ≡ true
      → laws.database.row t j.id ≢ some j) where
  open laws use {database.{row}}

  same_job : (o : Option Job) (i j : Job) → o ≡ some i → o ≡ some j → i ≡ j
  same_job o i j p q = cc

  pub first_known :
      (k : Job) (t : S.database.Tables)
      → row t k.id ≡ some k
      → (S.database.first (id_is k.id) t).0 ≡ ok k
  first_known k t stored = elim (Result-cases (S.database.first (id_is k.id) t).0) [
    | inl (j, found) ↦
        let (kept, fits) = laws.database.first_sound (id_is k.id) t j found in
        found ∙ ap ok (same_job (row t k.id) j k (ap (row t) (sym (==→eq _ _ fits)) ∙ kept) stored)
    | inr (e, failed) ↦ absurd (reads_up (id_is k.id) t e k failed (==-refl k.id) stored)
  ]

  -- The response to a lookup of a stored job.
  pub get_job_stored :
      (k : Job) (w : World)
      → row w.tables k.id ≡ some k
      → ((get_job_handler (S.uuid_text k.id) w).0.code ≡ 200)
        × ((get_job_handler (S.uuid_text k.id) w).0.body ≡ job_body (job_response_from k))
  unfolding get_job_handler get_parsed_job get_job found_or_error known_response find_by_id
  get_job_stored k w stored =
      rw (laws.codec.parse_uuid-uuid_text k.id, first_known k w.tables stored) (refl, refl)
