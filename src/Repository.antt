-- ===== src/Repository.antt =====
-- repository/JobRepository.go: the queries of the job table.
use parallelis_distributed_e.Base.{ℕ, Option, List, Str, Result}
use parallelis_distributed_e.Model.{Time, Uuid, JobStatus, Job}
use parallelis_distributed_e.Services.{
  all_rows, id_is, client_id_is, status_is, scheduled_at_le, updated_at_lt, both, unordered,
  scheduled_at_asc, Services, Exec, on_database,
}

module _ ⦃S : Services⦄ where
  -- `Save`; the second result is the job that the caller's pointer then shows.
  unfoldable pub save : Job → Exec (Option Str × Job)
  save job = on_database (S.database.save job)

  unfoldable pub find_by_id : Uuid → Exec (Result Job)
  find_by_id id = on_database (S.database.first (id_is id))

  unfoldable pub find_all : Exec (Result (List Job))
  find_all = on_database (S.database.find (record { condition = all_rows; order = unordered }))

  unfoldable pub delete : Job → Exec (Option Str)
  delete job = on_database (S.database.delete job)

  unfoldable pub find_by_status_and_scheduled_at_before :
      JobStatus → Time → Exec (Result (List Job))
  find_by_status_and_scheduled_at_before status t = on_database (
      S.database.find (record {
        condition = both (status_is status) (scheduled_at_le t);
        order = scheduled_at_asc;
      }))

  unfoldable pub find_by_client_id : Str → Exec (Result (List Job))
  find_by_client_id client_id =
      on_database
        (S.database.find (record { condition = client_id_is client_id; order = unordered }))

  unfoldable pub find_by_status : JobStatus → Exec (Result (List Job))
  find_by_status status =
      on_database (S.database.find (record { condition = status_is status; order = unordered }))

  unfoldable pub count_by_status : JobStatus → Exec (Result ℕ)
  count_by_status status = on_database (S.database.count (status_is status))

  unfoldable pub find_stuck_jobs : JobStatus → Time → Exec (Result (List Job))
  find_stuck_jobs status updated_before = on_database (
      S.database.find (record {
        condition = both (status_is status) (updated_at_lt updated_before);
        order = unordered;
      }))
