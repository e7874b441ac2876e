-- ===== src/JobWorker/Retry.antt =====
-- The retry budget and the backoff of `handleJobFailure`.
use parallelis_distributed_e.Base.{
  length, ℕ, zero, suc, ◌+◌, ◌*◌, ◌^◌, ◌≤◌, ◌<◌, ◌≡◌, refl, false, some, List, [], ◌∷◌, Str, ltb,
  lt→ltb, ltb→lt, lt_int-small, mul_int, add_int-small, sign_bit, if◌then◌else◌, arith, Bool-cases,
  inl, inr,
}
use parallelis_distributed_e.Model.{Time, second, seconds, add_duration, pending, dead_letter, Job}
use parallelis_distributed_e.JobWorker.{backoff_seconds, failed_job}
use native.Mathlib.Nat.{pow-suc}

pow_mono : (n k : ℕ) → n ≤ k → 2 ^ n ≤ 2 ^ k
pow_mono n zero h = let e : n ≡ 0 = omega arith in rw e (omega arith)
pow_mono n (suc k) h = elim (Bool-cases (ltb n (suc k))) [
  | inl below ↦
      let step : 2 ^ n ≤ 2 ^ k = pow_mono n k (ground arith) in rw (pow-suc 2 k) (omega arith)
  | inr at ↦ let e : n ≡ suc k = ground arith in rw e (omega arith)
]

-- Up to 2 ^ 33 seconds the delay fits Go's `time.Duration`.
delay_exact :
    (attempts : ℕ) (t : Time)
    → attempts < 34
    → add_duration t (seconds (backoff_seconds attempts)) ≡ t + 2 ^ attempts * second
unfolding add_duration seconds backoff_seconds mul_int
delay_exact attempts t h =
    let bound : 2 ^ attempts ≤ 2 ^ 33 = pow_mono attempts 33 (omega arith) in ground arith

failed_job_retried :
    (message : Str) (updated read : Time) (j : Job)
    → j.attempts + 1 < j.max_retries
    → j.attempts < 33
    → j.max_retries < sign_bit
    → failed_job message updated read j ≡ record j {
      status = pending;
      attempts = j.attempts + 1;
      error_message = some message;
      updated_at = updated;
      scheduled_at = some (read + 2 ^ (j.attempts + 1) * second);
    }
unfolding failed_job
failed_job_retried message updated read j left small fits =
    rw (add_int-small j.attempts 1 (omega arith)) (
      rw (lt_int-small (j.attempts + 1) j.max_retries (omega arith) fits)
        (rw (lt→ltb _ _ left) (rw (delay_exact (j.attempts + 1) read (omega arith)) refl)))

failed_job_buried :
    (message : Str) (updated read : Time) (j : Job)
    → j.max_retries ≤ j.attempts + 1
    → j.attempts + 1 < sign_bit
    → failed_job message updated read j ≡ record j {
      status = dead_letter;
      attempts = j.attempts + 1;
      error_message = some message;
      updated_at = updated;
      completed_at = some read;
    }
unfolding failed_job
failed_job_buried message updated read j spent small =
    rw (add_int-small j.attempts 1 (omega arith)) (
      rw (lt_int-small (j.attempts + 1) j.max_retries small (omega arith))
        (let over : ltb (j.attempts + 1) j.max_retries ≡ false = ground arith in rw over refl))

-- A failure of a job that has had fewer than 33 counts the attempt and keeps the message. If the
-- attempts, with this one, are below the budget, the job is PENDING and is scheduled 2 ^ attempts
-- seconds after the second reading of the clock, its completion time staying as it was. If not, it
-- is a DEAD_LETTER completed at that reading, its schedule staying as it was.
pub failed_job_lem :
    (message : Str) (updated read : Time) (j : Job)
    → j.attempts < 33
    → j.max_retries < sign_bit
    → failed_job message updated read j ≡ (
        if ltb (j.attempts + 1) j.max_retries
        then record j {
          status = pending;
          attempts = j.attempts + 1;
          error_message = some message;
          updated_at = updated;
          scheduled_at = some (read + 2 ^ (j.attempts + 1) * second);
        }
        else record j {
          status = dead_letter;
          attempts = j.attempts + 1;
          error_message = some message;
          updated_at = updated;
          completed_at = some read;
        })
failed_job_lem message updated read j small fits =
    elim (Bool-cases (ltb (j.attempts + 1) j.max_retries)) [
      | inl left ↦ rw left (failed_job_retried message updated read j (ltb→lt _ _ left) small fits)
      | inr spent ↦ rw spent (failed_job_buried message updated read j (ground arith) (omega arith))
    ]

-- A failure.
pub record Failure : Type 0 where
  pub message : Str
  pub updated : Time
  pub read : Time

-- The job after failures, one after the other.
pub fail_all : Job → List Failure → Job
fail_all j [] = j
fail_all j (f ∷ fs) = fail_all (failed_job f.message f.updated f.read j) fs

failed_job_counts :
    (message : Str) (updated read : Time) (j : Job)
    → j.attempts + 1 < sign_bit
    → j.max_retries < sign_bit
    → ((failed_job message updated read j).attempts ≡ j.attempts + 1)
      × ((failed_job message updated read j).max_retries ≡ j.max_retries)
      × ((failed_job message updated read j).status
          ≡ (if ltb (j.attempts + 1) j.max_retries then pending else dead_letter))
unfolding failed_job
failed_job_counts message updated read j h k =
    ground (arith, add_int-small j.attempts 1, lt_int-small (j.attempts + 1) j.max_retries)

-- After failures in a row, at least one, the attempts have grown by their number, and the job is
-- PENDING exactly while the attempts are below the budget and DEAD_LETTER from then on (both
-- counts as `int`s that do not overflow).
pub fail_all_status :
    (j : Job) (f : Failure) (fs : List Failure)
    → j.attempts + length (f ∷ fs) < sign_bit
    → j.max_retries < sign_bit
    → ((fail_all j (f ∷ fs)).attempts ≡ j.attempts + length (f ∷ fs))
      × ((fail_all j (f ∷ fs)).status
          ≡ (if ltb (j.attempts + length (f ∷ fs)) j.max_retries then pending else dead_letter))
unfolding fail_all
fail_all_status j f [] h k =
    let counts = failed_job_counts f.message f.updated f.read j (omega arith) k in
    (counts.0, counts.2)
fail_all_status j f (g ∷ gs) h k =
    let once = failed_job f.message f.updated f.read j in
    let counts = failed_job_counts f.message f.updated f.read j (omega arith) k in
    let rest = fail_all_status once g gs (omega (arith, counts.0)) (omega (arith, counts.1)) in
    (omega (arith, rest.0, counts.0), ground (arith, rest.1, counts.0, counts.1))
