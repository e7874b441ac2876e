-- ===== src/Memory/Codec.antt =====
-- A text for a job, and the job read back: the numbers, then the strings behind their lengths.
use parallelis_distributed_e.Base.{
  length, ℕ, zero, suc, ◌≡◌, refl, subst, Option, none, some, [], ◌∷◌, ◌++◌, Str, bytes, Result, ok,
  err,
}
use parallelis_distributed_e.Model.{
  JobStatus, pending, running, completed, failed, dead_letter, JobType, payment_process,
  email_confirmation, other, Job,
}

-- The first `n` places, and the rest.
abbrev split_at : ℕ → Str → Str × Str
split_at zero s = ([], s)
split_at (suc n) [] = ([], [])
split_at (suc n) (x ∷ xs) = let (front, back) = split_at n xs in (x ∷ front, back)

split_at-append : (s rest : Str) → split_at (length s) (s ++ rest) ≡ (s, rest)
split_at-append [] rest = refl
split_at-append (x ∷ s) rest = rw (split_at-append s rest)

abbrev put_text : Str → Str → Str
put_text s rest = length s ∷ (s ++ rest)

abbrev get_text : Str → Str × Str
get_text [] = ([], [])
get_text (n ∷ s) = split_at n s

abbrev from_status : JobStatus → ℕ
from_status pending = 0
from_status running = 1
from_status completed = 2
from_status failed = 3
from_status dead_letter = 4

abbrev to_status : ℕ → JobStatus
to_status zero = pending
to_status (suc zero) = running
to_status (suc (suc zero)) = completed
to_status (suc (suc (suc zero))) = failed
to_status (suc (suc (suc (suc n)))) = dead_letter

abbrev from_type : JobType → Str
from_type payment_process = 0 ∷ []
from_type email_confirmation = 1 ∷ []
from_type (other name) = 2 ∷ name

abbrev to_type : Str → JobType
to_type [] = payment_process
to_type (zero ∷ s) = payment_process
to_type (suc zero ∷ s) = email_confirmation
to_type (suc (suc n) ∷ s) = other s

abbrev from_option : Option ℕ → ℕ
from_option none = 0
from_option (some n) = suc n

abbrev to_option : ℕ → Option ℕ
to_option zero = none
to_option (suc n) = some n

abbrev from_message : Option Str → Str
from_message none = []
from_message (some s) = 0 ∷ s

abbrev to_message : Str → Option Str
to_message [] = none
to_message (x ∷ s) = some s

status_lem : (s : JobStatus) → to_status (from_status s) ≡ s
status_lem pending = refl
status_lem running = refl
status_lem completed = refl
status_lem failed = refl
status_lem dead_letter = refl

type_lem : (t : JobType) → to_type (from_type t) ≡ t
type_lem payment_process = refl
type_lem email_confirmation = refl
type_lem (other name) = refl

option_lem : (o : Option ℕ) → to_option (from_option o) ≡ o
option_lem none = refl
option_lem (some n) = refl

message_lem : (o : Option Str) → to_message (from_message o) ≡ o
message_lem none = refl
message_lem (some s) = refl

abbrev pub text_of : Job → Str
text_of j =
    j.id
    ∷ from_status j.status
    ∷ j.attempts
    ∷ j.max_retries
    ∷ j.created_at
    ∷ from_option j.scheduled_at
    ∷ from_option j.completed_at
    ∷ j.updated_at
    ∷ put_text j.client_id (
        put_text (from_type j.type)
          (put_text j.payload (put_text (from_message j.error_message) [])))

abbrev pub marshal : Job → Result Str
marshal j = ok (text_of j)

abbrev unmarshal_texts : (id status attempts budget created scheduled ended updated : ℕ) → Str → Job
unmarshal_texts id status attempts budget created scheduled ended updated s =
    let (client, s1) = get_text s in
    let (type, s2) = get_text s1 in
    let (payload, s3) = get_text s2 in
    let (message, s4) = get_text s3 in
    record {
      id = id;
      client_id = client;
      type = to_type type;
      status = to_status status;
      payload = payload;
      attempts = attempts;
      max_retries = budget;
      created_at = created;
      scheduled_at = to_option scheduled;
      completed_at = to_option ended;
      error_message = to_message message;
      updated_at = updated;
    }

abbrev pub unmarshal : Str → Result Job
unmarshal (id ∷ status ∷ attempts ∷ budget ∷ created ∷ scheduled ∷ ended ∷ updated ∷ s) =
    ok (unmarshal_texts id status attempts budget created scheduled ended updated s)
unmarshal _ = err (bytes "unexpected end of JSON input")

unmarshal-text_of : (j : Job) → unmarshal (text_of j) ≡ ok j
unmarshal-text_of j = simp (split_at-append, status_lem, type_lem, option_lem, message_lem)

pub unmarshal-marshal_job : (j : Job) (text : Str) → marshal j ≡ ok text → unmarshal text ≡ ok j
unmarshal-marshal_job j text e =
    subst (λ t. unmarshal t ≡ ok j) {x = text_of j} (cc) (unmarshal-text_of j)
