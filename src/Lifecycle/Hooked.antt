-- ===== src/Lifecycle/Hooked.antt =====
-- What GORM's hooks and stamps (model/Job.go) leave of a job that is saved.
use parallelis_distributed_e.Base.{◌≡◌, ◌≢◌, refl, ap, ◌∙◌, arith}
use parallelis_distributed_e.Model.{uuid_nil, Job, before_update, before_create}
use parallelis_distributed_e.Services.{Stored, stamped, on_update, on_create}

-- Hooks do not rename a job that has an identifier.
pub id-Stored : {j k : Job} → Stored j k → j.id ≢ uuid_nil → k.id ≡ j.id
unfolding before_update before_create
id-Stored (stamped c u e) h = ap (λ (x : Job). x.id) e
id-Stored (on_update n c u e) h = ap (λ (x : Job). x.id) e
id-Stored (on_create f n c u e) h = ap (λ (x : Job). x.id) e ∙ ground arith

-- What no hook and no stamp changes.
pub status-Stored :
    {j k : Job}
    → Stored j k
    → (k.status ≡ j.status) × (k.attempts ≡ j.attempts) × (k.completed_at ≡ j.completed_at)
unfolding before_update before_create
status-Stored (stamped c u e) = rw e (refl, refl, refl)
status-Stored (on_update n c u e) = rw e (refl, refl, refl)
status-Stored (on_create f n c u e) = rw e (refl, refl, refl)

pub max_retries-Stored : {j k : Job} → Stored j k → j.max_retries ≡ 3 → k.max_retries ≡ 3
unfolding before_update before_create
max_retries-Stored (stamped c u e) h = rw e h
max_retries-Stored (on_update n c u e) h = rw e h
max_retries-Stored (on_create f n c u e) h = rw (e, h) refl

pub type-Stored : {j k : Job} → Stored j k → k.type ≡ j.type
unfolding before_update before_create
type-Stored (stamped c u e) = rw e refl
type-Stored (on_update n c u e) = rw e refl
type-Stored (on_create f n c u e) = rw e refl

-- What a request has asked for stays: the client, the type and the payload.
pub request-Stored :
    {j k : Job}
    → Stored j k
    → (k.client_id ≡ j.client_id) × (k.type ≡ j.type) × (k.payload ≡ j.payload)
unfolding before_update before_create
request-Stored (stamped c u e) = rw e (refl, refl, refl)
request-Stored (on_update n c u e) = rw e (refl, refl, refl)
request-Stored (on_create f n c u e) = rw e (refl, refl, refl)
