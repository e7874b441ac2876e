-- ===== src/Examples/Api.antt =====
-- Requests.
use parallelis_distributed_e.Base.{ok}
use parallelis_distributed_e.Memory.{memory, memory_laws, empty_world}
use parallelis_distributed_e.JobController.{create_job_handler}
use parallelis_distributed_e.JobController.Create.{Outcome, create-Outcome}
use parallelis_distributed_e.Examples.Runs.{limits, customer, request}

create-Outcome_example :
    let (r, u) = create_job_handler limits customer (ok request) empty_world in
    Outcome memory_laws limits customer (ok request) empty_world r u
create-Outcome_example = create-Outcome memory_laws limits customer (ok request) empty_world
