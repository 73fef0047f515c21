-- ===== src/Tests/Reports.antt =====
-- The theorems on what responses report of a job, at concrete inputs.
use ippper_rs.Prelude.{ℕ, List, ◌≡◌, some}
use ippper_rs.Ipp.Enums.{pending}
use ippper_rs.Ipp.Value.{integer, enum}
use ippper_rs.Ipp.Attributes.{IppRequestResponse}
use ippper_rs.Error.{ok, err, other}
use ippper_rs.Service.Simple.Info.{default_info}
use ippper_rs.Service.Simple.State.{new}
use ippper_rs.Service.Simple.Documents.{create_job, finish_document}
use ippper_rs.Service.Simple.Reports.{reported, create_job-reported, finish_document-reported}
use ippper_rs.Tests.Crates.{crates, crates-Documented}
use ippper_rs.Tests.Requests.{head, env, create_request, print_request, canceled_one}

create_job-reported_example :
    let s = new default_info in
    let (result, s') = create_job crates env head create_request s in
    (resp : IppRequestResponse (List ℕ)) × (result ≡ ok resp)
    × ((s'.cells s.allocated).id ≡ s.job_id)
    × ((s'.cells s.allocated).state ≡ pending)
    × (reported crates-Documented resp "job-id" ≡ some (integer s.job_id))
    × (reported crates-Documented resp "job-state" ≡ some (enum (crates.job_state_code pending)))
create_job-reported_example =
    create_job-reported crates-Documented env head create_request (new default_info)

-- The handler fails.
finish_document-reported_example :
    let s = canceled_one.service in
    let (resp, s') =
      finish_document crates head print_request 1 (err (other "disk full")) (env.uptime 1) s in
    ((s'.cells 1).id ≡ (s.cells 1).id)
    × (reported crates-Documented resp "job-id" ≡ some (integer (s.cells 1).id))
    × (reported crates-Documented resp "job-state"
        ≡ some (enum (crates.job_state_code (s'.cells 1).state)))
finish_document-reported_example =
    finish_document-reported crates-Documented head print_request 1 (err (other "disk full"))
      (env.uptime 1) canceled_one.service
