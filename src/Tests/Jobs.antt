-- ===== src/Tests/Jobs.antt =====
-- The theorems on jobs at concrete inputs.
use ippper_rs.Prelude.{wrapping_inc, ◌+◌, ◌<◌, ◌≡◌, ◌≢◌, ◌⊎◌, refl, pos, some, arith}
use ippper_rs.Ipp.Enums.{pending, canceled, operation_attributes, client_error_not_possible}
use ippper_rs.Ipp.HashMap.{get}
use ippper_rs.Ipp.Value.{integer}
use ippper_rs.Error.{ok, err, ipp}
use ippper_rs.Utils.{get_ipp_attribute}
use ippper_rs.Service.Simple.Info.{default_info}
use ippper_rs.Service.Simple.State.{new, alloc_job, find_job}
use ippper_rs.Service.Simple.Documents.{
  print_job, send_to_job, print_job_begin, create_job, new_job,
}
use ippper_rs.Service.Simple.Handlers.{cancel_found}
use ippper_rs.Service.Simple.World.{here, next}
use ippper_rs.Service.Simple.Consistent.{IsConsistent}
use ippper_rs.Service.Simple.Steps.{reachable-IsConsistent}
use ippper_rs.Service.Simple.Life.{Evolves, Step-Evolves, canceled_for_good, find_job-id}
use ippper_rs.Service.Simple.Accepted.{
  Outcome, asked_attributes, asked_document, made_job, started_job, Spares,
}
use ippper_rs.Service.Simple.Outcomes.{print_job-Outcome}
use ippper_rs.Service.Simple.Outcomes.Send.{send_to_job-Outcome}
use ippper_rs.Service.Simple.JobAttributes.{job_uri}
use ippper_rs.Service.Simple.JobUris.{job_uris_differ}
use ippper_rs.Tests.Crates.{crates, crates-Documented}
use ippper_rs.Tests.Requests.{
  head, env, print_request, text_request, about_job, created, canceled_one, printed,
  canceled_one_allocated, canceled_one_state, completing, until_canceled, until_printed,
}

reachable-IsConsistent_example : IsConsistent crates printed.service printed.running
reachable-IsConsistent_example =
    reachable-IsConsistent crates-Documented default_info printed until_printed

canceled_for_good_example :
    (0 < printed.service.allocated) × (printed.service.cells 0 ≡ canceled_one.service.cells 0)
canceled_for_good_example =
    canceled_for_good crates-Documented
      (reachable-IsConsistent crates-Documented default_info canceled_one until_canceled) 0
      (omega (arith, canceled_one_allocated)) canceled_one_state (next here completing)

Step-Evolves_example : Evolves (canceled_one.service.cells 1) (printed.service.cells 1)
Step-Evolves_example =
    Step-Evolves crates-Documented
      (reachable-IsConsistent crates-Documented default_info canceled_one until_canceled) 1
      (omega (arith, canceled_one_allocated)) completing

-- The document's format is refused.
print_job-Outcome_example :
    let s = new default_info in
    let (result, s') = print_job crates env head text_request s in
    (s'.allocated ≡ s.allocated + 1)
    × Spares s.allocated s s'
    × Outcome crates env text_request
        (asked_document crates s (asked_attributes crates s text_request) text_request)
        result
        (made_job crates env s text_request)
        (s'.cells s.allocated)
print_job-Outcome_example =
    print_job-Outcome crates crates-Documented text_request env head (new default_info)

send_to_job-Outcome_example :
    let s = created.service in
    let (result, s') = send_to_job crates env head print_request 0 s in
    (((s.cells 0).state ≡ canceled)
      × (result ≡ err (ipp (record { code = client_error_not_possible; msg = "Job is canceled" })))
      × (s' ≡ s))
    ⊎ (((s.cells 0).state ≢ canceled)
        × Spares 0 s s'
        × Outcome crates env print_request
            (asked_document crates s (s.cells 0).attributes print_request)
            result
            (started_job env (s.cells 0))
            (s'.cells 0))
send_to_job-Outcome_example =
    send_to_job-Outcome crates crates-Documented print_request env head 0 created.service

created_state : (created.service.cells 0).state ≡ pending
unfolding create_job new alloc_job new_job
created_state = refl

job_found : find_job crates canceled_one.service (about_job 9 (pos 1001)).attributes ≡ ok 1
unfolding find_job get_ipp_attribute get print_job_begin create_job new alloc_job cancel_found
    new_job wrapping_inc
job_found = refl

find_job-id_example :
    (1 < canceled_one.service.allocated)
    × (get_ipp_attribute crates (about_job 9 (pos 1001)).attributes operation_attributes "job-id"
        ≡ some (integer (canceled_one.service.cells 1).id))
find_job-id_example =
    find_job-id crates-Documented default_info canceled_one (about_job 9 (pos 1001)).attributes 1
      until_canceled job_found

job_uris_differ_example :
    job_uri crates canceled_one.service.host canceled_one.service.basepath head
      (canceled_one.service.cells 0)
    ≢ job_uri crates canceled_one.service.host canceled_one.service.basepath head
        (canceled_one.service.cells 1)
job_uris_differ_example =
    job_uris_differ crates-Documented default_info canceled_one 0 1 head until_canceled
      (omega arith) (omega (arith, canceled_one_allocated)) (omega arith)
