-- ===== src/Tests/Times.antt =====
-- The theorems on how jobs go on, at concrete inputs.
use ippper_rs.Prelude.{ℕ, ◌<◌, ◌≡◌, ◌↔◌, refl, pos, [], ◌∷◌, none, arith}
use ippper_rs.Ipp.Enums.{processing, client_error_document_format_not_supported}
use ippper_rs.Ipp.HashMap.{get}
use ippper_rs.Error.{ok, err, other, status_error}
use ippper_rs.Utils.{get_ipp_attribute}
use ippper_rs.Service.Simple.Info.{default_info}
use ippper_rs.Service.Simple.State.{new, alloc_job}
use ippper_rs.Service.Simple.Documents.{print_job, print_job_begin, create_job, new_job}
use ippper_rs.Service.Simple.Handlers.{cancel_found}
use ippper_rs.Service.Simple.World.{World, Reach, create, print, cancel}
use ippper_rs.Service.Simple.Times
use ippper_rs.Service.Simple.Times.{TimedReach, IsOrdered, begin}
use ippper_rs.Service.Simple.Times.Steps.{TimedReach-IsOrdered}
use ippper_rs.Service.Simple.Progress.{Settled, finish_all}
use ippper_rs.Service.Simple.Stuck
use ippper_rs.Service.Simple.Stuck.{refused_print_job_stays}
use ippper_rs.Service.Simple.JobIds.{IsPositive, ids-IsPositive}
use ippper_rs.Service.Simple.Commute.{run, finish, run-commute}
use ippper_rs.Service.Simple.Commute
use ippper_rs.Service.Simple.Accepted.{asked_attributes, asked_document}
use ippper_rs.Service.Simple.Sequential.{with_service}
use ippper_rs.Tests.Crates.{crates, crates-Documented}
use ippper_rs.Tests.Requests.{
  head, env, print_request, text_request, create_request, about_job, printing, canceled_one,
  canceled_one_allocated, until_canceled, printing_allocated,
}

-- The clock stands at 200 seconds when the first job has been canceled.
timed : TimedReach crates default_info canceled_one 200000000000
timed =
    Times.next 200000000000
      (Times.next 150000000000
        (Times.next 150000000000 (begin 0) (omega arith) (create env head create_request)
          (omega arith))
        (omega arith) (print env print_request) (omega arith))
      (omega arith) (cancel (about_job 8 (pos 1000)) 0 (omega (arith, printing_allocated))) tt

TimedReach-IsOrdered_example : IsOrdered 200000000000 (canceled_one.service.cells 1)
TimedReach-IsOrdered_example =
    TimedReach-IsOrdered default_info canceled_one 200000000000 1 timed
      (omega (arith, canceled_one_allocated))

-- One document is with the handler, which fails.
finish_all_example :
    (v : World) × Reach crates (record { service = canceled_one.service; running = 1 ∷ [] }) v
    × (v.running ≡ [])
    × ((i : ℕ)
        → Settled
            (λ h. err (other "disk full"))
            (record { service = canceled_one.service; running = 1 ∷ [] })
            i
            (v.service.cells i))
finish_all_example =
    finish_all crates head print_request (env.uptime 1) (λ h. err (other "disk full")) (1 ∷ [])
      canceled_one.service

ids-IsPositive_example : IsPositive (canceled_one.service.cells 1).id ↔ (1 < 2147482648)
ids-IsPositive_example =
    ids-IsPositive crates-Documented default_info canceled_one 1 until_canceled
      (omega (arith, canceled_one_allocated)) (omega arith)

text_refused :
    asked_document crates canceled_one.service
      (asked_attributes crates canceled_one.service text_request)
      text_request
    ≡ err (status_error crates client_error_document_format_not_supported)
unfolding get_ipp_attribute get print_job_begin create_job new cancel_found alloc_job new_job
text_refused = refl

-- Afterwards another client makes a job.
abbrev refused_world : World
refused_world =
    with_service crates canceled_one (print_job crates env head text_request canceled_one.service).1

abbrev later : World
later =
    with_service crates refused_world
      (create_job crates env head create_request refused_world.service).1

refused_print_job_stays_example :
    ((print_job crates env head text_request canceled_one.service).0
      ≡ err (status_error crates client_error_document_format_not_supported))
    × ((later.service.cells canceled_one.service.allocated).state ≡ processing)
    × ((later.service.cells canceled_one.service.allocated).completed_at ≡ none)
refused_print_job_stays_example =
    refused_print_job_stays crates-Documented env head text_request default_info canceled_one later
      (status_error crates client_error_document_format_not_supported) until_canceled text_refused
      (Stuck.next Stuck.here (create env head create_request) (λ x. x))

-- A document is sent to the second job while the first is canceled.
run-commute_example :
    let s = printing.service in
    let finishing = Commute.finish head print_request (ok tt) (env.uptime 1) in
    let canceling = Commute.cancel (about_job 8 (pos 1000)) in
    let (answer, s₁) = run crates finishing 1 s in
    let (answer', s₂) = run crates canceling 0 s in
    ((run crates finishing 1 s₂).0 ≡ answer)
    × ((run crates canceling 0 s₁).0 ≡ answer')
    × ((run crates finishing 1 s₂).1 ≡ (run crates canceling 0 s₁).1)
run-commute_example =
    run-commute crates (Commute.finish head print_request (ok tt) (env.uptime 1))
      (Commute.cancel (about_job 8 (pos 1000))) 1 0 printing.service (λ e. omega arith)
