-- ===== src/Tests/Asked.antt =====
-- The theorems on requests for attributes and for jobs, at concrete inputs.
use ippper_rs.Prelude.{
  arith, ℕ, wrapping_inc, String, ◌≡◌, refl, pos, List, [], ◌∷◌, none, some, map,
}
use ippper_rs.Ipp.Enums.{canceled, operation_attributes, job_attributes, printer_attributes}
use ippper_rs.Ipp.Attributes.{attribute, IppRequestResponse}
use ippper_rs.Ipp.HashMap.{get}
use ippper_rs.Ipp.Value.{integer, keyword, array}
use ippper_rs.Error.{ok}
use ippper_rs.Utils.{get_ipp_attribute}
use ippper_rs.Service.Simple.Info.{default_info}
use ippper_rs.Service.Simple.State.{new, alloc_job, find_job}
use ippper_rs.Service.Simple.Documents.{print_job_begin, create_job, new_job, finish_document}
use ippper_rs.Service.Simple.Handlers.{
  cancel_found, get_printer_attributes, get_job_attributes, get_jobs,
}
use ippper_rs.Service.Simple.Asked.{
  SaysAsked, asked_for, get_printer_attributes-SaysAsked, get_job_attributes-SaysAsked,
}
use ippper_rs.Service.Simple.Filters.{asked_states}
use ippper_rs.Service.Simple.GetJobs.{Lists, asked_which, get_jobs-Lists}
use ippper_rs.Service.Simple.Queries.{Tells, canceled_job-Tells}
use ippper_rs.Service.Simple.World.{here, next}
use ippper_rs.Tests.Crates.{crates, crates-Documented}
use ippper_rs.Tests.Requests.{
  head, env, about_job, group, request, canceled_one, printed, until_canceled,
  canceled_one_allocated, canceled_one_state, completing,
}

abbrev asking : ℕ → List String → IppRequestResponse (List ℕ)
asking op names =
    request 512 op 7
      (group operation_attributes (
          attribute "job-id" (integer (pos 1001))
          ∷ attribute "requested-attributes" (array (map keyword names))
          ∷ [])
        ∷ [])
      []

asked :
    asked_for crates-Documented (asking 11 ("printer-name" ∷ "sides-default" ∷ []))
    ≡ some (array (map keyword ("printer-name" ∷ "sides-default" ∷ [])))
unfolding get_ipp_attribute get
asked = refl

asked_of_job :
    asked_for crates-Documented (asking 9 ("job-id" ∷ "media" ∷ []))
    ≡ some (array (map keyword ("job-id" ∷ "media" ∷ [])))
unfolding get_ipp_attribute get
asked_of_job = refl

not_asked : asked_for crates-Documented (about_job 9 (pos 1001)) ≡ none
unfolding get_ipp_attribute get
not_asked = refl

get_printer_attributes-SaysAsked_example :
    let s = new default_info in
    SaysAsked crates-Documented
      ("printer-name" ∷ "sides-default" ∷ [])
      "sides-default"
      printer_attributes
      (get_printer_attributes crates env head
        (asking 11 ("printer-name" ∷ "sides-default" ∷ []))
        s).0
      (get_printer_attributes crates env head (about_job 9 (pos 1001)) s).0
get_printer_attributes-SaysAsked_example =
    get_printer_attributes-SaysAsked crates-Documented env head
      (asking 11 ("printer-name" ∷ "sides-default" ∷ [])) (about_job 9 (pos 1001))
      ("printer-name" ∷ "sides-default" ∷ []) (new default_info) "sides-default" asked not_asked
      refl refl refl

found : find_job crates canceled_one.service (asking 9 ("job-id" ∷ "media" ∷ [])).attributes ≡ ok 1
unfolding find_job get_ipp_attribute get print_job_begin create_job new alloc_job cancel_found
    new_job wrapping_inc
found = refl

found_too : find_job crates canceled_one.service (about_job 9 (pos 1001)).attributes ≡ ok 1
unfolding find_job get_ipp_attribute get print_job_begin create_job new alloc_job cancel_found
    new_job wrapping_inc
found_too = refl

get_job_attributes-SaysAsked_example :
    let s = canceled_one.service in
    SaysAsked crates-Documented
      ("job-id" ∷ "media" ∷ [])
      "job-state"
      job_attributes
      (get_job_attributes crates env head (asking 9 ("job-id" ∷ "media" ∷ [])) s).0
      (get_job_attributes crates env head (about_job 9 (pos 1001)) s).0
get_job_attributes-SaysAsked_example =
    get_job_attributes-SaysAsked crates-Documented env head (asking 9 ("job-id" ∷ "media" ∷ []))
      (about_job 9 (pos 1001)) ("job-id" ∷ "media" ∷ []) canceled_one.service "job-state"
      asked_of_job not_asked refl refl 1 refl found found_too

-- Two jobs at most, of those that are completed.
abbrev completed_jobs : IppRequestResponse (List ℕ)
completed_jobs =
    request 512 10 8
      (group operation_attributes
          (attribute "limit" (integer (pos 2)) ∷ attribute "which-jobs" (keyword "completed") ∷ [])
        ∷ [])
      []

get_jobs-Lists_example :
    let (result, s') = get_jobs crates env head completed_jobs printed.service in
    Lists crates-Documented env head completed_jobs printed.service
      (asked_which crates completed_jobs)
      (asked_states (asked_which crates completed_jobs))
      result
    × (s' ≡ printed.service)
get_jobs-Lists_example = get_jobs-Lists crates-Documented env head completed_jobs printed.service

-- The job is printed while the first one stays canceled, of which a client asks then.
found_canceled : find_job crates printed.service (about_job 9 (pos 1000)).attributes ≡ ok 0
unfolding find_job get_ipp_attribute get print_job_begin create_job new alloc_job cancel_found
    new_job wrapping_inc finish_document
found_canceled = refl

not_asked_either : asked_for crates-Documented (about_job 9 (pos 1000)) ≡ none
unfolding get_ipp_attribute get
not_asked_either = refl

canceled_job-Tells_example :
    Tells crates-Documented
      (record (canceled_one.service.cells 0) { state = canceled })
      (get_job_attributes crates env head (about_job 9 (pos 1000)) printed.service).0
canceled_job-Tells_example =
    canceled_job-Tells crates-Documented env head (about_job 9 (pos 1000)) not_asked_either
      default_info canceled_one printed 0 until_canceled (omega (arith, canceled_one_allocated))
      canceled_one_state (next here completing) found_canceled
