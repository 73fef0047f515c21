-- ===== src/Tests/Errors.antt =====
-- The theorems on error answers and on the dispatch at concrete inputs.
use ippper_rs.Prelude.{◌≡◌, refl, pos, ℕ, List, none, some, [], arith}
use ippper_rs.Ipp.Enums
use ippper_rs.Ipp.Enums.{
  operation_attributes, job_attributes, successful_ok, client_error_not_found,
  server_error_version_not_supported, server_error_operation_not_supported,
  server_error_internal_error,
}
use ippper_rs.Ipp.Attributes.{IppRequestResponse}
use ippper_rs.Error.{err}
use ippper_rs.Utils.{get_ipp_attribute}
use ippper_rs.Service.Common.{
  default_service, handle_request, dispatch, call, operation_not_supported,
}
use ippper_rs.Service.Dispatch.{IsEchoing, handle_request-version, handle_request-err}
use ippper_rs.Service.Simple.Info.{default_info}
use ippper_rs.Service.Simple.State.{SimpleIppService, new, alloc_job}
use ippper_rs.Service.Simple.PrinterAttributes.{supported_operations}
use ippper_rs.Service.Simple.Handlers.{simple_service}
use ippper_rs.Service.Simple.Answers.{Listed, simple_service-unlisted}
use ippper_rs.Service.Simple.Accepted.{answers}
use ippper_rs.Ipp.HashMap.{get}
use ippper_rs.Service.Simple.Documents.{create_job}
use ippper_rs.Service.Simple.NotFound.{job_not_found}
use ippper_rs.Service.Simple.Accepted.{named_job}
use ippper_rs.Tests.Crates.{crates, crates-Documented}
use ippper_rs.Tests.Requests.{head, env, request, print_request, about_job, created}

-- Hold-Job is not among the operations of the printer.
hold_job_unlisted : ¬ Listed Enums.hold_job supported_operations
hold_job_unlisted h = ground arith

simple_service-unlisted_example :
    ((handle_request crates
        (simple_service crates env)
        head
        (about_job 12 (pos 1000))
        created.service).0.header
      ≡ answers crates (about_job 12 (pos 1000)) server_error_operation_not_supported)
    × ((handle_request crates
          (simple_service crates env)
          head
          (about_job 12 (pos 1000))
          created.service).1
        ≡ created.service)
simple_service-unlisted_example =
    simple_service-unlisted crates-Documented env Enums.hold_job head (about_job 12 (pos 1000))
      created.service (omega arith) refl hold_job_unlisted

handle_request-version_example :
    ((handle_request crates
        (default_service crates SimpleIppService)
        head
        print_request
        (new default_info)).0.header
      ≡ record {
        version = 257;
        operation_or_status = crates.status_code server_error_version_not_supported;
        request_id = 1;
      })
    × ((handle_request crates
          (default_service crates SimpleIppService)
          head
          print_request
          (new default_info)).1
        ≡ new default_info)
handle_request-version_example =
    handle_request-version crates-Documented (default_service crates SimpleIppService) head
      print_request (new default_info) (omega arith)

abbrev old_request : IppRequestResponse (List ℕ)
old_request = request 257 2 9 [] []

default_print_job :
    dispatch crates
      (default_service crates SimpleIppService)
      (crates.operation_from_u16 2)
      head
      old_request
      (new default_info)
    ≡ (err (operation_not_supported crates), new default_info)
unfolding dispatch
default_print_job = refl

handle_request-err_example :
    ((handle_request crates
        (default_service crates SimpleIppService)
        head
        old_request
        (new default_info)).0.header
      ≡ record {
        version = 257;
        operation_or_status = crates.status_code server_error_operation_not_supported;
        request_id = 9;
      })
    × ((handle_request crates
          (default_service crates SimpleIppService)
          head
          old_request
          (new default_info)).1
        ≡ new default_info)
handle_request-err_example =
    handle_request-err crates-Documented (default_service crates SimpleIppService) head old_request
      (new default_info) (operation_not_supported crates) (new default_info) (omega arith)
      default_print_job

default_service-IsEchoing : IsEchoing crates-Documented (default_service crates SimpleIppService)
unfolding dispatch call
default_service-IsEchoing none head req s = tt
default_service-IsEchoing (some op) head req s = ground arith

no_such_job : named_job crates created.service (about_job 9 (pos 77)) ≡ none
unfolding get_ipp_attribute get create_job new alloc_job
no_such_job = refl

job_not_found_example :
    ((handle_request crates
        (simple_service crates env)
        head
        (about_job 9 (pos 77))
        created.service).0.header
      ≡ answers crates (about_job 9 (pos 77)) client_error_not_found)
    × ((handle_request crates
          (simple_service crates env)
          head
          (about_job 9 (pos 77))
          created.service).1
        ≡ created.service)
job_not_found_example =
    job_not_found crates-Documented env Enums.get_job_attributes head (about_job 9 (pos 77))
      created.service tt (omega arith) refl no_such_job
