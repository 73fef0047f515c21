-- ===== src/Tests/Answers.antt =====
-- The theorems on what the service answers at concrete inputs.
use ippper_rs.Prelude.{◌≡◌, refl, pos, min}
use ippper_rs.Ipp.Enums.{operation_attributes}
use ippper_rs.Utils.{get_ipp_attribute}
use ippper_rs.Service.Common.{handle_request}
use ippper_rs.Service.Simple.Info.{default_info, take_ipp_attributes}
use ippper_rs.Service.Simple.Handlers.{simple_service}
use ippper_rs.Service.Simple.Answers.{simple_service-echoes}
use ippper_rs.Service.Simple.Requested.{requested_job_attributes, take_ipp_attributes-requested}
use ippper_rs.Tests.Crates.{crates, crates-Documented}
use ippper_rs.Tests.Requests.{head, env, print_request, about_job, created}

simple_service-echoes_example :
    ((handle_request crates
        (simple_service crates env)
        head
        (about_job 8 (pos 1000))
        created.service).0.header.request_id
      ≡ 4)
    × ((handle_request crates
          (simple_service crates env)
          head
          (about_job 8 (pos 1000))
          created.service).0.header.version
        ≡ min 512 512)
simple_service-echoes_example =
    simple_service-echoes crates-Documented env head (about_job 8 (pos 1000)) created.service

take_ipp_attributes-requested_example :
    ((take_ipp_attributes crates default_info "alice" print_request.attributes).0
      ≡ requested_job_attributes crates default_info "alice" print_request.attributes)
    × (get_ipp_attribute crates
          (take_ipp_attributes crates default_info "alice" print_request.attributes).1
          operation_attributes
          "document-format"
        ≡ get_ipp_attribute crates print_request.attributes operation_attributes "document-format")
take_ipp_attributes-requested_example =
    take_ipp_attributes-requested crates-Documented default_info "alice" print_request.attributes
      operation_attributes "document-format" refl
