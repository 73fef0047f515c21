-- ===== src/Tests/TwoSteps.antt =====
-- The two ways to print a document, at a concrete input.
use ippper_rs.Prelude.{ℕ, ◌≡◌, refl, pos, List, [], ◌∷◌, some}
use ippper_rs.Ipp.Enums.{operation_attributes}
use ippper_rs.Ipp.Attributes.{attribute, IppRequestResponse}
use ippper_rs.Ipp.Enums.{job_attributes}
use ippper_rs.Ipp.HashMap.{get}
use ippper_rs.Ipp.Value.{integer, keyword, mime_media_type, name_without_language}
use ippper_rs.Error.{ok}
use ippper_rs.Utils.{get_ipp_attribute, decommpress_payload}
use ippper_rs.Service.Simple.Info.{SimpleIppDocument, default_info}
use ippper_rs.Service.Simple.State.{new}
use ippper_rs.Service.Simple.Documents.{print_job, create_job, send_document}
use ippper_rs.Service.Simple.TwoSteps.{IsSameJob, create_send-IsSameJob}
use ippper_rs.Service.Simple.Accepted.{asked_attributes, asked_document}
use ippper_rs.Tests.Crates.{crates, crates-Documented}
use ippper_rs.Tests.Requests.{head, env, print_request, group, request}

-- The attributes of the job, and the job to which the document goes.
abbrev create_a5 : IppRequestResponse (List ℕ)
create_a5 =
    request 512 5 5
      (group operation_attributes
          (attribute "requesting-user-name" (name_without_language "alice") ∷ [])
        ∷ group job_attributes (attribute "media" (keyword "iso_a5_148x210mm") ∷ [])
        ∷ [])
      []

abbrev send_pdf : IppRequestResponse (List ℕ)
send_pdf =
    request 512 6 6
      (group operation_attributes (
          attribute "job-id" (integer (pos 1000))
          ∷ attribute "document-format" (mime_media_type "application/pdf")
          ∷ [])
        ∷ [])
      (37 ∷ 80 ∷ 68 ∷ 70 ∷ [])

abbrev document : SimpleIppDocument (List ℕ)
document = record {
  format = some "application/pdf";
  job_attributes = asked_attributes crates (new default_info) print_request;
  payload = 37 ∷ 80 ∷ 68 ∷ 70 ∷ [];
}

same_attributes :
    asked_attributes crates (new default_info) create_a5
    ≡ asked_attributes crates (new default_info) print_request
unfolding get_ipp_attribute get new
same_attributes = refl

printed_document :
    asked_document crates
      (new default_info)
      (asked_attributes crates (new default_info) print_request)
      print_request
    ≡ ok document
unfolding get_ipp_attribute get new decommpress_payload
printed_document = refl

sent_document :
    asked_document crates
      (new default_info)
      (asked_attributes crates (new default_info) print_request)
      send_pdf
    ≡ ok document
unfolding get_ipp_attribute get new decommpress_payload
sent_document = refl

sent_to :
    get_ipp_attribute crates send_pdf.attributes operation_attributes "job-id"
    ≡ some (integer (new default_info).job_id)
unfolding get_ipp_attribute get new
sent_to = refl

still_there :
    let s = new default_info in
    crates.cache_get (crates.cache_insert s.job_snapshot s.job_id s.allocated) s.job_id
    ≡ some s.allocated
unfolding new
still_there = refl

create_send-IsSameJob_example :
    let s = new default_info in
    let s₁ = (create_job crates env head create_a5 s).1 in
    IsSameJob
      ((send_document crates env head send_pdf s₁).1.cells s.allocated)
      ((print_job crates env head print_request s).1.cells s.allocated)
create_send-IsSameJob_example =
    create_send-IsSameJob crates-Documented env env env head head head create_a5 send_pdf
      print_request (new default_info) document same_attributes printed_document sent_document refl
      sent_to still_there
