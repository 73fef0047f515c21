-- ===== src/Tests/Parts.antt =====
-- The theorems on the parts that the service stands on, at concrete inputs.
use ippper_rs.Prelude.{ℕ, ◌≡◌, ◌⊎◌, ◌↔◌, refl, false, List, some, pos}
use ippper_rs.Ipp.Enums.{operation_attributes, job_attributes}
use ippper_rs.Ipp.Value.{enum}
use ippper_rs.Ipp.Attributes.{IppRequestResponse}
use ippper_rs.Error.{Result, ok}
use ippper_rs.Model.{
  PageOrientation, landscape, converted, rejected, orientation_of_value, orientation_value,
}
use ippper_rs.Model.Laws.{orientation_of_value-orientation_value}
use ippper_rs.Utils.{contains, take_ipp_attribute, get_ipp_attribute}
use ippper_rs.Utils.Lookup.{take_ipp_attribute-get_ipp_attribute}
use ippper_rs.Service.Simple.PrinterAttributes.{supported_which_jobs}
use ippper_rs.Service.Simple.Handlers.{parse_which_jobs}
use ippper_rs.Service.Simple.Refusals.{parse_which_jobs-supported}
use ippper_rs.Stream.BodyReader.{BodyReader}
use ippper_rs.Tests.Crates.{crates, crates-Documented}
use ippper_rs.Tests.Requests.{print_request}

take_ipp_attribute-get_ipp_attribute_example :
    ((take_ipp_attribute print_request.attributes job_attributes "media").0
      ≡ get_ipp_attribute crates print_request.attributes job_attributes "media")
    × (get_ipp_attribute crates
          (take_ipp_attribute print_request.attributes job_attributes "media").1
          operation_attributes
          "document-format"
        ≡ get_ipp_attribute crates print_request.attributes operation_attributes "document-format")
take_ipp_attribute-get_ipp_attribute_example =
    take_ipp_attribute-get_ipp_attribute crates-Documented print_request.attributes job_attributes
      operation_attributes "media" "document-format" refl

-- A parser that finds one request in every body.
abbrev parse : BodyReader → Result (IppRequestResponse (List ℕ))
parse body = ok print_request

parse_which_jobs-supported_example :
    (contains supported_which_jobs "fetchable" ≡ false)
    ↔ (parse_which_jobs (some "fetchable") ≡ rejected "fetchable")
parse_which_jobs-supported_example = parse_which_jobs-supported "fetchable"

orientation_of_value-orientation_value_example :
    ((orientation_of_value (enum (pos 4)) ≡ converted landscape)
      ↔ (enum (pos 4) ≡ orientation_value landscape))
    × ((orientation_of_value (enum (pos 4)) ≡ rejected (enum (pos 4)))
        ⊎ ((o' : PageOrientation) × (orientation_of_value (enum (pos 4)) ≡ converted o')))
orientation_of_value-orientation_value_example =
    orientation_of_value-orientation_value (enum (pos 4)) landscape
