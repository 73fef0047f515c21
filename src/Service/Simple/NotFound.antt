-- ===== src/Service/Simple/NotFound.antt =====
-- Requests to the simple service about a job that it does not have.
use ippper_rs.Prelude.{◌≤◌, ◌≡◌, refl, ap, ◌∙◌, none, some}
use ippper_rs.Ipp.Enums
use ippper_rs.Ipp.Enums.{Operation, operation_attributes, client_error_not_found}
use ippper_rs.Ipp.Attributes.{IppRequestResponse}
use ippper_rs.Ipp.Http.{ReqParts}
use ippper_rs.Ipp.External.{External, Documented}
use ippper_rs.Error.{err, status_error}
use ippper_rs.Service.Common.{dispatch, call, handle_request}
use ippper_rs.Service.Dispatch.{handle_request-err}
use ippper_rs.Service.Simple.State.{SimpleIppService, find_job}
use ippper_rs.Service.Simple.FindJob.{found, find_job-named}
use ippper_rs.Service.Simple.Documents.{Ambient, send_document}
use ippper_rs.Service.Simple.Handlers.{cancel_job, get_job_attributes, simple_service}
use ippper_rs.Service.Simple.Accepted.{answers, named_job}

-- The operations on one job.
abbrev pub IsAboutJob : Operation → Type 0
IsAboutJob Enums.send_document = Unit
IsAboutJob Enums.cancel_job = Unit
IsAboutJob Enums.get_job_attributes = Unit
IsAboutJob _ = ⊥

module _ {P : Type 0} {ext : External P} (doc : Documented ext) (env : Ambient P) where
  find_job-err :
      (req : IppRequestResponse P) (s : SimpleIppService)
      → named_job ext s req ≡ none
      → find_job ext s req.attributes ≡ err (status_error ext client_error_not_found)
  find_job-err req s missing = find_job-named doc req s ∙ ap (found doc) missing

  dispatch-err :
      (op : Operation) (head : ReqParts) (req : IppRequestResponse P) (s : SimpleIppService)
      → IsAboutJob op
      → named_job ext s req ≡ none
      → dispatch ext (simple_service ext env) (some op) head req s
        ≡ (err (status_error ext client_error_not_found), s)
  unfolding dispatch call simple_service send_document cancel_job get_job_attributes
  dispatch-err Enums.send_document head req s about missing =
      rw (find_job-err req s missing, send_document) refl
  dispatch-err Enums.cancel_job head req s about missing =
      rw (find_job-err req s missing, cancel_job) refl
  dispatch-err Enums.get_job_attributes head req s about missing =
      rw (find_job-err req s missing, get_job_attributes) refl
  dispatch-err _ head req s about missing = absurd about

  -- A request of a supported version to send a document to a job, to cancel it or for its
  -- attributes, which names no job of the snapshot, by an id that it does not have or by no number
  -- at all, is answered with "not found", the request's version and its id, and leaves the service
  -- alone.
  pub job_not_found :
      (op : Operation) (head : ReqParts) (req : IppRequestResponse P) (s : SimpleIppService)
      → IsAboutJob op
      → req.header.version ≤ ext.v2_0
      → ext.operation_from_u16 req.header.operation_or_status ≡ some op
      → named_job ext s req ≡ none
      → ((handle_request ext (simple_service ext env) head req s).0.header
          ≡ answers ext req client_error_not_found)
        × ((handle_request ext (simple_service ext env) head req s).1 ≡ s)
  job_not_found op head req s about known code missing =
      handle_request-err doc (simple_service ext env) head req s
        (status_error ext client_error_not_found) s (unfold simple_service in known)
        (rw code (dispatch-err op head req s about missing))
