-- ===== src/Service/Common.antt =====
-- service/common.rs: the trait `IppService` with its default methods, the error response and the
-- dispatch of a request.
use ippper_rs.Prelude.{ℕ, Bool, not, Option, none, some, if◌then◌else◌, leb}
use ippper_rs.Ipp.Enums
use ippper_rs.Ipp.Enums.{
  Operation, operation_attributes, server_error_internal_error,
  server_error_operation_not_supported, server_error_version_not_supported,
}
use ippper_rs.Ipp.Value.{text_without_language}
use ippper_rs.Ipp.Attributes.{attribute, IppRequestResponse}
use ippper_rs.Ipp.Http.{ReqParts}
use ippper_rs.Ipp.External.{External}
use ippper_rs.Error.{IppError, Error, ipp, other, ok, err, IppResult, status_error, error_text}

-- A method of a service over the state `S`.
abbrev pub Method : Type 0 → Type 0 → Type 0
Method S P = ReqParts → IppRequestResponse P → S → IppResult P × S

pub record IppService (S : Type 0) (P : Type 0) : Type 0 where
  pub print_job : Method S P
  pub print_uri : Method S P
  pub validate_job : Method S P
  pub create_job : Method S P
  pub send_document : Method S P
  pub send_uri : Method S P
  pub cancel_job : Method S P
  pub get_job_attributes : Method S P
  pub get_jobs : Method S P
  pub get_printer_attributes : Method S P
  pub hold_job : Method S P
  pub release_job : Method S P
  pub restart_job : Method S P
  pub pause_printer : Method S P
  pub resume_printer : Method S P
  pub purge_jobs : Method S P
  pub version : ℕ

module _ {P : Type 0} (ext : External P) where
  abbrev pub operation_not_supported : Error
  operation_not_supported = status_error ext server_error_operation_not_supported

  -- The body of every default method.
  abbrev pub unsupported : {S : Type 0} → Method S P
  unsupported head req s = (err operation_not_supported, s)

  -- The trait with no method overridden.
  abbrev pub default_service : (S : Type 0) → IppService S P
  default_service S = record {
    print_job = unsupported;
    print_uri = unsupported;
    validate_job = unsupported;
    create_job = unsupported;
    send_document = unsupported;
    send_uri = unsupported;
    cancel_job = unsupported;
    get_job_attributes = unsupported;
    get_jobs = unsupported;
    get_printer_attributes = unsupported;
    hold_job = unsupported;
    release_job = unsupported;
    restart_job = unsupported;
    pause_printer = unsupported;
    resume_printer = unsupported;
    purge_jobs = unsupported;
    version = ext.v1_1;
  }

  -- `error.downcast_ref::<IppError>()`, or an internal error with the text of the error.
  abbrev pub as_ipp_error : Error → IppError
  as_ipp_error (ipp e) = e
  as_ipp_error (other s) = record {
    code = server_error_internal_error;
    msg = error_text ext (other s);
  }

  unfoldable pub build_error_response : ℕ → ℕ → Error → IppRequestResponse P
  build_error_response version req_id error =
      let ipp_error : IppError = as_ipp_error error in
      let resp = ext.new_response version ipp_error.code req_id in
      record resp {
        attributes =
            ext.add resp.attributes operation_attributes
              (attribute ext.names.status_message (text_without_language ipp_error.msg));
      }

  module _ {S : Type 0} (service : IppService S P) where
    unfoldable pub check_version : IppRequestResponse P → Bool
    check_version req = leb req.header.version service.version

    -- The `match` on a known operation.
    unfoldable pub call : Operation → Method S P
    call Enums.print_job = service.print_job
    call Enums.print_uri = service.print_uri
    call Enums.validate_job = service.validate_job
    call Enums.create_job = service.create_job
    call Enums.send_document = service.send_document
    call Enums.send_uri = service.send_uri
    call Enums.cancel_job = service.cancel_job
    call Enums.get_job_attributes = service.get_job_attributes
    call Enums.get_jobs = service.get_jobs
    call Enums.get_printer_attributes = service.get_printer_attributes
    call Enums.hold_job = service.hold_job
    call Enums.release_job = service.release_job
    call Enums.restart_job = service.restart_job
    call Enums.pause_printer = service.pause_printer
    call Enums.resume_printer = service.resume_printer
    call Enums.purge_jobs = service.purge_jobs
    call (Operation.other _) = unsupported

    -- The `match` on the decoded operation code.
    unfoldable pub dispatch : Option Operation → Method S P
    unfolding call
    dispatch none = unsupported
    dispatch (some op) = call op

    -- `unwrap_or_else(|error| self.build_error_response(version, req_id, error))`.
    abbrev pub or_error_response : ℕ → ℕ → IppResult P → IppRequestResponse P
    or_error_response version req_id (ok resp) = resp
    or_error_response version req_id (err error) = build_error_response version req_id error

    unfoldable pub handle_request : ReqParts → IppRequestResponse P → S → IppRequestResponse P × S
    unfolding check_version
    handle_request head req s =
        if not (check_version req)
        then (
          build_error_response service.version req.header.request_id
              (status_error ext server_error_version_not_supported),
          s,
        )
        else let (result, s') =
            dispatch (ext.operation_from_u16 req.header.operation_or_status) head req s in
          (or_error_response req.header.version req.header.request_id result, s')
