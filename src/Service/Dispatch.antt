-- ===== src/Service/Dispatch.antt =====
-- What `IppService::handle_request` of service/common.rs promises for any service.
use ippper_rs.Prelude.{
  ℕ, ◌<◌, ◌≤◌, ◌≡◌, refl, Option, some, ◌∙◌, ap, arith, leb, Bool-cases, inl, inr, true, false, min,
  eq_refl,
}
use ippper_rs.Ipp.Enums.{Operation, operation_attributes, server_error_version_not_supported}
use ippper_rs.Ipp.Value.{text_without_language}
use ippper_rs.Ipp.Attributes.{IppRequestResponse, IppHeader}
use ippper_rs.Ipp.Http.{ReqParts}
use ippper_rs.Ipp.External.{External, Documented}
use ippper_rs.Error.{Error, ok, err, IppResult}
use ippper_rs.Utils.{get_ipp_attribute}
use ippper_rs.Utils.Lookup.{get_ipp_attribute-eq-find_value}
use ippper_rs.Service.Common.{
  IppService, as_ipp_error, build_error_response, check_version, dispatch, or_error_response,
  handle_request,
}

module _ {P : Type 0} {ext : External P} (doc : Documented ext) where
  -- An error response carries the version and the request id that it is given, the status of the
  -- error (that of an `IppError`, an internal error otherwise), and the text of the error as its
  -- status message.
  pub build_error_response_lem :
      (version req_id : ℕ) (error : Error)
      → ((build_error_response ext version req_id error).header ≡ record {
        version = version;
        operation_or_status = ext.status_code (as_ipp_error ext error).code;
        request_id = req_id;
      })
        × (get_ipp_attribute ext
              (build_error_response ext version req_id error).attributes
              operation_attributes
              ext.names.status_message
            ≡ some (text_without_language (as_ipp_error ext error).msg))
  unfolding build_error_response
  build_error_response_lem version req_id error = (
    doc.header-new_response version (as_ipp_error ext error).code req_id,
    get_ipp_attribute-eq-find_value doc _ operation_attributes ext.names.status_message
        ∙ doc.find-add _ operation_attributes operation_attributes _ ext.names.status_message
        ∙ rw (eq_refl ext.names.status_message) refl,
  )

  module _ {S : Type 0} (service : IppService S P) (head : ReqParts) (req : IppRequestResponse P)
      (s : S) where
    -- A request of a later version than the service's is answered with the service's version, the
    -- request's id and the status "version not supported", and leaves the state alone.
    pub handle_request-version :
        service.version < req.header.version
        → ((handle_request ext service head req s).0.header ≡ record {
          version = service.version;
          operation_or_status = ext.status_code server_error_version_not_supported;
          request_id = req.header.request_id;
        })
          × ((handle_request ext service head req s).1 ≡ s)
    unfolding handle_request check_version
    handle_request-version newer =
        let refused : leb req.header.version service.version ≡ false = ground arith in
        rw refused ((build_error_response_lem _ _ _).0, refl)

    -- If the method that a request of a supported version is for returns an error, or the request
    -- is for none, the answer has the request's version and id and the status of the error, an
    -- internal error if it is no `IppError`, and the state is the one that the method leaves.
    pub handle_request-err :
        (e : Error) (s' : S)
        → req.header.version ≤ service.version
        → dispatch ext service (ext.operation_from_u16 req.header.operation_or_status) head req s
          ≡ (err e, s')
        → ((handle_request ext service head req s).0.header ≡ record {
          version = req.header.version;
          operation_or_status = ext.status_code (as_ipp_error ext e).code;
          request_id = req.header.request_id;
        })
          × ((handle_request ext service head req s).1 ≡ s')
    unfolding handle_request check_version
    handle_request-err e s' known failed =
        let accepted : leb req.header.version service.version ≡ true = ground arith in
        rw (accepted, failed) ((build_error_response_lem _ _ _).0, refl)

  -- The version and the request id of a response.
  abbrev pub Echoes : IppRequestResponse P → IppResult P → Type 0
  Echoes req (ok resp) =
      (resp.header.version ≡ req.header.version) × (resp.header.request_id ≡ req.header.request_id)
  Echoes req (err e) = Unit

  -- Every method of the service echoes the version and the request id in the responses it returns.
  abbrev pub IsEchoing : {S : Type 0} → IppService S P → Type 0
  IsEchoing {S} service =
      (op : Option Operation) (head : ReqParts) (req : IppRequestResponse P) (s : S)
      → Echoes req (dispatch ext service op head req s).0

  or_error_response-Echoes :
      {S : Type 0} (service : IppService S P) (req : IppRequestResponse P) (r : IppResult P)
      → Echoes req r
      → Echoes req (ok (or_error_response ext service req.header.version req.header.request_id r))
  or_error_response-Echoes service req (ok resp) h = h
  or_error_response-Echoes service req (err e) h =
      let header = (build_error_response_lem req.header.version req.header.request_id e).0 in
      (ap (λ (x : IppHeader). x.version) header, ap (λ (x : IppHeader). x.request_id) header)

  -- If every method of a service echoes, the response to any request carries the request's id, and
  -- the smaller of the request's version and the service's.
  pub handle_request-echoes :
      {S : Type 0} (service : IppService S P) (head : ReqParts) (req : IppRequestResponse P) (s : S)
      → IsEchoing service
      → ((handle_request ext service head req s).0.header.request_id ≡ req.header.request_id)
        × ((handle_request ext service head req s).0.header.version
            ≡ min req.header.version service.version)
  unfolding handle_request check_version
  handle_request-echoes service head req s echo =
      elim (Bool-cases (leb req.header.version service.version)) [
        | inl known ↦
            let smaller : req.header.version ≡ min req.header.version service.version =
              ground arith in
            let same = or_error_response-Echoes service req _ (echo _ head req s) in
            rw known (same.1, same.0 ∙ smaller)
        | inr newer ↦
            let smaller : service.version ≡ min req.header.version service.version = ground arith in
            let header = (build_error_response_lem service.version req.header.request_id _).0 in
            rw newer (
              ap (λ (x : IppHeader). x.request_id) header,
              ap (λ (x : IppHeader). x.version) header ∙ smaller,
            )
      ]
