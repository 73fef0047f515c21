-- ===== src/Service/Simple/Answers.antt =====
-- The headers of the responses of the simple service, and the operations that it does not have.
use ippper_rs.Prelude.{
  ℕ, ℤ, ◌≤◌, ◌≡◌, ◌⊎◌, inl, inr, refl, ◌∙◌, ap, List, [], ◌∷◌, Option, none, some, arith, min,
  Bool-cases, suc, String,
}
use ippper_rs.Ipp.Enums
use ippper_rs.Ipp.Enums.{
  Operation, StatusCode, same_state, pending, canceled, server_error_operation_not_supported,
}
use ippper_rs.Ipp.Attributes.{IppHeader, IppRequestResponse}
use ippper_rs.Ipp.Http.{ReqParts}
use ippper_rs.Ipp.External.{External, Documented}
use ippper_rs.Error.{Result, ok, err, IppResult, Result-cases}
use ippper_rs.Model.{WhichJob, Converted, converted, rejected}
use ippper_rs.Service.Common.{dispatch, call, handle_request, operation_not_supported}
use ippper_rs.Service.Dispatch.{Echoes, IsEchoing, handle_request-echoes, handle_request-err}
use ippper_rs.Service.Simple.Info.{JobInfo, SimpleIppDocument}
use ippper_rs.Service.Simple.JobAttributes.{job_attributes_for}
use ippper_rs.Service.Simple.PrinterAttributes.{supported_operations}
use ippper_rs.Service.Simple.State.{SimpleIppService, find_job}
use ippper_rs.Service.Simple.Responses.{
  add_basic_attributes, push_group, job_response, basic_response,
}
use ippper_rs.Service.Simple.Documents.{Ambient, print_job, create_job, send_document, send_to_job}
use ippper_rs.Service.Simple.Handlers.{
  validate_job, cancel_found, cancel_job, get_job_attributes, list_jobs, get_jobs, answer_jobs,
  get_printer_attributes, simple_service,
}
use ippper_rs.Service.Simple.Accepted.{answers, Handled, Outcome}
use ippper_rs.Service.Simple.Outcomes.{print_job-Outcome}
use ippper_rs.Service.Simple.Outcomes.Send.{send_to_job-Outcome}

abbrev pub Listed : Operation → List Operation → Type 0
Listed op [] = ⊥
Listed op (o ∷ ops) = (op ≡ o) ⊎ Listed op ops

module _ {P : Type 0} {ext : External P} (doc : Documented ext) (req : IppRequestResponse P) where
  header-basic_response :
      (status : StatusCode) → (basic_response ext req status).header ≡ answers ext req status
  unfolding basic_response add_basic_attributes
  header-basic_response status = doc.header-new_response _ _ _

  Echoes-answers :
      (resp : IppRequestResponse P) (status : StatusCode)
      → resp.header ≡ answers ext req status
      → Echoes doc req (ok resp)
  Echoes-answers resp status e =
      (ap (λ (x : IppHeader). x.version) e, ap (λ (x : IppHeader). x.request_id) e)

  Echoes-basic_response :
      (status : StatusCode) → Echoes doc req (ok (basic_response ext req status))
  Echoes-basic_response status =
      Echoes-answers (basic_response ext req status) status (header-basic_response status)

  Echoes-Handled :
      (env : Ambient P) (handled : Result (Unit {0})) (resp : IppRequestResponse P) (job : JobInfo)
      → Handled ext env req handled resp job
      → Echoes doc req (ok resp)
  Echoes-Handled env (ok _) resp job h = Echoes-answers resp _ h.3
  Echoes-Handled env (err e) resp job h = Echoes-answers resp _ h.3

  Echoes-Outcome :
      (env : Ambient P) (asked : Result (SimpleIppDocument P)) (r : IppResult P) (old job : JobInfo)
      → Outcome ext env req asked r old job
      → Echoes doc req r
  Echoes-Outcome env asked (ok resp) old job h = Echoes-Handled env _ resp job h.3
  Echoes-Outcome env asked (err e) old job h = tt

  module _ (env : Ambient P) (head : ReqParts) (s : SimpleIppService) where
    pub header-list_jobs :
        (which : WhichJob) (limit : Option ℤ) (requested : List String) (count : ℕ)
        (entries : List (ℤ × ℕ)) (resp : IppRequestResponse P)
        → (list_jobs ext env head s which limit requested count entries resp).header ≡ resp.header
    unfolding list_jobs push_group
    header-list_jobs which limit requested count [] resp = refl
    header-list_jobs which limit requested count ((k, h) ∷ rest) resp =
        let attrs =
          job_attributes_for ext s.host s.basepath head (s.cells h) requested (env.uptime count) in
        ground (
          arith,
          header-list_jobs which limit requested count rest resp,
          header-list_jobs which limit requested (suc count) rest
              (push_group ext Enums.job_attributes attrs resp),
        )

    Echoes-print_job : Echoes doc req (print_job ext env head req s).0
    Echoes-print_job = Echoes-Outcome env _ _ _ _ (print_job-Outcome ext doc req env head s).2

    Echoes-create_job : Echoes doc req (create_job ext env head req s).0
    unfolding create_job job_response push_group add_basic_attributes
    Echoes-create_job =
        let e =
          doc.header-new_response req.header.version Enums.successful_ok req.header.request_id in
        (ap (λ (x : IppHeader). x.version) e, ap (λ (x : IppHeader). x.request_id) e)

    Echoes-send_to_job : (h : ℕ) → Echoes doc req (send_to_job ext env head req h s).0
    Echoes-send_to_job h = elim (send_to_job-Outcome ext doc req env head h s) [
      | inl refused ↦ rw (refused.1) tt
      | inr accepted ↦ Echoes-Outcome env _ _ _ _ accepted.2
    ]

    Echoes-cancel_found : (h : ℕ) → Echoes doc req (cancel_found ext req h s).0
    unfolding cancel_found
    Echoes-cancel_found h = elim (Bool-cases (same_state (s.cells h).state pending)) [
      | inl waits ↦ rw waits (Echoes-basic_response Enums.successful_ok)
      | inr other ↦ rw other (Echoes-basic_response Enums.client_error_not_possible)
    ]

    Echoes-send_document : Echoes doc req (send_document ext env head req s).0
    unfolding send_document
    Echoes-send_document = elim (Result-cases (find_job ext s req.attributes)) [
      | inl (h, there) ↦ rw (there, send_document) (Echoes-send_to_job h)
      | inr (e, missing) ↦ rw (missing, send_document) tt
    ]

    Echoes-cancel_job : Echoes doc req (cancel_job ext head req s).0
    unfolding cancel_job
    Echoes-cancel_job = elim (Result-cases (find_job ext s req.attributes)) [
      | inl (h, there) ↦ rw (there, cancel_job) (Echoes-cancel_found h)
      | inr (e, missing) ↦ rw (missing, cancel_job) tt
    ]

    Echoes-get_job_attributes : Echoes doc req (get_job_attributes ext env head req s).0
    unfolding get_job_attributes push_group
    Echoes-get_job_attributes = elim (Result-cases (find_job ext s req.attributes)) [
      | inl (h, there) ↦ rw (there, get_job_attributes) (Echoes-basic_response Enums.successful_ok)
      | inr (e, missing) ↦ rw (missing, get_job_attributes) tt
    ]

    Echoes-answer_jobs :
        (limit : Option ℤ) (requested : List String) (which : Converted WhichJob String)
        → Echoes doc req (ok (answer_jobs ext env head req s limit requested which))
    unfolding answer_jobs push_group
    Echoes-answer_jobs limit requested (rejected unknown) =
        Echoes-basic_response Enums.client_error_attributes_or_values_not_supported
    Echoes-answer_jobs limit requested (converted which) =
        let entries = ext.cache_iter s.job_snapshot in
        let resp = basic_response ext req Enums.successful_ok in
        let e =
          header-list_jobs which limit requested 0 entries resp
          ∙ header-basic_response Enums.successful_ok in
        (ap (λ (x : IppHeader). x.version) e, ap (λ (x : IppHeader). x.request_id) e)

    Echoes-get_jobs : Echoes doc req (get_jobs ext env head req s).0
    unfolding get_jobs
    Echoes-get_jobs = Echoes-answer_jobs _ _ _

    Echoes-get_printer_attributes : Echoes doc req (get_printer_attributes ext env head req s).0
    unfolding get_printer_attributes push_group
    Echoes-get_printer_attributes = Echoes-basic_response Enums.successful_ok

module _ {P : Type 0} {ext : External P} (doc : Documented ext) (env : Ambient P) where
  simple_service-IsEchoing : IsEchoing doc (simple_service ext env)
  unfolding dispatch call simple_service validate_job
  simple_service-IsEchoing none head req s = tt
  simple_service-IsEchoing (some Enums.print_job) head req s = Echoes-print_job doc req env head s
  simple_service-IsEchoing (some Enums.validate_job) head req s =
      Echoes-basic_response doc req Enums.successful_ok
  simple_service-IsEchoing (some Enums.create_job) head req s = Echoes-create_job doc req env head s
  simple_service-IsEchoing (some Enums.send_document) head req s =
      Echoes-send_document doc req env head s
  simple_service-IsEchoing (some Enums.cancel_job) head req s = Echoes-cancel_job doc req env head s
  simple_service-IsEchoing (some Enums.get_job_attributes) head req s =
      Echoes-get_job_attributes doc req env head s
  simple_service-IsEchoing (some Enums.get_jobs) head req s = Echoes-get_jobs doc req env head s
  simple_service-IsEchoing (some Enums.get_printer_attributes) head req s =
      Echoes-get_printer_attributes doc req env head s
  simple_service-IsEchoing (some _) head req s = tt

  -- The simple service answers every request, whatever it asks for and whatever becomes of it, with
  -- the request's id and the smaller of the request's version and IPP 2.0.
  pub simple_service-echoes :
      (head : ReqParts) (req : IppRequestResponse P) (s : SimpleIppService)
      → ((handle_request ext (simple_service ext env) head req s).0.header.request_id
          ≡ req.header.request_id)
        × ((handle_request ext (simple_service ext env) head req s).0.header.version
            ≡ min req.header.version ext.v2_0)
  simple_service-echoes head req s =
      unfold simple_service in
      handle_request-echoes doc (simple_service ext env) head req s simple_service-IsEchoing

  dispatch-unlisted :
      (op : Operation) (head : ReqParts) (req : IppRequestResponse P) (s : SimpleIppService)
      → ¬ Listed op supported_operations
      → dispatch ext (simple_service ext env) (some op) head req s
        ≡ (err (operation_not_supported ext), s)
  unfolding dispatch call simple_service
  dispatch-unlisted Enums.print_uri head req s h = refl
  dispatch-unlisted op head req s h = ground arith

  -- A request for an operation that the printer does not list as supported is answered with
  -- "operation not supported", the request's version and its id, and leaves the service alone, if
  -- the request's version is supported.
  pub simple_service-unlisted :
      (op : Operation) (head : ReqParts) (req : IppRequestResponse P) (s : SimpleIppService)
      → req.header.version ≤ ext.v2_0
      → ext.operation_from_u16 req.header.operation_or_status ≡ some op
      → ¬ Listed op supported_operations
      → ((handle_request ext (simple_service ext env) head req s).0.header
          ≡ answers ext req server_error_operation_not_supported)
        × ((handle_request ext (simple_service ext env) head req s).1 ≡ s)
  simple_service-unlisted op head req s known code h =
      handle_request-err doc (simple_service ext env) head req s (operation_not_supported ext) s
        (unfold simple_service in known) (rw code (dispatch-unlisted op head req s h))
