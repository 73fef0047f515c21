-- ===== src/Service/Simple/Outcomes.antt =====
-- What `print_job` of service/simple.rs leaves behind, on every branch; `send_document` is in the
-- child.
pub mod Send
use ippper_rs.Prelude.{ℕ, ◌+◌, ◌≡◌, ◌≢◌, ◌⊎◌, inl, inr, refl, none, arith, subst, ap, ◌∙◌, eqb_iff}
use ippper_rs.Ipp.Enums.{
  successful_ok, client_error_not_possible, processing, canceled, same_state_iff,
}
use ippper_rs.Ipp.Attributes.{IppRequestResponse}
use ippper_rs.Ipp.Http.{ReqParts}
use ippper_rs.Ipp.External.{External, Documented}
use ippper_rs.Error.{Error, ipp, Result, ok, err, Result-cases}
use ippper_rs.Service.Common.{as_ipp_error, build_error_response}
use ippper_rs.Service.Simple.Info.{JobInfo, Duration, SimpleIppDocument, SimpleIppJobAttributes}
use ippper_rs.Service.Simple.State.{SimpleIppService, alloc_job, write_job}
use ippper_rs.Service.Simple.Responses.{add_basic_attributes, push_group, job_response}
use ippper_rs.Service.Simple.Documents.{
  Ambient, finished, document_response, finish_document, run_document, new_job, print_job_begin,
  print_job, mark_processing, prepare_document, send_document_begin, continue_document, send_to_job,
}
use ippper_rs.Service.Simple.RequestedDocument.{
  taken, taken-requested, prepare_document-taken, prepare_document-requested,
}
use ippper_rs.Service.Simple.Accepted.{
  answers, Handled, Keeps, Outcome, asked_attributes, asked_document, made_job, Spares,
}

module _ {P : Type 0} (ext : External P) where
  module _ (doc : Documented ext) (req : IppRequestResponse P) where
    header-job_response :
        (s : SimpleIppService) (head : ReqParts) (job : JobInfo) (resp : IppRequestResponse P)
        → (job_response ext s head job resp).header ≡ resp.header
    unfolding job_response push_group add_basic_attributes
    header-job_response s head job resp = refl

    header-document_response_ok :
        (u : Unit {0}) → (document_response ext (ok u) req).header ≡ answers ext req successful_ok
    unfolding document_response
    header-document_response_ok u = doc.header-new_response _ _ _

    header-document_response_err :
        (e : Error)
        → (document_response ext (err e) req).header ≡ answers ext req (as_ipp_error ext e).code
    unfolding document_response build_error_response
    header-document_response_err e = doc.header-new_response _ _ _

    module _ (env : Ambient P) (head : ReqParts) (h : ℕ) (s : SimpleIppService) where
      finish_document-Handled :
          (handled : Result (Unit {0}))
          → let (resp, s') = finish_document ext head req h handled (env.uptime 1) s in
            Handled ext env req handled resp (s'.cells h)
      unfolding finish_document finished job_response push_group add_basic_attributes
      finish_document-Handled (ok u) =
          (ground arith, ground arith, ground arith, header-document_response_ok u)
      finish_document-Handled (err e) =
          (ground arith, ground arith, ground arith, header-document_response_err e)

      finish_document-Keeps :
          (handled : Result (Unit {0}))
          → let (resp, s') = finish_document ext head req h handled (env.uptime 1) s in
            Keeps (s.cells h) (s'.cells h)
      unfolding finish_document finished
      finish_document-Keeps (ok u) =
          (ground arith, ground arith, ground arith, ground arith, ground arith, ground arith)
      finish_document-Keeps (err e) =
          (ground arith, ground arith, ground arith, ground arith, ground arith, ground arith)

      pub run_document-Spares :
          (document : Result (SimpleIppDocument P))
          → Spares h s (run_document ext env head req h document s).1
      unfolding run_document finish_document
      run_document-Spares (err e) i other = refl
      run_document-Spares (ok document) i other = ground (arith, eqb_iff i h)

      pub run_document-Outcome :
          (document : Result (SimpleIppDocument P))
          → let (result, s') = run_document ext env head req h document s in
            Outcome ext env req document result (s.cells h) (s'.cells h)
      unfolding run_document
      run_document-Outcome (err e) = (refl, refl)
      run_document-Outcome (ok document) = (
        document,
        refl,
        finish_document-Keeps (env.handle_document document),
        finish_document-Handled (env.handle_document document),
      )

      run_document-allocated :
          (document : Result (SimpleIppDocument P))
          → (run_document ext env head req h document s).1.allocated ≡ s.allocated
      unfolding run_document finish_document
      run_document-allocated (err e) = refl
      run_document-allocated (ok document) = refl

    -- A job that is made as processing, and its document.
    new_job-Outcome :
        (env : Ambient P) (head : ReqParts) (s : SimpleIppService) (attrs : SimpleIppJobAttributes)
        (document : Result (SimpleIppDocument P))
        → let init = new_job ext env processing "Processing" attrs in
          let (h, s₁) = alloc_job ext init s in
          let (result, s') = run_document ext env head req h document s₁ in
          (s'.allocated ≡ s.allocated + 1)
          × Spares s.allocated s s'
          × Outcome ext env req document result (init s.job_id) (s'.cells s.allocated)
    unfolding alloc_job
    new_job-Outcome env head s attrs document =
        let init = new_job ext env processing "Processing" attrs in
        let s₁ = (alloc_job ext init s).1 in
        let (result, s') = run_document ext env head req s.allocated document s₁ in
        let made : s₁.cells s.allocated ≡ init s.job_id = ground arith in
        (
          run_document-allocated env head s.allocated s₁ document,
          λ i other.
              run_document-Spares env head s.allocated s₁ document i other
              ∙ ground (arith, eqb_iff i s.allocated),
          subst (λ job. Outcome ext env req document result job (s'.cells s.allocated)) made
              (run_document-Outcome env head s.allocated s₁ document),
        )

    -- `print_job` makes one job and keeps it, and touches no other. The job is accepted as
    -- processing since the first reading of the clock, which is its time of creation too, with the
    -- next id, the UUID that is drawn for it, the message "Processing", the reason "none", the
    -- attributes that the request asks for and no time of completion. If a response is returned,
    -- the handler has been run on the document that the request asks for, the job is completed or
    -- aborted as the handler says, which its message says too with the handler's error, at the
    -- reading of the clock after it, and in all other fields as it was accepted, and the response
    -- has the request's version and id and the status of that outcome. If an error is returned, that
    -- of an unsupported document format or compression, the job stays as it was accepted.
    pub print_job-Outcome :
        (env : Ambient P) (head : ReqParts) (s : SimpleIppService)
        → let (result, s') = print_job ext env head req s in
          (s'.allocated ≡ s.allocated + 1)
          × Spares s.allocated s s'
          × Outcome ext env req
              (asked_document ext s (asked_attributes ext s req) req)
              result
              (made_job ext env s req)
              (s'.cells s.allocated)
    unfolding print_job print_job_begin alloc_job new_job
    print_job-Outcome env head s =
        let (result, s') = print_job ext env head req s in
        let (attrs, r) = taken doc s.info req.attributes in
        let (more, spares, outcome) =
          new_job-Outcome env head s attrs (prepare_document ext s.info attrs r req.payload) in
        let made : new_job ext env processing "Processing" attrs s.job_id ≡ made_job ext env s req =
          ap (λ a. new_job ext env processing "Processing" a s.job_id)
            (taken-requested doc s.info req.attributes) in
        (
          more,
          spares,
          subst (λ d. Outcome ext env req d result (made_job ext env s req) (s'.cells s.allocated))
              (prepare_document-taken doc s.info req.attributes req.payload)
              (subst
                (λ job.
                  Outcome ext env req (prepare_document ext s.info attrs r req.payload) result job
                    (s'.cells s.allocated))
                made outcome),
        )
