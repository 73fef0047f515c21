-- ===== src/Service/Simple/Outcomes/Send.antt =====
-- What `send_document` of service/simple.rs leaves behind, on every branch.
use ippper_rs.Prelude.{ℕ, ◌≡◌, ◌≢◌, ◌⊎◌, inl, inr, refl, arith, subst, ap, ◌∙◌, eqb_iff}
use ippper_rs.Ipp.Enums.{client_error_not_possible, processing, canceled, same_state_iff}
use ippper_rs.Ipp.Attributes.{IppRequestResponse}
use ippper_rs.Ipp.Http.{ReqParts}
use ippper_rs.Ipp.External.{External, Documented}
use ippper_rs.Error.{Error, ipp, Result, ok, err, Result-cases}
use ippper_rs.Service.Simple.Info.{JobInfo, Duration, SimpleIppDocument}
use ippper_rs.Service.Simple.State.{SimpleIppService, write_job}
use ippper_rs.Service.Simple.Documents.{
  Ambient, run_document, mark_processing, prepare_document, send_document_begin, continue_document,
  send_to_job,
}
use ippper_rs.Service.Simple.RequestedDocument.{prepare_document-requested}
use ippper_rs.Service.Simple.Outcomes.{run_document-Outcome, run_document-Spares}
use ippper_rs.Service.Simple.Accepted.{Outcome, asked_document, started_job, Spares}

module _ {P : Type 0} (ext : External P) where
  module _ (doc : Documented ext) (req : IppRequestResponse P) where
    accept :
        (env : Ambient P) (head : ReqParts) (h : ℕ) (s : SimpleIppService) (job : JobInfo)
        (document : Result (SimpleIppDocument P))
        → let (result, s') = run_document ext env head req h document (write_job h job s) in
          Spares h s s' × Outcome ext env req document result job (s'.cells h)
    accept env head h s job document =
        let s₁ = write_job h job s in
        let written : s₁.cells h ≡ job = ground arith in
        let (result, s') = run_document ext env head req h document s₁ in
        (
          λ i other.
              run_document-Spares ext doc req env head h s₁ document i other
              ∙ ground (arith, eqb_iff i h),
          subst (λ j. Outcome ext env req document result j (s'.cells h)) written
              (run_document-Outcome ext doc req env head h s₁ document),
        )

    mark_processing-err :
        (now : Duration) (job : JobInfo) (e : Error)
        → mark_processing ext now job ≡ err e
        → (job.state ≡ canceled)
          × (e ≡ ipp (record { code = client_error_not_possible; msg = "Job is canceled" }))
    unfolding mark_processing
    mark_processing-err now job e h = ground (arith, same_state_iff job.state canceled)

    mark_processing-ok :
        (env : Ambient P) (job job' : JobInfo)
        → mark_processing ext (env.uptime 0) job ≡ ok job'
        → (job.state ≢ canceled) × (job' ≡ started_job env job)
    unfolding mark_processing
    mark_processing-ok env job job' h =
        ground (arith, same_state_iff job.state processing, same_state_iff job.state canceled)

    started_job-attributes :
        (env : Ambient P) (job : JobInfo) → (started_job env job).attributes ≡ job.attributes
    started_job-attributes env job = ground arith

    -- `send_document` on a job that it has found. A canceled job is refused: the error says that
    -- this is not possible, and nothing changes. Any other job is accepted and no other is touched: a
    -- job that is processing stays as it is, another becomes processing at the first reading of the
    -- clock, with the message "Processing", and is otherwise as it was, its time of completion
    -- included. If a response is returned, the handler has been run on the document that the request
    -- asks for, with the job's attributes, the job has ended as the handler says, which its message
    -- says too with the handler's error, at the reading of the clock after it, and in all other
    -- fields as it was accepted, and the response has the request's version and id and the status of
    -- that outcome; if an error is returned, that of an unsupported document format or compression,
    -- the job stays as it was accepted, processing.
    pub send_to_job-Outcome :
        (env : Ambient P) (head : ReqParts) (h : ℕ) (s : SimpleIppService)
        → let (result, s') = send_to_job ext env head req h s in
          (((s.cells h).state ≡ canceled)
            × (result
                ≡ err (ipp (record { code = client_error_not_possible; msg = "Job is canceled" })))
            × (s' ≡ s))
          ⊎ (((s.cells h).state ≢ canceled)
              × Spares h s s'
              × Outcome ext env req
                  (asked_document ext s (s.cells h).attributes req)
                  result
                  (started_job env (s.cells h))
                  (s'.cells h))
    unfolding send_to_job send_document_begin continue_document
    send_to_job-Outcome env head h s =
        elim (Result-cases (mark_processing ext (env.uptime 0) (s.cells h))) [
          | inr (e, refused) ↦
              let (gone, said) = mark_processing-err (env.uptime 0) (s.cells h) e refused in
              rw (refused, send_to_job, send_document_begin, continue_document)
                (inl (gone, cc said, refl))
          | inl (job, marked) ↦
              let (open_, started) = mark_processing-ok env (s.cells h) job marked in
              let document =
                prepare_document ext s.info job.attributes req.attributes req.payload in
              let asked : document ≡ asked_document ext s (s.cells h).attributes req =
                prepare_document-requested doc s.info job.attributes req.attributes req.payload
                ∙ ap (λ a. asked_document ext s a req)
                    (ap (λ (j : JobInfo). j.attributes) started
                      ∙ started_job-attributes env (s.cells h)) in
              let (result, s') = run_document ext env head req h document (write_job h job s) in
              let (spares, outcome) = accept env head h s job document in
              rw (marked, send_to_job, send_document_begin, continue_document)
                (inr (
                  open_,
                  spares,
                  subst
                      (λ j.
                        Outcome ext env req (asked_document ext s (s.cells h).attributes req) result
                          j (s'.cells h))
                      started
                      (subst (λ d. Outcome ext env req d result job (s'.cells h)) asked outcome),
                ))
        ]
