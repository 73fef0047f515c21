-- ===== src/Service/Simple/Refusals.antt =====
-- What the simple service accepts and what it refuses: filters, compressions, document formats, and
-- documents for a job that has been canceled.
use ippper_rs.Prelude.{
  ℕ, ◌≡◌, ◌≢◌, ◌↔◌, refl, sym, inl, inr, String, false, some, arith, ◌==◌, eq_iff,
}
use ippper_rs.Ipp.Enums.{
  pending, processing, successful_ok, client_error_not_possible, same_state_iff,
}
use ippper_rs.Ipp.Attributes.{IppRequestResponse}
use ippper_rs.Ipp.Http.{ReqParts}
use ippper_rs.Ipp.External.{External, Documented}
use ippper_rs.Error.{Result, ok, err, ipp, IppResult}
use ippper_rs.Model.{rejected}
use ippper_rs.Utils.{contains}
use ippper_rs.Service.Simple.Info.{JobInfo, SimpleIppDocument}
use ippper_rs.Service.Simple.PrinterAttributes.{supported_which_jobs}
use ippper_rs.Service.Simple.State.{SimpleIppService}
use ippper_rs.Service.Simple.Responses.{basic_response}
use ippper_rs.Service.Simple.Documents.{
  Ambient, mark_processing, send_document_begin, continue_document, send_to_job,
}
use ippper_rs.Service.Simple.Accepted.{Handled, Outcome, started_job}
use ippper_rs.Service.Simple.Outcomes.Send.{send_to_job-Outcome}
use ippper_rs.Service.Simple.Handlers.{parse_which_jobs, cancel_found}

pub ==_comm : (s t : String) → (s == t) ≡ (t == s)
==_comm s t = ground (arith, eq_iff s t, eq_iff t s, λ (p : s ≡ t). sym p, λ (p : t ≡ s). sym p)

-- `get_jobs` accepts a text as its filter exactly if the printer lists it as supported, and refuses
-- any other text by that text.
pub parse_which_jobs-supported :
    (t : String)
    → (contains supported_which_jobs t ≡ false) ↔ (parse_which_jobs (some t) ≡ rejected t)
unfolding parse_which_jobs
parse_which_jobs-supported t = ground (
  arith,
  ==_comm t "completed",
  ==_comm t "not-completed",
  ==_comm t "aborted",
  ==_comm t "all",
  ==_comm t "canceled",
  ==_comm t "pending",
  ==_comm t "pending-held",
  ==_comm t "processing",
  ==_comm t "processing-stopped",
)

module _ {P : Type 0} (ext : External P) where
  -- A pending job is canceled with success, and a document sent to it afterwards is refused as not
  -- possible and changes nothing.
  pub cancel-send :
      (env : Ambient P) (head : ReqParts) (req req' : IppRequestResponse P) (h : ℕ)
      (s : SimpleIppService)
      → (s.cells h).state ≡ pending
      → ((cancel_found ext req h s).0 ≡ ok (basic_response ext req successful_ok))
        × (send_to_job ext env head req' h (cancel_found ext req h s).1 ≡ (
          err (ipp (record { code = client_error_not_possible; msg = "Job is canceled" })),
          (cancel_found ext req h s).1,
        ))
  unfolding cancel_found send_to_job send_document_begin continue_document mark_processing
  cancel-send env head req req' h s waits = (rw waits refl, ground arith)

  module _ (doc : Documented ext) (env : Ambient P) (head : ReqParts)
      (req : IppRequestResponse P) where
    Handled-state :
        (handled : Result (Unit {0})) (resp : IppRequestResponse P) (job : JobInfo)
        → Handled ext env req handled resp job
        → job.state ≢ pending
    Handled-state (ok _) resp job h e = cc (h.0)
    Handled-state (err m) resp job h e = cc (h.0)

    Outcome-state :
        (asked : Result (SimpleIppDocument P)) (r : IppResult P) (old job : JobInfo)
        → old.state ≡ processing
        → Outcome ext env req asked r old job
        → job.state ≢ pending
    Outcome-state asked (err m) old job started h e = ground arith
    Outcome-state asked (ok resp) old job started h e =
        Handled-state (env.handle_document h.0) resp job h.3 e

    sent_state :
        (h : ℕ) (s : SimpleIppService)
        → ((send_to_job ext env head req h s).1.cells h).state ≢ pending
    sent_state h s = elim (send_to_job-Outcome ext doc req env head h s) [
      | inl (gone, refused, same) ↦ rw same (λ e. cc (gone, e))
      | inr (open_, spares, outcome) ↦
          Outcome-state _ _ (started_job env (s.cells h)) _
            (ground (arith, same_state_iff (s.cells h).state processing)) outcome
    ]

    -- A job to which a document has been sent, with or without success, cannot be canceled
    -- afterwards: the answer says that this is not possible, and nothing changes.
    pub send-cancel :
        (req' : IppRequestResponse P) (h : ℕ) (s : SimpleIppService)
        → let s' = (send_to_job ext env head req h s).1 in
          cancel_found ext req' h s' ≡ (ok (basic_response ext req' client_error_not_possible), s')
    unfolding cancel_found
    send-cancel req' h s =
        let s' = (send_to_job ext env head req h s).1 in
        ground (arith, same_state_iff (s'.cells h).state pending, sent_state h s)
