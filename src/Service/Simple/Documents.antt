-- ===== src/Service/Simple/Documents.antt =====
-- `print_job`, `create_job` and `send_document` of service/simple.rs. A document is handled between
-- two critical sections: what a request does before the handler runs and what it does afterwards
-- are functions of their own, which the operations compose.
use ippper_rs.Prelude.{ℕ, ℤ, String, none, some, and_then, if◌then◌else◌, concat}
use ippper_rs.Ipp.Enums.{
  operation_attributes, JobState, pending, processing, canceled, aborted, completed, same_state,
  successful_ok, client_error_not_possible,
}
use ippper_rs.Ipp.Value.{keyword}
use ippper_rs.Ipp.Attributes.{IppAttributes, IppRequestResponse}
use ippper_rs.Ipp.Http.{ReqParts}
use ippper_rs.Ipp.External.{External}
use ippper_rs.Error.{ipp, Result, ok, err, IppResult, ◌>>=◌, error_text}
use ippper_rs.Service.Simple.Responses.{job_response}
use ippper_rs.Utils.{take_ipp_attribute, take_requesting_user_name, decommpress_payload}
use ippper_rs.Service.Common.{Method, build_error_response}
use ippper_rs.Service.Simple.Info.{
  SimpleIppJobAttributes, SimpleIppDocument, PrinterInfo, JobInfo, Duration, take_ipp_attributes,
}
use ippper_rs.Service.Simple.State.{
  SimpleIppService, write_job, alloc_job, find_job, take_document_format,
}

-- What a request meets outside the service: the UUID that is drawn for its job, the readings of
-- `uptime` in turn, and the outcome of `handle_document` of the service's handler.
pub record Ambient (P : Type 0) : Type 0 where
  pub uuid : ℕ
  pub uptime : ℕ → Duration
  pub handle_document : SimpleIppDocument P → Result (Unit {0})

-- `SimpleIppServiceHandler::handle_document` where a handler does not define it.
abbrev pub default_handle_document : {P : Type 0} → SimpleIppDocument P → Result (Unit {0})
default_handle_document document = ok tt

module _ {P : Type 0} (ext : External P) where
  -- From `take_document_format` to the call of the handler: the document, or the error that `?`
  -- returns.
  unfoldable pub prepare_document :
      PrinterInfo → SimpleIppJobAttributes → IppAttributes → P → Result (SimpleIppDocument P)
  prepare_document info job_attrs r payload =
      let (format, r₁) = take_document_format ext info r in
      let (compression, _) = take_ipp_attribute r₁ operation_attributes "compression" in
      do
        format ← format
        payload ← decommpress_payload ext payload (and_then compression ext.into_keyword)
        ok (record { format = format; job_attributes = job_attrs; payload = payload })

  -- The job after its document has been handled, at the uptime `now`.
  unfoldable pub finished : Result (Unit {0}) → Duration → JobInfo → JobInfo
  finished (ok _) now job = record job {
    state = completed;
    state_message = "Completed";
    completed_at = some now;
  }
  finished (err error) now job = record job {
    state = aborted;
    state_message = concat "Aborted: " (error_text ext error);
    completed_at = some now;
  }

  unfoldable pub document_response : Result (Unit {0}) → IppRequestResponse P → IppRequestResponse P
  document_response (ok _) req =
      ext.new_response req.header.version successful_ok req.header.request_id
  document_response (err error) req =
      build_error_response ext req.header.version req.header.request_id error

  -- After the handler: the job is written, and the response describes it.
  unfoldable pub finish_document :
      ReqParts
      → IppRequestResponse P
      → ℕ
      → Result (Unit {0})
      → Duration
      → SimpleIppService
      → IppRequestResponse P × SimpleIppService
  finish_document head req h handled now s =
      let job = finished handled now (s.cells h) in
      let s' = write_job h job s in
      (job_response ext s' head job (document_response handled req), s')

  -- The handler and what follows, on a document that is ready; the error otherwise.
  unfoldable pub run_document :
      Ambient P
      → ReqParts
      → IppRequestResponse P
      → ℕ
      → Result (SimpleIppDocument P)
      → SimpleIppService
      → IppResult P × SimpleIppService
  run_document env head req h (err e) s = (err e, s)
  run_document env head req h (ok document) s =
      let (resp, s') = finish_document head req h (env.handle_document document) (env.uptime 1) s in
      (ok resp, s')

  -- A job as it is made for a request.
  unfoldable pub new_job : Ambient P → JobState → String → SimpleIppJobAttributes → ℤ → JobInfo
  new_job env state message attrs id = record {
    id = id;
    uuid = env.uuid;
    state = state;
    state_message = message;
    state_reasons = keyword "none";
    attributes = attrs;
    created_at = env.uptime 0;
    processing_at = some (env.uptime 0);
    completed_at = none;
  }

  -- Up to the handler: the handle of the new job, and the document if there is no error.
  unfoldable pub print_job_begin :
      Ambient P
      → IppRequestResponse P
      → SimpleIppService
      → (ℕ × Result (SimpleIppDocument P)) × SimpleIppService
  print_job_begin env req s =
      let (user, r₁) = take_requesting_user_name req.attributes in
      let (attrs, r₂) = take_ipp_attributes ext s.info user r₁ in
      let (h, s') = alloc_job ext (new_job env processing "Processing" attrs) s in
      ((h, prepare_document s'.info attrs r₂ req.payload), s')

  unfoldable pub print_job : Ambient P → Method SimpleIppService P
  print_job env head req s =
      let ((h, document), s') = print_job_begin env req s in run_document env head req h document s'

  unfoldable pub create_job : Ambient P → Method SimpleIppService P
  create_job env head req s =
      let (user, r₁) = take_requesting_user_name req.attributes in
      let (attrs, _) = take_ipp_attributes ext s.info user r₁ in
      let (h, s') = alloc_job ext (new_job env pending "Pending" attrs) s in
      (
        ok (
            job_response ext s' head (s'.cells h)
              (ext.new_response req.header.version successful_ok req.header.request_id)),
        s',
      )

  -- The first critical section of `send_document`: a canceled job is refused, any other job is
  -- processing afterwards.
  unfoldable pub mark_processing : Duration → JobInfo → Result JobInfo
  mark_processing now job =
      if same_state job.state processing
      then ok job
      else if same_state job.state canceled
      then err (ipp (record { code = client_error_not_possible; msg = "Job is canceled" }))
      else ok (record job {
        state = processing;
        state_message = "Processing";
        processing_at = some now;
      })

  -- With the job found, up to the handler: the document, if neither the job's state nor the
  -- request is refused.
  unfoldable pub send_document_begin :
      Ambient P
      → IppRequestResponse P
      → ℕ
      → SimpleIppService
      → Result (Result (SimpleIppDocument P)) × SimpleIppService
  send_document_begin env req h s = elim (mark_processing (env.uptime 0) (s.cells h)) [
    | err e ↦ (err e, s)
    | ok job ↦
        (ok (prepare_document s.info job.attributes req.attributes req.payload), write_job h job s)
  ]

  -- The document that is ready is handled; an error is returned.
  unfoldable pub continue_document :
      Ambient P
      → ReqParts
      → IppRequestResponse P
      → ℕ
      → Result (Result (SimpleIppDocument P))
      → SimpleIppService
      → IppResult P × SimpleIppService
  continue_document env head req h (err e) s = (err e, s)
  continue_document env head req h (ok document) s = run_document env head req h document s

  -- With the job found, all that follows.
  unfoldable pub send_to_job :
      Ambient P
      → ReqParts
      → IppRequestResponse P
      → ℕ
      → SimpleIppService
      → IppResult P × SimpleIppService
  send_to_job env head req h s =
      let (begun, s') = send_document_begin env req h s in continue_document env head req h begun s'

  unfoldable pub send_document : Ambient P → Method SimpleIppService P
  send_document env head req s = elim (find_job ext s req.attributes) [
    | err e ↦ (err e, s)
    | ok h ↦ send_to_job env head req h s
  ]
