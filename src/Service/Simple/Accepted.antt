-- ===== src/Service/Simple/Accepted.antt =====
-- What becomes of a document for which service/simple.rs has accepted a job.
use ippper_rs.Prelude.{ℕ, ◌≡◌, ◌≢◌, Option, and_then, none, some, concat, if◌then◌else◌}
use ippper_rs.Ipp.Enums.{
  operation_attributes, StatusCode, successful_ok, processing, aborted, completed, same_state,
}
use ippper_rs.Ipp.Value.{keyword, integer?}
use ippper_rs.Utils.{get_ipp_attribute}
use ippper_rs.Ipp.Attributes.{IppHeader, IppRequestResponse}
use ippper_rs.Ipp.External.{External}
use ippper_rs.Error.{Result, ok, err, IppResult, error_text}
use ippper_rs.Service.Common.{as_ipp_error}
use ippper_rs.Service.Simple.Info.{JobInfo, SimpleIppDocument, SimpleIppJobAttributes}
use ippper_rs.Service.Simple.State.{SimpleIppService}
use ippper_rs.Service.Simple.Documents.{Ambient}
use ippper_rs.Service.Simple.Requested.{requested_job_attributes}
use ippper_rs.Service.Simple.RequestedDocument.{requested_document, requested_user_name}

-- What becomes of a document changes nothing of these.
abbrev pub Keeps : JobInfo → JobInfo → Type 0
Keeps accepted job =
    (job.id ≡ accepted.id)
    × (job.attributes ≡ accepted.attributes)
    × (job.created_at ≡ accepted.created_at)
    × (job.uuid ≡ accepted.uuid)
    × (job.state_reasons ≡ accepted.state_reasons)
    × (job.processing_at ≡ accepted.processing_at)

module _ {P : Type 0} (ext : External P) where
  -- The header of an answer to a request.
  abbrev pub answers : IppRequestResponse P → StatusCode → IppHeader
  answers req status = record {
    version = req.header.version;
    operation_or_status = ext.status_code status;
    request_id = req.header.request_id;
  }

  module _ (env : Ambient P) (req : IppRequestResponse P) where
    -- The handler has been run: the job has ended as the handler did, and says so in its message,
    -- at the second reading of the clock, and the response carries that outcome.
    abbrev pub Handled : Result (Unit {0}) → IppRequestResponse P → JobInfo → Type 0
    Handled (ok _) resp job =
        (job.state ≡ completed)
        × (job.state_message ≡ "Completed")
        × (job.completed_at ≡ some (env.uptime 1))
        × (resp.header ≡ answers req successful_ok)
    Handled (err e) resp job =
        (job.state ≡ aborted)
        × (job.state_message ≡ concat "Aborted: " (error_text ext e))
        × (job.completed_at ≡ some (env.uptime 1))
        × (resp.header ≡ answers req (as_ipp_error ext e).code)

    -- A request that asks for a document has been accepted for a job: if it asks for no document
    -- that there can be, its error is returned and the job has not been written since, otherwise
    -- that document has been handled, and the job keeps all else.
    abbrev pub Outcome : Result (SimpleIppDocument P) → IppResult P → JobInfo → JobInfo → Type 0
    Outcome asked (err e) accepted job = (asked ≡ err e) × (job ≡ accepted)
    Outcome asked (ok resp) accepted job =
        (document : SimpleIppDocument P) × (asked ≡ ok document)
        × Keeps accepted job
        × Handled (env.handle_document document) resp job

  -- The job attributes that a request asks for, and the document of a job with some attributes.
  abbrev pub asked_attributes : SimpleIppService → IppRequestResponse P → SimpleIppJobAttributes
  asked_attributes s req =
      requested_job_attributes ext s.info (requested_user_name ext req.attributes) req.attributes

  abbrev pub asked_document :
      SimpleIppService
      → SimpleIppJobAttributes
      → IppRequestResponse P
      → Result (SimpleIppDocument P)
  asked_document s attrs req = requested_document ext s.info attrs req.attributes req.payload

  -- The job that a request names in the snapshot.
  abbrev pub named_job : SimpleIppService → IppRequestResponse P → Option ℕ
  named_job s req =
      and_then
        (and_then (get_ipp_attribute ext req.attributes operation_attributes ext.names.job_id)
          integer?)
        (ext.cache_get s.job_snapshot)

  -- The job that `print_job` makes for a request, before its document is handled.
  abbrev pub made_job : Ambient P → SimpleIppService → IppRequestResponse P → JobInfo
  made_job env s req = record {
    id = s.job_id;
    uuid = env.uuid;
    state = processing;
    state_message = "Processing";
    state_reasons = keyword "none";
    attributes = asked_attributes s req;
    created_at = env.uptime 0;
    processing_at = some (env.uptime 0);
    completed_at = none;
  }

-- A job that gets a document from `send_document`: it starts now, unless it is processing already.
abbrev pub started_job : {P : Type 0} → Ambient P → JobInfo → JobInfo
started_job env job = if same_state job.state processing then job else record job {
  state = processing;
  state_message = "Processing";
  processing_at = some (env.uptime 0);
}

-- No other job is written.
abbrev pub Spares : ℕ → SimpleIppService → SimpleIppService → Type 0
Spares h s s' = (i : ℕ) → i ≢ h → s'.cells i ≡ s.cells i
