-- ===== src/Service/Simple/Handlers.antt =====
-- The operations of service/simple.rs on jobs and on the printer that handle no document, and the
-- service with all its operations.
use ippper_rs.Prelude.{
  ℕ, ℤ, suc, String, false, Option, none, some, List, [], ◌∷◌, ◌==◌, and_then, map_or,
  if◌then◌else◌, reaches,
}
use ippper_rs.Ipp.Enums.{
  operation_attributes, job_attributes, printer_attributes, unsupported_attributes, pending,
  canceled, same_state, successful_ok, client_error_not_possible,
  client_error_attributes_or_values_not_supported,
}
use ippper_rs.Ipp.Value.{keyword}
use ippper_rs.Ipp.Attributes.{attribute, IppRequestResponse}
use ippper_rs.Ipp.Http.{ReqParts}
use ippper_rs.Ipp.External.{External}
use ippper_rs.Error.{ok, err, IppResult}
use ippper_rs.Model.{WhichJob, match_state, Converted, converted, rejected}
use ippper_rs.Service.Simple.Responses.{basic_response, push_group}
use ippper_rs.Service.Simple.Documents.{Ambient, print_job, create_job, send_document}
use ippper_rs.Utils.{take_ipp_attribute, get_requested_attributes}
use ippper_rs.Service.Common.{IppService, Method, default_service}
use ippper_rs.Service.Simple.PrinterAttributes
use ippper_rs.Service.Simple.JobAttributes.{job_attributes_for}
use ippper_rs.Service.Simple.State.{SimpleIppService, write_job, find_job}

-- The text of `which-jobs` as a filter; an unknown text is given back.
unfoldable pub parse_which_jobs : Option String → Converted WhichJob String
parse_which_jobs none = converted WhichJob.not_completed
parse_which_jobs (some text) =
    if text == "completed"
    then converted WhichJob.completed
    else if text == "not-completed"
    then converted WhichJob.not_completed
    else if text == "aborted"
    then converted WhichJob.aborted
    else if text == "all"
    then converted WhichJob.all
    else if text == "canceled"
    then converted WhichJob.canceled
    else if text == "pending"
    then converted WhichJob.pending
    else if text == "pending-held"
    then converted WhichJob.pending_held
    else if text == "processing"
    then converted WhichJob.processing
    else if text == "processing-stopped"
    then converted WhichJob.processing_stopped
    else rejected text

module _ {P : Type 0} (ext : External P) where
  unfoldable pub validate_job : Method SimpleIppService P
  validate_job head req s = (ok (basic_response ext req successful_ok), s)

  -- With the job found: a pending job is canceled, any other is left alone.
  unfoldable pub cancel_found :
      IppRequestResponse P → ℕ → SimpleIppService → IppResult P × SimpleIppService
  cancel_found req h s =
      let job = s.cells h in
      if same_state job.state pending
      then (
        ok (basic_response ext req successful_ok),
        write_job h (record job { state = canceled; state_message = "Canceled" }) s,
      )
      else (ok (basic_response ext req client_error_not_possible), s)

  unfoldable pub cancel_job : Method SimpleIppService P
  cancel_job head req s = elim (find_job ext s req.attributes) [
    | err e ↦ (err e, s)
    | ok h ↦ cancel_found req h s
  ]

  unfoldable pub get_job_attributes : Ambient P → Method SimpleIppService P
  get_job_attributes env head req s = elim (find_job ext s req.attributes) [
    | err e ↦ (err e, s)
    | ok h ↦
        let requested = get_requested_attributes ext req.attributes in
        let attrs =
          job_attributes_for ext s.host s.basepath head (s.cells h) requested (env.uptime 0) in
        (ok (push_group ext job_attributes attrs (basic_response ext req successful_ok)), s)
  ]

  -- The loop of `get_jobs` over the snapshot, after `count` jobs.
  unfoldable pub list_jobs :
      Ambient P
      → ReqParts
      → SimpleIppService
      → WhichJob
      → Option ℤ
      → List String
      → ℕ
      → List (ℤ × ℕ)
      → IppRequestResponse P
      → IppRequestResponse P
  list_jobs env head s which limit requested count [] resp = resp
  list_jobs env head s which limit requested count ((_, h) ∷ rest) resp =
      let job = s.cells h in
      let attrs = job_attributes_for ext s.host s.basepath head job requested (env.uptime count) in
      let listed = push_group ext job_attributes attrs resp in
      let skip = list_jobs env head s which limit requested count rest resp in
      let go_on = list_jobs env head s which limit requested (suc count) rest listed in
      if match_state which job.state
      then if map_or limit false (reaches (suc count)) then listed else go_on
      else skip

  -- What `get_jobs` answers to a filter, or to a text that is none.
  unfoldable pub answer_jobs :
      Ambient P
      → ReqParts
      → IppRequestResponse P
      → SimpleIppService
      → Option ℤ
      → List String
      → Converted WhichJob String
      → IppRequestResponse P
  answer_jobs env head req s limit requested (rejected unknown) =
      push_group ext unsupported_attributes (attribute "which-jobs" (keyword unknown) ∷ [])
        (basic_response ext req client_error_attributes_or_values_not_supported)
  answer_jobs env head req s limit requested (converted which) =
      list_jobs env head s which limit requested 0 (ext.cache_iter s.job_snapshot)
        (basic_response ext req successful_ok)

  unfoldable pub get_jobs : Ambient P → Method SimpleIppService P
  get_jobs env head req s =
      let (limit, r₁) = take_ipp_attribute req.attributes operation_attributes "limit" in
      let (which, r₂) = take_ipp_attribute r₁ operation_attributes "which-jobs" in
      (
        ok (
            answer_jobs env head req s (and_then limit ext.into_integer)
              (get_requested_attributes ext r₂)
              (parse_which_jobs (and_then which ext.into_keyword))),
        s,
      )

  unfoldable pub get_printer_attributes : Ambient P → Method SimpleIppService P
  get_printer_attributes env head req s =
      let requested = get_requested_attributes ext req.attributes in
      let attrs =
        PrinterAttributes.printer_attributes ext s.host s.basepath s.info head (env.uptime 0)
          requested in
      (ok (push_group ext printer_attributes attrs (basic_response ext req successful_ok)), s)

  -- `impl IppService for SimpleIppService`: what it does not define is the trait's default.
  unfoldable pub simple_service : Ambient P → IppService SimpleIppService P
  simple_service env = record (default_service ext SimpleIppService) {
    print_job = print_job ext env;
    validate_job = validate_job;
    create_job = create_job ext env;
    send_document = send_document ext env;
    cancel_job = cancel_job;
    get_job_attributes = get_job_attributes env;
    get_jobs = get_jobs env;
    get_printer_attributes = get_printer_attributes env;
    version = ext.v2_0;
  }
