-- ===== src/Service/Simple/Sequential.antt =====
-- A request that runs from its beginning to its end is a run of the steps of World.
use ippper_rs.Prelude.{
  ℕ, ◌<◌, ◌≡◌, refl, sym, ap, ◌∙◌, true, false, subst, inl, inr, List, [], ◌∷◌, ◌++◌, Option, none,
  some, arith, leb, Bool-cases, Option-cases,
}
use mathlib.Core.List.{append-nil}
use ippper_rs.Ipp.Enums
use ippper_rs.Ipp.Enums.{Operation, canceled, processing, same_state, same_state_iff}
use ippper_rs.Ipp.Attributes.{IppRequestResponse}
use ippper_rs.Ipp.Http.{ReqParts}
use ippper_rs.Ipp.External.{External, Documented}
use ippper_rs.Error.{Error, Result, ok, err, Result-cases}
use ippper_rs.Service.Common.{dispatch, call, handle_request, check_version}
use ippper_rs.Service.Simple.Info.{SimpleIppDocument, PrinterInfo, JobInfo}
use ippper_rs.Service.Simple.State.{SimpleIppService, find_job, alloc_job}
use ippper_rs.Service.Simple.Documents.{
  Ambient, print_job, run_document, send_document, continue_document, send_to_job,
  send_document_begin, mark_processing, prepare_document, print_job_begin,
}
use ippper_rs.Service.Simple.Handlers.{
  cancel_job, validate_job, get_job_attributes, get_jobs, get_printer_attributes, simple_service,
}
use ippper_rs.Service.Simple.World.{
  World, Reach, here, print, send, finish, create, cancel, enter, flat, leave, start,
}
use ippper_rs.Service.Simple.Life.{find_job-id}
use ippper_rs.Service.Simple.Accepted.{asked_document, named_job}
use ippper_rs.Service.Simple.FindJob.{found, find_job-named}
use ippper_rs.Service.Simple.RequestedDocument.{prepare_document-requested, prepare_document-taken}
use ippper_rs.Service.Simple.Runs.{
  Call, send_begins, print_begins, Run, next_call, handled_calls, sent_calls, operation_calls,
  request_calls,
}

pub leave_self : (h : ℕ) (running : List ℕ) → leave h (h ∷ running) ≡ running
leave_self h running = ground arith

module _ {P : Type 0} (ext : External P) where
  -- The world with another service.
  abbrev pub with_service : World → SimpleIppService → World
  with_service w s = record w { service = s }

  module _ (w : World) (cs : List (Call P)) (env : Ambient P) (head : ReqParts)
      (req : IppRequestResponse P) (running : List ℕ) (s : SimpleIppService) (h : ℕ) where
    run_document-Run :
        (document : Result (SimpleIppDocument P))
        → Run ext w (record { service = s; running = enter h document running }) cs
        → Run ext w
            (record { service = (run_document ext env head req h document s).1; running = running })
            (cs ++ handled_calls ext env head req h document)
    unfolding run_document
    run_document-Run (err e) run = subst (Run ext w _) (sym (append-nil cs)) run
    run_document-Run (ok document) run =
        let finished =
          next_call ext run
            (finish head req h (env.handle_document document) (env.uptime 1) (inl refl)) in
        subst
          (λ left.
            Run ext w
              (record {
                service = (run_document ext env head req h (ok document) s).1;
                running = left;
              })
              (cs ++ handled_calls ext env head req h (ok document)))
          (leave_self h running) finished

    continue_document-Run :
        (begun : Result (Result (SimpleIppDocument P)))
        → Run ext w (record { service = s; running = enter h (flat begun) running }) cs
        → Run ext w
            (record {
              service = (continue_document ext env head req h begun s).1;
              running = running;
            })
            (cs ++ handled_calls ext env head req h (flat begun))
    unfolding continue_document
    continue_document-Run (err e) run = subst (Run ext w _) (sym (append-nil cs)) run
    continue_document-Run (ok document) run = run_document-Run document run

module _ {P : Type 0} {ext : External P} (doc : Documented ext) where
  mark_processing-state :
      (env : Ambient P) (job : JobInfo) (e : Error)
      → mark_processing ext (env.uptime 0) job ≡ err e
      → same_state job.state canceled ≡ true
  unfolding mark_processing
  mark_processing-state env job e h = ground arith

  mark_processing-accepted :
      (env : Ambient P) (job job' : JobInfo)
      → mark_processing ext (env.uptime 0) job ≡ ok job'
      → (same_state job.state canceled ≡ false) × (job'.attributes ≡ job.attributes)
  unfolding mark_processing
  mark_processing-accepted env job job' h =
      ground (arith, same_state_iff job.state processing, same_state_iff job.state canceled)

  -- What follows the first part of `send_document`.
  send_calls-continue :
      (env : Ambient P) (head : ReqParts) (req : IppRequestResponse P) (s : SimpleIppService)
      (h : ℕ)
      → send_begins env req h
          ∷ handled_calls ext env head req h (flat (send_document_begin ext env req h s).0)
        ≡ sent_calls ext env head req s (some h)
  unfolding send_document_begin
  send_calls-continue env head req s h =
      elim (Result-cases (mark_processing ext (env.uptime 0) (s.cells h))) [
        | inr (e, refused) ↦
            rw (refused, send_document_begin, mark_processing-state env (s.cells h) e refused) refl
        | inl (job, marked) ↦
            let (open_, attrs) = mark_processing-accepted env (s.cells h) job marked in
            let asked : prepare_document ext s.info job.attributes req.attributes req.payload
                ≡ asked_document ext s (s.cells h).attributes req =
              prepare_document-requested doc s.info job.attributes req.attributes req.payload
              ∙ ap (λ a. asked_document ext s a req) attrs in
            rw (marked, send_document_begin, open_)
              (ap (λ d. send_begins env req h ∷ handled_calls ext env head req h d) asked)
      ]

module _ {P : Type 0} {ext : External P} (doc : Documented ext) (info : PrinterInfo) (w : World)
    (reached : Reach ext (start info) w) (env : Ambient P) (head : ReqParts)
    (req : IppRequestResponse P) where
  -- To the world after a request, by some calls.
  abbrev Leads : SimpleIppService → List (Call P) → Type 0
  Leads s cs = Run ext w (with_service ext w s) cs

  stays : Run ext w w []
  stays = (here, refl)

  print_job-Run :
      Leads
        (print_job ext env head req w.service).1
        (operation_calls ext env head req w.service (some Enums.print_job))
  unfolding print_job print_job_begin alloc_job
  print_job-Run =
      subst
        (λ d.
          Leads (print_job ext env head req w.service).1
            (print_begins env req ∷ handled_calls ext env head req w.service.allocated d))
        (prepare_document-taken doc w.service.info req.attributes req.payload)
        (run_document-Run ext w (print_begins env req ∷ []) env head req w.running _ _ _
          (next_call ext stays (print env req)))

  named-allocated : (h : ℕ) → named_job ext w.service req ≡ some h → h < w.service.allocated
  named-allocated h named =
      (find_job-id doc info w req.attributes h reached
        (find_job-named doc req w.service ∙ ap (found doc) named)).0

  send_document-Run :
      Leads
        (send_document ext env head req w.service).1
        (operation_calls ext env head req w.service (some Enums.send_document))
  unfolding send_document send_to_job
  send_document-Run = elim (Option-cases (named_job ext w.service req)) [
    | inl missing ↦ rw (find_job-named doc req w.service, missing, send_document) stays
    | inr (h, named) ↦
        rw (find_job-named doc req w.service, named, send_document)
          (subst (Run ext w _) (send_calls-continue doc env head req w.service h) (
            continue_document-Run ext w (send_begins env req h ∷ []) env head req w.running _ h _
              (next_call ext stays (send env req h (named-allocated h named)))))
  ]

  cancel_job-Run :
      Leads
        (cancel_job ext head req w.service).1
        (operation_calls ext env head req w.service (some Enums.cancel_job))
  unfolding cancel_job
  cancel_job-Run = elim (Option-cases (named_job ext w.service req)) [
    | inl missing ↦ rw (find_job-named doc req w.service, missing, cancel_job) stays
    | inr (h, named) ↦
        rw (find_job-named doc req w.service, named, cancel_job)
          (next_call ext stays (cancel req h (named-allocated h named)))
  ]

  get_job_attributes-Run : Leads (get_job_attributes ext env head req w.service).1 []
  unfolding get_job_attributes
  get_job_attributes-Run = elim (Result-cases (find_job ext w.service req.attributes)) [
    | inr (e, missing) ↦ rw (missing, get_job_attributes) stays
    | inl (h, found) ↦ rw (found, get_job_attributes) stays
  ]

  dispatch-Run :
      (op : Option Operation)
      → Leads
          (dispatch ext (simple_service ext env) op head req w.service).1
          (operation_calls ext env head req w.service op)
  unfolding dispatch call simple_service validate_job get_jobs get_printer_attributes
  dispatch-Run none = stays
  dispatch-Run (some Enums.print_job) = print_job-Run
  dispatch-Run (some Enums.create_job) = next_call ext stays (create env head req)
  dispatch-Run (some Enums.send_document) = send_document-Run
  dispatch-Run (some Enums.cancel_job) = cancel_job-Run
  dispatch-Run (some Enums.get_job_attributes) = get_job_attributes-Run
  dispatch-Run (some _) = stays

  -- In a world reached from a new service, with other requests at work or none, a request that
  -- `handle_request` handles from its beginning to its end, with nothing between, is a run of its
  -- calls, after which the same jobs are with the handler.
  pub handle_request-Run :
      Leads
        (handle_request ext (simple_service ext env) head req w.service).1
        (request_calls ext env head req w.service)
  unfolding handle_request check_version simple_service
  handle_request-Run = elim (Bool-cases (leb req.header.version ext.v2_0)) [
    | inl known ↦ rw known (dispatch-Run (ext.operation_from_u16 req.header.operation_or_status))
    | inr newer ↦ rw newer stays
  ]
