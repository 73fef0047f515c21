-- ===== src/Service/Simple/Queue/Refines.antt =====
-- The operations of service/simple.rs do to the jobs only what the queue allows.
use ippper_rs.Prelude.{
  ℕ, ℤ, String, suc, ◌+◌, ◌<◌, ◌≡◌, refl, sym, ap, ◌∙◌, inl, inr, true, false, List, [], ◌∷◌, ◌++◌,
  length, arith, Bool-cases, eqb_iff,
}
use ippper_rs.Ipp.Enums.{JobState, pending, processing, canceled, same_state, same_state_iff}
use ippper_rs.Ipp.Attributes.{IppRequestResponse}
use ippper_rs.Ipp.Http.{ReqParts}
use ippper_rs.Ipp.External.{External, Documented}
use ippper_rs.Error.{Error, Result, ok, err, Result-cases}
use ippper_rs.Service.Simple.Info.{JobInfo, Duration, PrinterInfo, SimpleIppJobAttributes}
use ippper_rs.Service.Simple.State.{SimpleIppService, alloc_job, new}
use ippper_rs.Service.Simple.Documents.{
  Ambient, print_job_begin, send_document_begin, finish_document, create_job, finished,
  mark_processing, new_job, prepare_document,
}
use ippper_rs.Service.Simple.Handlers.{cancel_found}
use ippper_rs.Service.Simple.World.{
  World, Step, print, send, finish, create, cancel, evict, Reach, enter, leave, flat, start,
}
use ippper_rs.Service.Simple.World.{IsRunning, here, next}
use ippper_rs.Service.Simple.Consistent.{IsConsistent}
use ippper_rs.Service.Simple.Steps.{reachable-IsConsistent}
use ippper_rs.Service.Simple.Queue.{
  Queue, empty_queue, hand_over, abstract, is_handling, happen, is_ok, event, queue_after,
}
use ippper_rs.Service.Simple.RequestedDocument.{prepare_document-requested, prepare_document-taken}
use ippper_rs.Service.Simple.Accepted.{asked_attributes, asked_document}
use ippper_rs.Service.Simple.Queue.States.{
  states, length-states, get_elem?-states, states-update, states-update_out,
}

enter-hand_over :
    {A : Type 0} (h : ℕ) (r : Result A) (running : List ℕ)
    → enter h r running ≡ hand_over (is_ok r) h running
enter-hand_over h (ok _) running = refl
enter-hand_over h (err _) running = refl

IsRunning-is_handling :
    (h : ℕ) (running : List ℕ) → IsRunning h running → is_handling h running ≡ true
IsRunning-is_handling h [] r = absurd r
IsRunning-is_handling h (i ∷ running) (inl e) = ground (arith, eqb_iff h i)
IsRunning-is_handling h (i ∷ running) (inr r) = ground (arith, IsRunning-is_handling h running r)

same_queue :
    {jobs jobs' : List JobState} {handling handling' : List ℕ}
    → jobs ≡ jobs'
    → handling ≡ handling'
    → ◌≡◌ {A = Queue}
        (record { jobs = jobs; handling = handling })
        (record { jobs = jobs'; handling = handling' })
same_queue jobs handling = rw (jobs, handling) refl

module _ {P : Type 0} {ext : External P} (doc : Documented ext) (s : SimpleIppService)
    (running : List ℕ) where
  -- The world of the service, its queue, and the queue after another service.
  abbrev world : World
  world = record { service = s; running = running }

  abbrev after : SimpleIppService → List ℕ → Queue
  after s' running' = abstract (record { service = s'; running = running' })

  states-alloc_job :
      (init : ℤ → JobInfo)
      → states s.cells s.allocated ++ (init s.job_id).state ∷ []
        ≡ states (alloc_job ext init s).1.cells (alloc_job ext init s).1.allocated
  unfolding alloc_job states
  states-alloc_job init =
      let next : suc s.allocated ≡ s.allocated + 1 = omega arith in
      let cells = (alloc_job ext init s).1.cells in
      let new : cells s.allocated ≡ init s.job_id = ground arith in
      ap (λ t. t ++ (init s.job_id).state ∷ [])
        (sym (states-update_out s.cells s.allocated s.allocated (init s.job_id) (omega arith)))
      ∙ ap (λ job. states cells s.allocated ++ job.state ∷ []) (sym new)
      ∙ ap (states cells) next

  states-new_job :
      (env : Ambient P) (state : JobState) (message : String) (attrs : SimpleIppJobAttributes)
      → let (h, s') = alloc_job ext (new_job ext env state message attrs) s in
        (states s.cells s.allocated ++ state ∷ [] ≡ states s'.cells s'.allocated)
        × (length (states s.cells s.allocated) ≡ h)
  unfolding alloc_job new_job
  states-new_job env state message attrs =
      (states-alloc_job (new_job ext env state message attrs), length-states s.cells s.allocated)

  create-happens :
      (env : Ambient P) (head : ReqParts) (req : IppRequestResponse P)
      → after (create_job ext env head req s).1 running
        ≡ happen (event {ext = ext} {w = world} (create env head req)) (abstract world)
  unfolding create_job
  create-happens env head req = same_queue (sym (states-new_job env pending "Pending" _).0) refl

  print-happens :
      (env : Ambient P) (req : IppRequestResponse P)
      → let begun = print_job_begin ext env req s in
        after begun.1 (enter begun.0.0 begun.0.1 running)
        ≡ happen (event {ext = ext} {w = world} (print env req)) (abstract world)
  unfolding print_job_begin alloc_job
  print-happens env req =
      let begun = (print_job_begin ext env req s).0 in
      let (made, last) = states-new_job env processing "Processing" _ in
      let asked : is_ok begun.1 ≡ is_ok (asked_document ext s (asked_attributes ext s req) req) =
        ap is_ok (prepare_document-taken doc s.info req.attributes req.payload) in
      same_queue (sym made) (
        enter-hand_over begun.0 begun.1 running
        ∙ ap (λ well. hand_over well begun.0 running) asked
        ∙ ap
            (λ h.
              hand_over (is_ok (asked_document ext s (asked_attributes ext s req) req)) h running)
            (sym last))

  mark_processing-started :
      (now : Duration) (job job' : JobInfo)
      → mark_processing ext now job ≡ ok job'
      → (same_state job.state canceled ≡ false)
        × (job'.state ≡ processing)
        × (job'.attributes ≡ job.attributes)
  unfolding mark_processing
  mark_processing-started now job job' e =
      ground (arith, same_state_iff job.state processing, same_state_iff job.state canceled)

  mark_processing-refused :
      (now : Duration) (job : JobInfo) (e : Error)
      → mark_processing ext now job ≡ err e
      → same_state job.state canceled ≡ true
  unfolding mark_processing
  mark_processing-refused now job e h = ground arith

  send-happens :
      (env : Ambient P) (req : IppRequestResponse P) (h : ℕ) (used : h < s.allocated)
      → let begun = send_document_begin ext env req h s in
        after begun.1 (enter h (flat begun.0) running)
        ≡ happen (event {ext = ext} {w = world} (send env req h used)) (abstract world)
  unfolding send_document_begin
  send-happens env req h used =
      rw (get_elem?-states s.cells s.allocated h used)
        (elim (Result-cases (mark_processing ext (env.uptime 0) (s.cells h))) [
          | inr (e, refused) ↦
              rw
                (
                  refused,
                  send_document_begin,
                  enter,
                  mark_processing-refused (env.uptime 0) (s.cells h) e refused,
                )
                refl
          | inl (job, marked) ↦
              let (open_, started, attrs) =
                mark_processing-started (env.uptime 0) (s.cells h) job marked in
              let asked : prepare_document ext s.info job.attributes req.attributes req.payload
                  ≡ asked_document ext s (s.cells h).attributes req =
                prepare_document-requested doc s.info job.attributes req.attributes req.payload
                ∙ ap (λ a. asked_document ext s a req) attrs in
              rw (marked, send_document_begin, open_)
                (same_queue (states-update s.cells s.allocated h job used ∙ rw started refl)
                  (enter-hand_over h _ running ∙ ap (λ d. hand_over (is_ok d) h running) asked))
        ])

  cancel-happens :
      (req : IppRequestResponse P) (h : ℕ) (used : h < s.allocated)
      → after (cancel_found ext req h s).1 running
        ≡ happen (event {ext = ext} {w = world} (cancel req h used)) (abstract world)
  unfolding cancel_found
  cancel-happens req h used =
      rw (get_elem?-states s.cells s.allocated h used)
        (elim (Bool-cases (same_state (s.cells h).state pending)) [
          | inl waits ↦ rw waits (same_queue (states-update s.cells s.allocated h _ used) refl)
          | inr other ↦ rw other refl
        ])

  finish-happens :
      (head : ReqParts) (req : IppRequestResponse P) (h : ℕ) (handled : Result (Unit {0}))
      (now : Duration) (used : h < s.allocated) (r : IsRunning h running)
      → after (finish_document ext head req h handled now s).1 (leave h running)
        ≡ happen (event {ext = ext} {w = world} (finish head req h handled now r)) (abstract world)
  unfolding finish_document finished
  finish-happens head req h (ok _) now used r =
      rw (IsRunning-is_handling h running r)
        (same_queue (states-update s.cells s.allocated h _ used) refl)
  finish-happens head req h (err e) now used r =
      rw (IsRunning-is_handling h running r)
        (same_queue (states-update s.cells s.allocated h _ used) refl)

start-abstract : (info : PrinterInfo) → abstract (start info) ≡ empty_queue
unfolding new states
start-abstract info = refl

module _ {P : Type 0} {ext : External P} (doc : Documented ext) where
  Step-happens :
      {w v : World}
      → IsConsistent ext w.service w.running
      → (st : Step ext w v) → abstract v ≡ happen (event st) (abstract w)
  Step-happens {w} c (print env req) = print-happens doc w.service w.running env req
  Step-happens {w} c (send env req h used) = send-happens doc w.service w.running env req h used
  Step-happens {w} c (finish head req h handled now r) =
      finish-happens doc w.service w.running head req h handled now (c.started h r).0 r
  Step-happens {w} c (create env head req) = create-happens doc w.service w.running env head req
  Step-happens {w} c (cancel req h used) = cancel-happens doc w.service w.running req h used
  Step-happens c (evict m fewer) = refl

  -- Whatever requests run on a new service and however they interleave, the states of the jobs and
  -- the jobs at the handler are those of the empty queue after the events of the run, in their order.
  -- There a new job is pending, or processing if it comes with its document; a document for a
  -- canceled job does nothing, one for any other job makes it processing; only a pending job is
  -- canceled; a document is with the handler if its format and its compression are supported; and
  -- only a job with the handler ends, when the handler is done with one of its documents, completed
  -- or aborted as the handler says.
  pub abstract-queue_after :
      (info : PrinterInfo) (w : World) (run : Reach ext (start info) w)
      → abstract w ≡ queue_after run empty_queue
  abstract-queue_after info w here = start-abstract info
  abstract-queue_after info w (next {u} run st) =
      Step-happens (reachable-IsConsistent doc info u run) st
      ∙ ap (happen (event st)) (abstract-queue_after info u run)
