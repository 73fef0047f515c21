-- ===== src/Service/Simple/Steps.antt =====
-- Every interleaving of requests keeps the invariant of the simple service, and moves each job along
-- the arrows of its life.
use ippper_rs.Prelude.{
  ℕ, ℤ, String, ◌<◌, ◌≡◌, inl, inr, refl, none, List, arith, to_i32, Bool-cases,
}
use ippper_rs.Ipp.Enums.{JobState, pending, processing, same_state, same_state_iff}
use ippper_rs.Ipp.Attributes.{IppRequestResponse}
use ippper_rs.Ipp.Http.{ReqParts}
use ippper_rs.Ipp.External.{External, Documented}
use ippper_rs.Error.{Result, ok, err, Result-cases}
use ippper_rs.Service.Simple.Info.{JobInfo, Duration, PrinterInfo, SimpleIppJobAttributes}
use ippper_rs.Service.Simple.State.{SimpleIppService, alloc_job, new}
use ippper_rs.Service.Simple.Documents.{
  Ambient, print_job_begin, send_document_begin, finish_document, create_job, finished, new_job,
  mark_processing,
}
use ippper_rs.Service.Simple.Handlers.{cancel_found}
use ippper_rs.Service.Simple.World.{
  World, IsRunning, enter, flat, Step, print, send, finish, create, cancel, evict, Reach, here,
  next, start,
}
use ippper_rs.Service.Simple.Consistent.{
  Lifecycle, IsConsistent, write_job-IsConsistent, alloc_job-IsConsistent,
  enter_result-IsConsistent, leave-IsConsistent,
}

module _ {P : Type 0} (ext : External P) where
  -- Where a new job is.
  pub alloc_job_lem :
      (init : ℤ → JobInfo) (s : SimpleIppService)
      → ((alloc_job ext init s).0 < (alloc_job ext init s).1.allocated)
        × ((alloc_job ext init s).1.cells (alloc_job ext init s).0 ≡ init s.job_id)
  unfolding alloc_job
  alloc_job_lem init s = (omega arith, ground arith)

  pub new_job-state :
      (env : Ambient P) (state : JobState) (message : String) (attrs : SimpleIppJobAttributes)
      (s : SimpleIppService)
      → let (h, s') = alloc_job ext (new_job ext env state message attrs) s in
        (s'.cells h).state ≡ state
  unfolding alloc_job new_job
  new_job-state env state message attrs s = ground arith

  pub mark_processing_lem :
      (now : Duration) (job job' : JobInfo)
      → mark_processing ext now job ≡ ok job'
      → (job'.id ≡ job.id) × (job'.state ≡ processing)
  unfolding mark_processing
  mark_processing_lem now job job' e = ground (arith, same_state_iff job.state processing)

module _ {P : Type 0} {ext : External P} (doc : Documented ext) where
  abbrev pub IsGood : World → Type 0
  IsGood w = IsConsistent ext w.service w.running

  module _ {s : SimpleIppService} {running : List ℕ} (c : IsConsistent ext s running) where
    cancel-IsConsistent :
        (req : IppRequestResponse P) (h : ℕ)
        → h < s.allocated
        → IsConsistent ext (cancel_found ext req h s).1 running
    unfolding cancel_found
    cancel-IsConsistent req h used = elim (Bool-cases (same_state (s.cells h).state pending)) [
      | inl waits ↦
          let waiting : (s.cells h).state ≡ pending = (same_state_iff _ _).0 waits in
          rw waits (
            write_job-IsConsistent ext c h _ used refl (ground (arith, c.lifecycle h used))
              (ground arith))
      | inr other ↦ rw other c
    ]

    finish-IsConsistent :
        (head : ReqParts) (req : IppRequestResponse P) (h : ℕ) (handled : Result (Unit {0}))
        (now : Duration)
        → IsRunning h running
        → IsConsistent ext (finish_document ext head req h handled now s).1 running
    unfolding finish_document finished
    finish-IsConsistent head req h (ok _) now r =
        write_job-IsConsistent ext c h _ (c.started h r).0 refl (λ e. cc) (λ _. tt)
    finish-IsConsistent head req h (err e) now r =
        write_job-IsConsistent ext c h _ (c.started h r).0 refl (λ e. cc) (λ _. tt)

    new_job-IsConsistent :
        (env : Ambient P) (state : JobState) (message : String) (attrs : SimpleIppJobAttributes)
        → Lifecycle state none
        → IsConsistent ext (alloc_job ext (new_job ext env state message attrs) s).1 running
    unfolding new_job
    new_job-IsConsistent env state message attrs life =
        alloc_job-IsConsistent ext c doc (new_job ext env state message attrs) (λ k. refl) life

    create-IsConsistent :
        (env : Ambient P) (head : ReqParts) (req : IppRequestResponse P)
        → IsConsistent ext (create_job ext env head req s).1 running
    unfolding create_job
    create-IsConsistent env head req =
        new_job-IsConsistent env pending "Pending" _ (unfold new_job in refl)

    send-IsConsistent :
        (env : Ambient P) (req : IppRequestResponse P) (h : ℕ)
        → h < s.allocated
        → IsConsistent ext
            (send_document_begin ext env req h s).1
            (enter h (flat (send_document_begin ext env req h s).0) running)
    unfolding send_document_begin
    send-IsConsistent env req h used =
        elim (Result-cases (mark_processing ext (env.uptime 0) (s.cells h))) [
          | inr (e, refused) ↦ rw (refused, send_document_begin, enter) c
          | inl (job, marked) ↦
              let (same_id, is_processing) =
                mark_processing_lem ext (env.uptime 0) (s.cells h) job marked in
              rw (marked, send_document_begin, enter)
                (enter_result-IsConsistent ext
                  (write_job-IsConsistent ext c h job used same_id (rw is_processing tt)
                    (λ _. rw is_processing tt))
                  h _ used (ground arith))
        ]

    print-IsConsistent :
        (env : Ambient P) (req : IppRequestResponse P)
        → IsConsistent ext
            (print_job_begin ext env req s).1
            (enter (print_job_begin ext env req s).0.0 (print_job_begin ext env req s).0.1 running)
    unfolding print_job_begin
    print-IsConsistent env req =
        enter_result-IsConsistent ext (new_job-IsConsistent env processing "Processing" _ tt) _ _
          (alloc_job_lem ext _ s).0 (rw new_job-state tt)

  pub Step-IsGood : {w v : World} → Step ext w v → IsGood w → IsGood v
  Step-IsGood (print env req) c = print-IsConsistent c env req
  Step-IsGood (send env req h used) c = send-IsConsistent c env req h used
  Step-IsGood (finish head req h handled now r) c =
      leave-IsConsistent ext (finish-IsConsistent c head req h handled now r) h
  Step-IsGood (create env head req) c = create-IsConsistent c env head req
  Step-IsGood (cancel req h used) c = cancel-IsConsistent c req h used
  Step-IsGood (evict m fewer) c = record {
    counter = c.counter;
    ids = c.ids;
    found = λ k h e. c.found k h (fewer k h e);
    started = c.started;
    lifecycle = c.lifecycle;
  }

  pub Reach-IsGood : {w v : World} → Reach ext w v → IsGood w → IsGood v
  Reach-IsGood here c = c
  Reach-IsGood (next r st) c = Step-IsGood st (Reach-IsGood r c)

  start-IsGood : (info : PrinterInfo) → IsGood (start info)
  unfolding new to_i32
  start-IsGood info = record {
    counter = refl;
    ids = λ h lt. absurd (omega arith);
    found = λ k h e. cc (doc.cache_get-nil k);
    started = λ h r. absurd r;
    lifecycle = λ h lt. absurd (omega arith);
  }

  -- Whatever requests run and however they interleave, after any number of steps from a new service:
  -- the ids count up from 1000 in the order of allocation (as `i32` values), the snapshot gives for
  -- an id only a job with that id, a job whose document is with the handler is neither pending nor
  -- canceled, every job is pending, processing, canceled, aborted or completed, a pending or
  -- canceled job has no time of completion and an aborted or completed one has.
  pub reachable-IsConsistent :
      (info : PrinterInfo) (w : World)
      → Reach ext (start info) w
      → IsConsistent ext w.service w.running
  reachable-IsConsistent info w r = Reach-IsGood r (start-IsGood info)
