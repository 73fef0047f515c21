-- ===== src/Service/Simple/Stuck.antt =====
-- A job that is processing while no document of it is with the handler: nothing but another document
-- moves it. The errors of service/simple.rs leave such jobs.
use ippper_rs.Prelude.{
  ℕ, ◌+◌, ◌<◌, ◌≡◌, ◌≢◌, inl, inr, refl, sym, ap, subst, ◌∙◌, none, List, arith, eqb_iff,
}
use ippper_rs.Ipp.Enums.{pending, processing, same_state_iff}
use ippper_rs.Ipp.Attributes.{IppRequestResponse}
use ippper_rs.Ipp.Http.{ReqParts}
use ippper_rs.Ipp.External.{External, Documented}
use ippper_rs.Error.{Error, Result, ok, err, IppResult, Result-cases}
use ippper_rs.Service.Simple.Info.{JobInfo, Duration, PrinterInfo}
use ippper_rs.Service.Simple.State.{SimpleIppService, alloc_job}
use ippper_rs.Service.Simple.Documents.{
  Ambient, print_job, print_job_begin, send_document_begin, finish_document, mark_processing,
}
use ippper_rs.Service.Simple.Handlers.{cancel_found}
use ippper_rs.Service.Simple.World.{
  World, Step, print, send, finish, create, cancel, evict, Reach, start, IsRunning, enter,
}
use ippper_rs.Service.Simple.Consistent.{IsRunning-leave}
use ippper_rs.Service.Simple.Life.{print-Evolves, create-Evolves, Step-used}
use ippper_rs.Service.Simple.Steps.{reachable-IsConsistent}
use ippper_rs.Service.Simple.Accepted.{Outcome, asked_attributes, asked_document, made_job}
use ippper_rs.Service.Simple.Outcomes.{print_job-Outcome}
use ippper_rs.Service.Simple.Sequential.{with_service}

-- A step that sends a document to a job.
abbrev pub SendsTo : {P : Type 0} {ext : External P} {w v : World} → ℕ → Step ext w v → Type 0
SendsTo i (send env req h used) = h ≡ i
SendsTo i (print env req) = ⊥
SendsTo i (create env head req) = ⊥
SendsTo i (finish head req h handled t r) = ⊥
SendsTo i (cancel req h used) = ⊥
SendsTo i (evict m fewer) = ⊥

module _ {P : Type 0} (ext : External P) where
  -- What is reached without sending a document to a job.
  pub data ReachWithout (i : ℕ) (w : World) : World → Type 0 where
    here : ReachWithout i w w
    next :
        {u v : World}
        → ReachWithout i w u
        → (st : Step ext u v) → ¬ SendsTo i st
        → ReachWithout i w v

-- A job that is processing and has no document with the handler.
pub record IsStuck (w : World) (i : ℕ) : Type 0 where
  pub used : i < w.service.allocated
  pub state : (w.service.cells i).state ≡ processing
  pub alone : ¬ IsRunning i w.running

not-IsRunning-enter :
    {A : Type 0} (h i : ℕ) (r : Result A) (running : List ℕ)
    → h ≢ i
    → ¬ IsRunning i running
    → ¬ IsRunning i (enter h r running)
not-IsRunning-enter h i (ok a) running apart alone (inl e) = apart (sym e)
not-IsRunning-enter h i (ok a) running apart alone (inr there) = alone there
not-IsRunning-enter h i (err e) running apart alone there = alone there

-- The job is as it was, and is still stuck.
abbrev Unmoved : ℕ → World → World → Type 0
Unmoved i w v = (v.service.cells i ≡ w.service.cells i) × IsStuck v i

stays :
    (i : ℕ) (w v : World)
    → IsStuck w i
    → i < v.service.allocated
    → v.service.cells i ≡ w.service.cells i
    → ¬ IsRunning i v.running
    → Unmoved i w v
stays i w v stuck used same alone = (
  same,
  record { used = used; state = ap (λ (j : JobInfo). j.state) same ∙ stuck.state; alone = alone },
)

module _ {P : Type 0} (ext : External P) (i : ℕ) (s : SimpleIppService) where
  print_job_begin-handle :
      (env : Ambient P) (req : IppRequestResponse P)
      → (print_job_begin ext env req s).0.0 ≡ s.allocated
  unfolding print_job_begin alloc_job
  print_job_begin-handle env req = refl

  send-other :
      (env : Ambient P) (req : IppRequestResponse P) (h : ℕ)
      → h ≢ i
      → (send_document_begin ext env req h s).1.cells i ≡ s.cells i
  unfolding send_document_begin
  send-other env req h apart =
      elim (Result-cases (mark_processing ext (env.uptime 0) (s.cells h))) [
        | inr (e, refused) ↦ rw (refused, send_document_begin) refl
        | inl (job, marked) ↦ rw (marked, send_document_begin) (ground (arith, eqb_iff i h))
      ]

  finish-other :
      (head : ReqParts) (req : IppRequestResponse P) (h : ℕ) (handled : Result (Unit {0}))
      (t : Duration)
      → h ≢ i
      → (finish_document ext head req h handled t s).1.cells i ≡ s.cells i
  unfolding finish_document
  finish-other head req h handled t apart = ground (arith, eqb_iff i h)

  cancel-processing :
      (req : IppRequestResponse P) (h : ℕ)
      → (s.cells i).state ≡ processing
      → (cancel_found ext req h s).1.cells i ≡ s.cells i
  unfolding cancel_found
  cancel-processing req h busy =
      ground (arith, eqb_iff i h, same_state_iff (s.cells h).state pending)

module _ {P : Type 0} {ext : External P} (i : ℕ) where
  Step-IsStuck : {w v : World} (st : Step ext w v) → ¬ SendsTo i st → IsStuck w i → Unmoved i w v
  Step-IsStuck {w} {v} (print env req) other stuck =
      stays i w v stuck (Step-used {ext = ext} {w = w} i stuck.used (print env req))
        (print-Evolves ext w.service i env req stuck.used)
        (not-IsRunning-enter _ i _ w.running
          (λ e. omega (arith, stuck.used, print_job_begin-handle ext i w.service env req))
          stuck.alone)
  Step-IsStuck {w} {v} (create env head req) other stuck =
      stays i w v stuck (Step-used {ext = ext} {w = w} i stuck.used (create env head req))
        (create-Evolves ext w.service i env head req stuck.used) stuck.alone
  Step-IsStuck {w} {v} (send env req h used) other stuck =
      stays i w v stuck (Step-used {ext = ext} {w = w} i stuck.used (send env req h used))
        (send-other ext i w.service env req h other)
        (not-IsRunning-enter h i _ w.running other stuck.alone)
  Step-IsStuck {w} {v} (finish head req h handled t r) other stuck =
      stays i w v stuck (Step-used {ext = ext} {w = w} i stuck.used (finish head req h handled t r))
        (finish-other ext i w.service head req h handled t
          (λ e. stuck.alone (subst (λ k. IsRunning k w.running) e r)))
        (λ there. stuck.alone (IsRunning-leave h i w.running there))
  Step-IsStuck {w} {v} (cancel req h used) other stuck =
      stays i w v stuck (Step-used {ext = ext} {w = w} i stuck.used (cancel req h used))
        (cancel-processing ext i w.service req h stuck.state) stuck.alone
  Step-IsStuck {w} {v} (evict m fewer) other stuck = stays i w v stuck stuck.used refl stuck.alone

  -- As long as no other document is sent to it, a stuck job stays as it is.
  ReachWithout-IsStuck : {w v : World} → ReachWithout ext i w v → IsStuck w i → Unmoved i w v
  ReachWithout-IsStuck here stuck = (refl, stuck)
  ReachWithout-IsStuck (next r st other) stuck =
      let (same, still) = ReachWithout-IsStuck r stuck in
      let (same', still') = Step-IsStuck st other still in (same' ∙ same, still')

module _ {P : Type 0} {ext : External P} (doc : Documented ext) (env : Ambient P) (head : ReqParts)
    (req : IppRequestResponse P) where
  refused_job :
      (s : SimpleIppService) (e : Error)
      → asked_document ext s (asked_attributes ext s req) req ≡ err e
      → let (result, s') = print_job ext env head req s in
        (result ≡ err e)
        × ((s'.cells s.allocated).state ≡ processing)
        × ((s'.cells s.allocated).completed_at ≡ none)
        × (s'.allocated ≡ s.allocated + 1)
  refused_job s e refused =
      let (result, s') = print_job ext env head req s in
      let (more, spares, outcome) = print_job-Outcome ext doc req env head s in
      let (failed, same) =
        error_of result (made_job ext env s req) (s'.cells s.allocated) outcome in
      (failed, ap (λ (j : JobInfo). j.state) same, ap (λ (j : JobInfo). j.completed_at) same, more)
    where
      error_of :
          (result : IppResult P) (accepted job : JobInfo)
          → Outcome ext env req
              (asked_document ext s (asked_attributes ext s req) req)
              result
              accepted
              job
          → (result ≡ err e) × (job ≡ accepted)
      error_of (err m) accepted job (asked, same) =
          let same_error : m ≡ e = cc (asked, refused) in (ap err same_error, same)
      error_of (ok resp) accepted job (document, asked, keeps, handled) = cc (asked, refused)

  -- In a service reached from a new one, a `print_job` whose document format or compression is not
  -- supported returns that error, and leaves a job that is processing, with no time of completion,
  -- and stays so, whatever requests run afterwards, as long as no document is sent to that job.
  pub refused_print_job_stays :
      (info : PrinterInfo) (w v : World) (e : Error)
      → Reach ext (start info) w
      → asked_document ext w.service (asked_attributes ext w.service req) req ≡ err e
      → ReachWithout ext w.service.allocated
          (with_service ext w (print_job ext env head req w.service).1)
          v
      → ((print_job ext env head req w.service).0 ≡ err e)
        × ((v.service.cells w.service.allocated).state ≡ processing)
        × ((v.service.cells w.service.allocated).completed_at ≡ none)
  refused_print_job_stays info w v e reached refused without =
      let c = reachable-IsConsistent doc info w reached in
      let (failed, busy, open_, more) = refused_job w.service e refused in
      let stuck : IsStuck (with_service ext w (print_job ext env head req w.service).1)
          w.service.allocated =
        record {
          used = omega (arith, more);
          state = busy;
          alone = λ r. omega (arith, (c.started w.service.allocated r).0);
        } in
      let (same, still) = ReachWithout-IsStuck w.service.allocated without stuck in
      (failed, still.state, ap (λ (j : JobInfo). j.completed_at) same ∙ open_)
