-- ===== src/Service/Simple/Commute.antt =====
-- The critical sections of service/simple.rs that are about one job: those about different jobs
-- commute.
use ippper_rs.Prelude.{
  ℕ, ◌≡◌, ◌≢◌, refl, sym, ap, fun_ext, ◌∙◌, inl, inr, arith, eqb_iff, Bool-cases, if◌then◌else◌,
}
use ippper_rs.Ipp.Enums.{pending, canceled, same_state, successful_ok, client_error_not_possible}
use ippper_rs.Ipp.Attributes.{IppRequestResponse}
use ippper_rs.Ipp.Http.{ReqParts}
use ippper_rs.Ipp.External.{External}
use ippper_rs.Error.{Result, ok, err, IppResult, Result-cases}
use ippper_rs.Service.Simple.Info.{JobInfo, Duration, PrinterInfo, SimpleIppDocument}
use ippper_rs.Service.Simple.State.{SimpleIppService, write_job}
use ippper_rs.Service.Simple.Responses.{basic_response, job_response}
use ippper_rs.Service.Simple.Documents.{
  Ambient, mark_processing, prepare_document, send_document_begin, finish_document, finished,
  document_response,
}
use ippper_rs.Service.Simple.Handlers.{cancel_found}

-- A critical section of a request about a job that it has found, and its answer.
pub data Section (P : Type 0) : Type 0 where
  cancel : IppRequestResponse P → Section P
  begin_document : Ambient P → IppRequestResponse P → Section P
  finish : ReqParts → IppRequestResponse P → Result (Unit {0}) → Duration → Section P

pub data Answer (P : Type 0) : Type 0 where
  answered : IppResult P → Answer P
  begun : Result (Result (SimpleIppDocument P)) → Answer P

abbrev pub run :
    {P : Type 0} → External P → Section P → ℕ → SimpleIppService → Answer P × SimpleIppService
run ext (cancel req) h s = let (result, s') = cancel_found ext req h s in (answered result, s')
run ext (begin_document env req) h s =
    let (result, s') = send_document_begin ext env req h s in (begun result, s')
run ext (finish head req handled now) h s =
    let (response, s') = finish_document ext head req h handled now s in
    (answered (ok response), s')

-- A section that reads and writes nothing but its job, and reads what never changes.
pub record IsLocal {A : Type 0} (h : ℕ) (f : SimpleIppService → A × SimpleIppService) : Type 0 where
  pub answer : JobInfo → SimpleIppService → A
  pub next : JobInfo → SimpleIppService → JobInfo
  pub fixed :
      (job : JobInfo) (i : ℕ) (other : JobInfo) (s : SimpleIppService)
      → (answer job (write_job i other s) ≡ answer job s)
        × (next job (write_job i other s) ≡ next job s)
  pub runs :
      (s : SimpleIppService) → f s ≡ (answer (s.cells h) s, write_job h (next (s.cells h) s) s)

write_job_self : (h : ℕ) (s : SimpleIppService) → write_job h (s.cells h) s ≡ s
write_job_self h s =
    ap (λ (c : ℕ → JobInfo). record s { cells = c }) (fun_ext (λ k. ground (arith, eqb_iff k h)))

write_job-swap :
    (h i : ℕ) (a b : JobInfo) (s : SimpleIppService)
    → h ≢ i
    → write_job i b (write_job h a s) ≡ write_job h a (write_job i b s)
write_job-swap h i a b s apart =
    ap (λ (c : ℕ → JobInfo). record s { cells = c })
      (fun_ext (λ k. ground (arith, eqb_iff k h, eqb_iff k i)))

module _ {A : Type 0} {h : ℕ} {f : SimpleIppService → A × SimpleIppService} (l : IsLocal h f) where
  -- After a write to another job.
  runs-other :
      (i : ℕ) (other : JobInfo) (s : SimpleIppService)
      → h ≢ i
      → f (write_job i other s)
        ≡ (l.answer (s.cells h) s, write_job h (l.next (s.cells h) s) (write_job i other s))
  runs-other i other s apart =
      let same : (write_job i other s).cells h ≡ s.cells h = ground (arith, eqb_iff h i) in
      let (answers, nexts) = l.fixed (s.cells h) i other s in
      l.runs (write_job i other s)
      ∙ ap
          (λ (j : JobInfo). (
            l.answer j (write_job i other s),
            write_job h (l.next j (write_job i other s)) (write_job i other s),
          ))
          same
      ∙ ap (λ (x : A × JobInfo). (x.0, write_job h x.1 (write_job i other s))) (pair answers nexts)
    where
      pair :
          {B C : Type 0} {b b' : B} {c c' : C} → b ≡ b' → c ≡ c' → ◌≡◌ {A = B × C} (b, c) (b', c')
      pair {b} {c' = c'} e e' = ap (λ x. (b, x)) e' ∙ ap (λ x. (x, c')) e

module _ {A B : Type 0} {h i : ℕ} {f : SimpleIppService → A × SimpleIppService}
    {g : SimpleIppService → B × SimpleIppService} (l : IsLocal h f) (r : IsLocal i g)
    (apart : h ≢ i) (s : SimpleIppService) where
  local-commute :
      ((f (g s).1).0 ≡ (f s).0) × ((g (f s).1).0 ≡ (g s).0) × ((f (g s).1).1 ≡ (g (f s).1).1)
  local-commute =
      let first = l.runs s in
      let second = r.runs s in
      let a = l.next (s.cells h) s in
      let b = r.next (s.cells i) s in
      let f_later = ap (λ x. f x.1) second ∙ runs-other l i b s apart in
      let g_later = ap (λ x. g x.1) first ∙ runs-other r h a s (λ e. apart (sym e)) in
      (
        ap (λ x. x.0) f_later ∙ ap (λ x. x.0) (sym first),
        ap (λ x. x.0) g_later ∙ ap (λ x. x.0) (sym second),
        ap (λ x. x.1) f_later ∙ sym (write_job-swap h i a b s apart) ∙ ap (λ x. x.1) (sym g_later),
      )

-- A section that leaves its job alone.
left_alone :
    {A : Type 0} (answer : A) (h : ℕ) (s : SimpleIppService)
    → ◌≡◌ {A = A × SimpleIppService} (answer, s) (answer, write_job h (s.cells h) s)
left_alone answer h s = ap (λ t. (answer, t)) (sym (write_job_self h s))

module _ {P : Type 0} (ext : External P) where
  cancel-IsLocal : (req : IppRequestResponse P) (h : ℕ) → IsLocal h (run ext (cancel req) h)
  unfolding cancel_found
  cancel-IsLocal req h = record {
    answer = λ job s.
        if same_state job.state pending
        then answered (ok (basic_response ext req successful_ok))
        else answered (ok (basic_response ext req client_error_not_possible));
    next = λ job s.
        if same_state job.state pending
        then record job { state = canceled; state_message = "Canceled" }
        else job;
    fixed = λ job i other s. (refl, refl);
    runs = λ s. elim (Bool-cases (same_state (s.cells h).state pending)) [
      | inl waits ↦ rw (waits, run, cancel_found) refl
      | inr busy ↦ rw (busy, run, cancel_found) (left_alone _ h s)
    ];
  }

  -- What `send_document` marks, and what it goes on with.
  abbrev begun_as : Ambient P → IppRequestResponse P → PrinterInfo → Result JobInfo → Answer P
  begun_as env req info (err e) = begun (err e)
  begun_as env req info (ok job) =
      begun (ok (prepare_document ext info job.attributes req.attributes req.payload))

  abbrev marked_as : JobInfo → Result JobInfo → JobInfo
  marked_as job (err e) = job
  marked_as job (ok job') = job'

  begin_document-IsLocal :
      (env : Ambient P) (req : IppRequestResponse P) (h : ℕ)
      → IsLocal h (run ext (begin_document env req) h)
  unfolding send_document_begin
  begin_document-IsLocal env req h = record {
    answer = λ job s. begun_as env req s.info (mark_processing ext (env.uptime 0) job);
    next = λ job s. marked_as job (mark_processing ext (env.uptime 0) job);
    fixed = λ job i other s. (refl, refl);
    runs = λ s. elim (Result-cases (mark_processing ext (env.uptime 0) (s.cells h))) [
      | inl (job, marked) ↦ rw (marked, run, send_document_begin) refl
      | inr (e, refused) ↦ rw (refused, run, send_document_begin) (left_alone _ h s)
    ];
  }

  finish-IsLocal :
      (head : ReqParts) (req : IppRequestResponse P) (handled : Result (Unit {0})) (now : Duration)
      (h : ℕ)
      → IsLocal h (run ext (finish head req handled now) h)
  unfolding finish_document job_response
  finish-IsLocal head req handled now h = record {
    answer = λ job s. answered (
        ok (
          job_response ext s head (finished ext handled now job)
            (document_response ext handled req)));
    next = λ job s. finished ext handled now job;
    fixed = λ job i other s. (refl, refl);
    runs = λ s. refl;
  }

  run-IsLocal : (section : Section P) (h : ℕ) → IsLocal h (run ext section h)
  run-IsLocal (cancel req) h = cancel-IsLocal req h
  run-IsLocal (begin_document env req) h = begin_document-IsLocal env req h
  run-IsLocal (finish head req handled now) h = finish-IsLocal head req handled now h

  -- Two critical sections about different jobs, each the cancellation of a job, the beginning of
  -- `send_document` or the end of the handling of a document, commute: in either order each gives
  -- the same answer, and the service is the same afterwards.
  pub run-commute :
      (one other : Section P) (h i : ℕ) (s : SimpleIppService)
      → h ≢ i
      → let (answer, s₁) = run ext one h s in
        let (answer', s₂) = run ext other i s in
        ((run ext one h s₂).0 ≡ answer)
        × ((run ext other i s₁).0 ≡ answer')
        × ((run ext one h s₂).1 ≡ (run ext other i s₁).1)
  run-commute one other h i s apart =
      local-commute (run-IsLocal one h) (run-IsLocal other i) apart s
