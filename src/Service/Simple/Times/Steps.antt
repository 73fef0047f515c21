-- ===== src/Service/Simple/Times/Steps.antt =====
-- Whatever requests run, the times of each job are in order.
use ippper_rs.Prelude.{ℕ, ℤ, ◌<◌, ◌≤◌, subst, Bool-cases, arith, eqb, eqb_iff, inl, inr}
use ippper_rs.Ipp.Enums.{pending, processing, same_state}
use ippper_rs.Ipp.Attributes.{IppRequestResponse}
use ippper_rs.Ipp.Http.{ReqParts}
use ippper_rs.Ipp.External.{External}
use ippper_rs.Error.{Result, Result-cases}
use ippper_rs.Service.Simple.Info.{JobInfo, Duration, PrinterInfo}
use ippper_rs.Service.Simple.State.{SimpleIppService, alloc_job, write_job, new}
use ippper_rs.Service.Simple.Documents.{
  Ambient, print_job_begin, send_document_begin, finish_document, create_job, mark_processing,
}
use ippper_rs.Service.Simple.Handlers.{cancel_found}
use ippper_rs.Service.Simple.World.{World, Step, print, send, finish, create, cancel, evict}
use ippper_rs.Service.Simple.Times.{instant, InTime, TimedReach, begin, next, IsOrdered}
use ippper_rs.Service.Simple.Times.Jobs.{
  later, new_job-IsOrdered, finished-IsOrdered, mark_processing-IsOrdered, canceled-IsOrdered,
}

module _ {P : Type 0} (ext : External P) where
  module _ (s : SimpleIppService) (before now : ℕ) (i : ℕ) where
    alloc_job-IsOrdered :
        (init : ℤ → JobInfo)
        → before ≤ now
        → ((k : ℤ) → IsOrdered now (init k))
        → (i < s.allocated → IsOrdered before (s.cells i))
        → i < (alloc_job ext init s).1.allocated
        → IsOrdered now ((alloc_job ext init s).1.cells i)
    unfolding alloc_job
    alloc_job-IsOrdered init le new old used = elim (Bool-cases (eqb i s.allocated)) [
      | inl last ↦ rw last (new s.job_id)
      | inr other ↦
          let used' : i < s.allocated = ground (arith, eqb_iff i s.allocated) in
          rw other (later before now (s.cells i) le (old used'))
    ]

    module _ (le : before ≤ now) (old : IsOrdered before (s.cells i)) where
      write-IsOrdered :
          (h : ℕ) (job : JobInfo)
          → (IsOrdered before (s.cells h) → IsOrdered now job)
          → IsOrdered now ((write_job h job s).cells i)
      write-IsOrdered h job keep = elim (Bool-cases (eqb i h)) [
        | inl same ↦
            rw same (keep (subst (λ j. IsOrdered before (s.cells j)) ((eqb_iff i h).0 same) old))
        | inr other ↦ rw other (later before now (s.cells i) le old)
      ]

      send-IsOrdered :
          (env : Ambient P) (req : IppRequestResponse P) (h : ℕ)
          → before ≤ instant (env.uptime 0)
          → instant (env.uptime 0) ≤ now
          → IsOrdered now ((send_document_begin ext env req h s).1.cells i)
      unfolding send_document_begin
      send-IsOrdered env req h from to =
          elim (Result-cases (mark_processing ext (env.uptime 0) (s.cells h))) [
            | inr (e, refused) ↦
                rw (refused, send_document_begin) (later before now (s.cells i) le old)
            | inl (job, marked) ↦
                rw (marked, send_document_begin)
                  (write-IsOrdered h job (
                    mark_processing-IsOrdered ext before now (env.uptime 0) (s.cells h) job from to
                      marked))
          ]

      cancel-IsOrdered :
          (req : IppRequestResponse P) (h : ℕ)
          → IsOrdered now ((cancel_found ext req h s).1.cells i)
      unfolding cancel_found
      cancel-IsOrdered req h = elim (Bool-cases (same_state (s.cells h).state pending)) [
        | inl waits ↦ rw waits (write-IsOrdered h _ (λ o. canceled-IsOrdered before now _ le o))
        | inr other ↦ rw other (later before now (s.cells i) le old)
      ]

      finish-IsOrdered :
          (head : ReqParts) (req : IppRequestResponse P) (h : ℕ) (handled : Result (Unit {0}))
          (t : Duration)
          → before ≤ instant t
          → instant t ≤ now
          → IsOrdered now ((finish_document ext head req h handled t s).1.cells i)
      unfolding finish_document
      finish-IsOrdered head req h handled t from to =
          write-IsOrdered h _ (finished-IsOrdered ext before now handled t (s.cells h) from to)

    print-IsOrdered :
        (env : Ambient P) (req : IppRequestResponse P)
        → before ≤ now
        → instant (env.uptime 0) ≤ now
        → (i < s.allocated → IsOrdered before (s.cells i))
        → i < (print_job_begin ext env req s).1.allocated
        → IsOrdered now ((print_job_begin ext env req s).1.cells i)
    unfolding print_job_begin
    print-IsOrdered env req le to old used =
        alloc_job-IsOrdered _ le
          (λ k. new_job-IsOrdered ext now env processing "Processing" _ k tt to) old used

    create-IsOrdered :
        (env : Ambient P) (head : ReqParts) (req : IppRequestResponse P)
        → before ≤ now
        → instant (env.uptime 0) ≤ now
        → (i < s.allocated → IsOrdered before (s.cells i))
        → i < (create_job ext env head req s).1.allocated
        → IsOrdered now ((create_job ext env head req s).1.cells i)
    unfolding create_job
    create-IsOrdered env head req le to old used =
        alloc_job-IsOrdered _ le (λ k. new_job-IsOrdered ext now env pending "Pending" _ k tt to)
          old used

-- The jobs are in order.
abbrev AllOrdered : ℕ → World → Type 0
AllOrdered now w = (i : ℕ) → i < w.service.allocated → IsOrdered now (w.service.cells i)

module _ {P : Type 0} {ext : External P} where
  Step-AllOrdered :
      {w v : World} (before now : ℕ) (st : Step ext w v)
      → InTime before now st
      → before ≤ now
      → AllOrdered before w
      → AllOrdered now v
  unfolding send_document_begin finish_document cancel_found
  Step-AllOrdered {w} before now (print env req) to le old i used =
      print-IsOrdered ext w.service before now i env req le to (old i) used
  Step-AllOrdered {w} before now (create env head req) to le old i used =
      create-IsOrdered ext w.service before now i env head req le to (old i) used
  Step-AllOrdered {w} before now (send env req h there) (from, to) le old i used =
      send-IsOrdered ext w.service before now i le (old i (ground arith)) env req h from to
  Step-AllOrdered {w} before now (finish head req h handled t r) (from, to) le old i used =
      finish-IsOrdered ext w.service before now i le (old i used) head req h handled t from to
  Step-AllOrdered {w} before now (cancel req h there) it le old i used =
      cancel-IsOrdered ext w.service before now i le (old i (ground arith)) req h
  Step-AllOrdered {w} before now (evict m fewer) it le old i used =
      later before now (w.service.cells i) le (old i used)

  -- On a clock that does not go back, in every state that requests in any interleaving lead a new
  -- service to, each job, a pending one too, has a time of processing, which is not before its
  -- creation; its completion, if it has one, is not before its creation either; all these times are
  -- past; and a job that is completed or aborted has a time of completion that is not before the one
  -- of its processing.
  pub TimedReach-IsOrdered :
      (info : PrinterInfo) (w : World) (now h : ℕ)
      → TimedReach ext info w now
      → h < w.service.allocated
      → IsOrdered now (w.service.cells h)
  unfolding new
  TimedReach-IsOrdered info w now h (begin _) used = absurd (omega arith)
  TimedReach-IsOrdered info w now h (next {before} _ r le st it) used =
      Step-AllOrdered before now st it le (λ i used. TimedReach-IsOrdered info _ before i r used) h
        used
