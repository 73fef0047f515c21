-- ===== src/Service/Simple/Life.antt =====
-- The life of a job while requests are at work on the simple service.
use ippper_rs.Prelude.{
  ℕ, ℤ, ◌+◌, ◌<◌, ◌≡◌, ◌≢◌, ◌⊎◌, inl, inr, refl, Option, none, some, arith, to_i32-injective, ◌∙◌,
  sym, and_then, Option-cases,
}
use ippper_rs.Ipp.Enums.{
  JobState, pending, processing, canceled, aborted, completed, same_state_iff, operation_attributes,
}
use ippper_rs.Ipp.Value.{IppValue, integer, integer?}
use ippper_rs.Ipp.Attributes.{IppRequestResponse, IppAttributes}
use ippper_rs.Ipp.Http.{ReqParts}
use ippper_rs.Ipp.External.{External, Documented}
use ippper_rs.Error.{Result, ok, err, Result-cases}
use ippper_rs.Utils.{get_ipp_attribute}
use ippper_rs.Service.Simple.Info.{JobInfo, Duration, PrinterInfo}
use ippper_rs.Service.Simple.State.{SimpleIppService, alloc_job, find_job}
use ippper_rs.Service.Simple.Documents.{
  Ambient, print_job_begin, send_document_begin, finish_document, create_job, finished,
  mark_processing,
}
use ippper_rs.Service.Simple.Handlers.{cancel_found}
use ippper_rs.Service.Simple.World.{
  World, Step, print, send, finish, create, cancel, evict, Reach, here, next, start,
}
use ippper_rs.Service.Simple.Consistent.{Lifecycle, IsStarted, IsConsistent}
use ippper_rs.Service.Simple.Steps.{Reach-IsGood, reachable-IsConsistent}

-- The moves between states: a pending job is processed or canceled, a job that is processed ends
-- completed or aborted, and a job that has ended may get another document. Nothing leads out of
-- `canceled`, and nothing back to `pending`.
abbrev pub Moves : JobState → JobState → Type 0
Moves pending processing = Unit
Moves pending canceled = Unit
Moves processing aborted = Unit
Moves processing completed = Unit
Moves aborted processing = Unit
Moves aborted aborted = Unit
Moves aborted completed = Unit
Moves completed processing = Unit
Moves completed aborted = Unit
Moves completed completed = Unit
Moves _ _ = ⊥

-- A job stays as it is, or moves.
abbrev pub Evolves : JobInfo → JobInfo → Type 0
Evolves job job' = (job' ≡ job) ⊎ Moves job.state job'.state

module _ {P : Type 0} (ext : External P) (s : SimpleIppService) (i : ℕ) where
  alloc_job-Evolves :
      (init : ℤ → JobInfo) → i < s.allocated → (alloc_job ext init s).1.cells i ≡ s.cells i
  unfolding alloc_job
  alloc_job-Evolves init used = ground arith

  pub print-Evolves :
      (env : Ambient P) (req : IppRequestResponse P)
      → i < s.allocated
      → (print_job_begin ext env req s).1.cells i ≡ s.cells i
  unfolding print_job_begin
  print-Evolves env req used = alloc_job-Evolves _ used

  pub create-Evolves :
      (env : Ambient P) (head : ReqParts) (req : IppRequestResponse P)
      → i < s.allocated
      → (create_job ext env head req s).1.cells i ≡ s.cells i
  unfolding create_job
  create-Evolves env head req used = alloc_job-Evolves _ used

  cancel-Evolves :
      (req : IppRequestResponse P) (h : ℕ)
      → Evolves (s.cells i) ((cancel_found ext req h s).1.cells i)
  unfolding cancel_found
  cancel-Evolves req h = ground (arith, same_state_iff (s.cells h).state pending)

  mark_processing-Evolves :
      (now : Duration) (job job' : JobInfo)
      → mark_processing ext now job ≡ ok job'
      → Lifecycle job.state job.completed_at
      → Evolves job job'
  unfolding mark_processing
  mark_processing-Evolves now job job' e life = ground arith

  send-Evolves :
      (env : Ambient P) (req : IppRequestResponse P) (h : ℕ)
      → Lifecycle (s.cells h).state (s.cells h).completed_at
      → Evolves (s.cells i) ((send_document_begin ext env req h s).1.cells i)
  unfolding send_document_begin
  send-Evolves env req h life =
      elim (Result-cases (mark_processing ext (env.uptime 0) (s.cells h))) [
        | inr (e, refused) ↦ rw (refused, send_document_begin) (inl refl)
        | inl (job, marked) ↦
            let moved = mark_processing-Evolves (env.uptime 0) (s.cells h) job marked life in
            rw (marked, send_document_begin) (ground arith)
      ]

  finish-Evolves :
      (head : ReqParts) (req : IppRequestResponse P) (h : ℕ) (handled : Result (Unit {0}))
      (now : Duration)
      → IsStarted (s.cells h).state
      → Evolves (s.cells i) ((finish_document ext head req h handled now s).1.cells i)
  unfolding finish_document finished
  finish-Evolves head req h (ok _) now go = ground arith
  finish-Evolves head req h (err e) now go = ground arith

module _ {P : Type 0} {ext : External P} where
  pub Step-used :
      {w v : World} (i : ℕ) → i < w.service.allocated → Step ext w v → i < v.service.allocated
  unfolding print_job_begin alloc_job send_document_begin finish_document create_job cancel_found
  Step-used i used (print env req) = omega arith
  Step-used i used (send env req h there) = ground arith
  Step-used i used (finish head req h handled now r) = used
  Step-used i used (create env head req) = omega arith
  Step-used i used (cancel req h there) = ground arith
  Step-used i used (evict m fewer) = used

module _ {P : Type 0} {ext : External P} (doc : Documented ext) where
  -- In every state that satisfies the invariant, one step of any request leaves a job as it is or
  -- moves it along the arrows of `Moves`, where nothing leads out of `canceled` and nothing leads
  -- back to `pending`.
  pub Step-Evolves :
      {w v : World} (c : IsConsistent ext w.service w.running) (i : ℕ)
      → i < w.service.allocated
      → Step ext w v
      → Evolves (w.service.cells i) (v.service.cells i)
  Step-Evolves {w} c i used (print env req) = inl (print-Evolves ext w.service i env req used)
  Step-Evolves {w} c i used (send env req h there) =
      send-Evolves ext w.service i env req h (c.lifecycle h there)
  Step-Evolves {w} c i used (finish head req h handled now r) =
      finish-Evolves ext w.service i head req h handled now (c.started h r).1
  Step-Evolves {w} c i used (create env head req) =
      inl (create-Evolves ext w.service i env head req used)
  Step-Evolves {w} c i used (cancel req h there) = cancel-Evolves ext w.service i req h
  Step-Evolves c i used (evict m fewer) = inl refl

  -- A canceled job of a service that satisfies the invariant stays exactly as it is, whatever
  -- requests run afterwards and however they interleave.
  pub canceled_for_good :
      {w v : World} (c : IsConsistent ext w.service w.running) (i : ℕ)
      → i < w.service.allocated
      → (w.service.cells i).state ≡ canceled
      → Reach ext w v
      → (i < v.service.allocated) × (v.service.cells i ≡ w.service.cells i)
  canceled_for_good c i used gone here = (used, refl)
  canceled_for_good c i used gone (next r st) =
      let (used', same) = canceled_for_good c i used gone r in
      let move = Step-Evolves (Reach-IsGood doc r c) i used' st in
      (Step-used i used' st, ground (arith))

  -- In a service reached from a new one, two jobs of which one was allocated less than 2^32
  -- allocations after the other have different ids.
  pub ids_differ :
      (info : PrinterInfo) (w : World) (h i : ℕ)
      → Reach ext (start info) w
      → h < i
      → i < w.service.allocated
      → i < h + 4294967296
      → (w.service.cells h).id ≢ (w.service.cells i).id
  ids_differ info w h i r lt used near same =
      let c = reachable-IsConsistent doc info w r in
      to_i32-injective (1000 + h) (1000 + i) (omega arith) (omega arith)
        (sym (c.ids h (omega arith)) ∙ same ∙ c.ids i used)

  integer_of :
      (f : IppValue → Option ℤ)
      → ((v : IppValue) → f v ≡ integer? v)
      → (o : Option IppValue) (k : ℤ) → and_then o f ≡ some k
      → o ≡ some (integer k)
  integer_of f reads none k e = cc
  integer_of f reads (some v) k e = ground (arith, reads v)

  find_job-eq-ok :
      (s : SimpleIppService) (r : IppAttributes) (h : ℕ)
      → find_job ext s r ≡ ok h
      → (k : ℤ) × (and_then
            (get_ipp_attribute ext r operation_attributes ext.names.job_id)
            ext.as_integer
          ≡ some k)
        × (ext.cache_get s.job_snapshot k ≡ some h)
  unfolding find_job
  find_job-eq-ok s r h e =
      elim (Option-cases
        (and_then (get_ipp_attribute ext r operation_attributes ext.names.job_id) ext.as_integer)) [
          | inl missing ↦ absurd (ground arith)
          | inr (k, asked) ↦
              (k, asked, ground (arith, Option-cases (ext.cache_get s.job_snapshot k)))
        ]

  -- In a service reached from a new one, a request that finds a job finds an allocated one whose id
  -- is the number in the request's attribute `job-id`.
  pub find_job-id :
      (info : PrinterInfo) (w : World) (r : IppAttributes) (h : ℕ)
      → Reach ext (start info) w
      → find_job ext w.service r ≡ ok h
      → (h < w.service.allocated)
        × (get_ipp_attribute ext r operation_attributes ext.names.job_id
            ≡ some (integer (w.service.cells h).id))
  find_job-id info w r h reached e =
      let c = reachable-IsConsistent doc info w reached in
      let (k, asked, cached) = find_job-eq-ok w.service r h e in
      let (used, same) = c.found k h cached in
      (used, rw same (integer_of ext.as_integer doc.as_integer_lem _ k asked))
