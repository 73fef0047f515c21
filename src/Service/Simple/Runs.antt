-- ===== src/Service/Simple/Runs.antt =====
-- Runs of the steps of World by what is called in each step, and the calls that a request makes.
use ippper_rs.Prelude.{
  ℕ, ◌≡◌, refl, sym, ap, ◌∙◌, List, [], ◌∷◌, ◌++◌, Option, none, some, leb, if◌then◌else◌,
}
use mathlib.Core.List.{append-nil, append_assoc}
use ippper_rs.Ipp.Enums
use ippper_rs.Ipp.Enums.{Operation, canceled, same_state}
use ippper_rs.Ipp.Attributes.{IppRequestResponse}
use ippper_rs.Ipp.Http.{ReqParts}
use ippper_rs.Ipp.External.{External, Snapshot}
use ippper_rs.Error.{Result, ok, err}
use ippper_rs.Service.Simple.Info.{SimpleIppDocument, Duration}
use ippper_rs.Service.Simple.State.{SimpleIppService}
use ippper_rs.Service.Simple.Documents.{Ambient}
use ippper_rs.Service.Simple.Accepted.{asked_attributes, asked_document, named_job}
use ippper_rs.Service.Simple.World.{
  World, Step, print, send, finish, create, cancel, evict, Reach, here, next,
}

-- What is called in a step, and with what.
pub data Call (P : Type 0) : Type 0 where
  print_begins : Ambient P → IppRequestResponse P → Call P
  send_begins : Ambient P → IppRequestResponse P → ℕ → Call P
  document_finishes : ReqParts → IppRequestResponse P → ℕ → Result (Unit {0}) → Duration → Call P
  job_created : Ambient P → ReqParts → IppRequestResponse P → Call P
  job_canceled : IppRequestResponse P → ℕ → Call P
  cache_shrinks : Snapshot → Call P

module _ {P : Type 0} {ext : External P} where
  abbrev pub call : {w v : World} → Step ext w v → Call P
  call (print env req) = print_begins env req
  call (send env req h used) = send_begins env req h
  call (finish head req h handled now r) = document_finishes head req h handled now
  call (create env head req) = job_created env head req
  call (cancel req h used) = job_canceled req h
  call (evict m fewer) = cache_shrinks m

  -- The calls of a run, in their order.
  abbrev pub calls : {w v : World} → Reach ext w v → List (Call P)
  calls here = []
  calls (next r st) = calls r ++ call st ∷ []

module _ {P : Type 0} (ext : External P) where
  -- The run that makes some calls and no other.
  abbrev pub Run : World → World → List (Call P) → Type 0
  Run w v cs = (run : Reach ext w v) × (calls run ≡ cs)

  pub next_call :
      {w u v : World} {cs : List (Call P)}
      → Run w u cs
      → (st : Step ext u v) → Run w v (cs ++ call st ∷ [])
  next_call (run, e) st = (next run st, ap (λ cs. cs ++ call st ∷ []) e)

  pub Reach-append : {w u v : World} → Reach ext w u → Reach ext u v → Reach ext w v
  Reach-append r here = r
  Reach-append r (next q st) = next (Reach-append r q) st

  calls-Reach-append :
      {w u v : World} (r : Reach ext w u) (q : Reach ext u v)
      → calls (Reach-append r q) ≡ calls r ++ calls q
  unfolding Reach-append
  calls-Reach-append r here = sym (append-nil (calls r))
  calls-Reach-append r (next q st) =
      ap (λ cs. cs ++ call st ∷ []) (calls-Reach-append r q)
      ∙ append_assoc (calls r) (calls q) (call st ∷ [])

  pub Run-append :
      {w u v : World} {cs ds : List (Call P)} → Run w u cs → Run u v ds → Run w v (cs ++ ds)
  Run-append (r, e) (q, d) = (Reach-append r q, calls-Reach-append r q ∙ rw (e, d) refl)

  module _ (env : Ambient P) (head : ReqParts) (req : IppRequestResponse P) where
    -- After the call of the handler, if there is a document.
    abbrev pub handled_calls : ℕ → Result (SimpleIppDocument P) → List (Call P)
    handled_calls h (err e) = []
    handled_calls h (ok document) =
        document_finishes head req h (env.handle_document document) (env.uptime 1) ∷ []

    abbrev pub sent_calls : SimpleIppService → Option ℕ → List (Call P)
    sent_calls s none = []
    sent_calls s (some h) =
        send_begins env req h
        ∷ (if same_state (s.cells h).state canceled
            then []
            else handled_calls h (asked_document ext s (s.cells h).attributes req))

    abbrev pub cancel_calls : Option ℕ → List (Call P)
    cancel_calls none = []
    cancel_calls (some h) = job_canceled req h ∷ []

    abbrev pub operation_calls : SimpleIppService → Option Operation → List (Call P)
    operation_calls s none = []
    operation_calls s (some Enums.print_job) =
        print_begins env req
        ∷ handled_calls s.allocated (asked_document ext s (asked_attributes ext s req) req)
    operation_calls s (some Enums.create_job) = job_created env head req ∷ []
    operation_calls s (some Enums.send_document) = sent_calls s (named_job ext s req)
    operation_calls s (some Enums.cancel_job) = cancel_calls (named_job ext s req)
    operation_calls s (some _) = []

    -- The calls of a request to the service as it is: those of its operation, if its version is
    -- known. Only printing, creating, sending and canceling call anything.
    abbrev pub request_calls : SimpleIppService → List (Call P)
    request_calls s =
        if leb req.header.version ext.v2_0
        then operation_calls s (ext.operation_from_u16 req.header.operation_or_status)
        else []
