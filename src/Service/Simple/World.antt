-- ===== src/Service/Simple/World.antt =====
-- Requests at work on one simple service, as an interleaving of the critical sections of
-- service/simple.rs. Between two of them any other request may run. What a request has found or
-- allocated, a handle, stays good when the snapshot drops the job.
use ippper_rs.Prelude.{ℕ, ℤ, ◌<◌, ◌≡◌, ◌⊎◌, some, List, [], ◌∷◌, eqb, if◌then◌else◌}
use ippper_rs.Ipp.Attributes.{IppRequestResponse}
use ippper_rs.Ipp.Http.{ReqParts}
use ippper_rs.Ipp.External.{External, Snapshot}
use ippper_rs.Error.{Result, ok, err}
use ippper_rs.Service.Simple.Info.{PrinterInfo, Duration}
use ippper_rs.Service.Simple.State.{SimpleIppService, new}
use ippper_rs.Service.Simple.Documents.{
  Ambient, print_job_begin, send_document_begin, finish_document, create_job,
}
use ippper_rs.Service.Simple.Handlers.{cancel_found}

-- The service, and the handles of the jobs whose documents are with the handler, one for each
-- request that waits for it.
pub record World : Type 0 where
  pub service : SimpleIppService
  pub running : List ℕ

-- A request that has a document goes to the handler; one that has an error is over.
abbrev pub enter : {A : Type 0} → ℕ → Result A → List ℕ → List ℕ
enter h (ok _) running = h ∷ running
enter h (err _) running = running

abbrev pub flat : {A : Type 0} → Result (Result A) → Result A
flat (ok r) = r
flat (err e) = err e

-- One request for the handle leaves.
abbrev pub leave : ℕ → List ℕ → List ℕ
leave h [] = []
leave h (i ∷ running) = let rest = leave h running in if eqb i h then running else i ∷ rest

abbrev pub IsRunning : ℕ → List ℕ → Type 0
IsRunning h [] = ⊥
IsRunning h (i ∷ running) = (h ≡ i) ⊎ IsRunning h running

module _ {P : Type 0} (ext : External P) where
  pub data Step (w : World) : World → Type 0 where
    print :
        (env : Ambient P) (req : IppRequestResponse P)
        → Step w (record {
          service = (print_job_begin ext env req w.service).1;
          running =
              let begun = (print_job_begin ext env req w.service).0 in
              enter begun.0 begun.1 w.running;
        })
    send :
        (env : Ambient P) (req : IppRequestResponse P) (h : ℕ)
        → h < w.service.allocated
        → Step w (record {
          service = (send_document_begin ext env req h w.service).1;
          running = enter h (flat (send_document_begin ext env req h w.service).0) w.running;
        })
    finish :
        (head : ReqParts) (req : IppRequestResponse P) (h : ℕ) (handled : Result (Unit {0}))
        (now : Duration)
        → IsRunning h w.running
        → Step w (record {
          service = (finish_document ext head req h handled now w.service).1;
          running = leave h w.running;
        })
    create :
        (env : Ambient P) (head : ReqParts) (req : IppRequestResponse P)
        → Step w (record w { service = (create_job ext env head req w.service).1 })
    cancel :
        (req : IppRequestResponse P) (h : ℕ)
        → h < w.service.allocated
        → Step w (record w { service = (cancel_found ext req h w.service).1 })
    -- the cache drops jobs that are old or too many
    evict :
        (m : Snapshot)
        → ((k : ℤ) (h : ℕ)
            → ext.cache_get m k ≡ some h
            → ext.cache_get w.service.job_snapshot k ≡ some h)
        → Step w (record w { service = record w.service { job_snapshot = m } })

  pub data Reach (w : World) : World → Type 0 where
    here : Reach w w
    next : {u v : World} → Reach w u → Step u v → Reach w v

abbrev pub start : PrinterInfo → World
start info = record { service = new info; running = [] }
