-- ===== src/Service/Simple/Progress.antt =====
-- That the jobs of service/simple.rs get on: documents that are with the handler can all be finished.
use ippper_rs.Prelude.{
  ℕ, ◌≡◌, ◌≢◌, ◌⊎◌, inl, inr, refl, sym, ap, subst, ◌∙◌, List, [], ◌∷◌, arith, eqb, eqb_iff,
  Bool-cases,
}
use ippper_rs.Ipp.Enums.{JobState, completed, aborted}
use ippper_rs.Ipp.Attributes.{IppRequestResponse}
use ippper_rs.Ipp.Http.{ReqParts}
use ippper_rs.Ipp.External.{External}
use ippper_rs.Error.{Result, ok, err, Result-cases}
use ippper_rs.Service.Simple.Info.{JobInfo, Duration}
use ippper_rs.Service.Simple.State.{SimpleIppService}
use ippper_rs.Service.Simple.Documents.{finish_document, finished}
use ippper_rs.Service.Simple.Sequential.{leave_self}
use ippper_rs.Service.Simple.World.{World, Step, finish, Reach, here, next, IsRunning}

-- The state in which the handler's answer ends a job.
abbrev pub ended_as : Result (Unit {0}) → JobState
ended_as (ok _) = completed
ended_as (err e) = aborted

-- What becomes of a job when all the documents with the handler are finished.
abbrev pub Settled : (ℕ → Result (Unit {0})) → World → ℕ → JobInfo → Type 0
Settled outcome w i job =
    ((¬ IsRunning i w.running) × (job ≡ w.service.cells i))
    ⊎ (IsRunning i w.running × (job.state ≡ ended_as (outcome i)))

prepend :
    {P : Type 0} {ext : External P} {w u v : World} → Step ext w u → Reach ext u v → Reach ext w v
prepend st here = next here st
prepend st (next r last) = next (prepend st r) last

module _ {P : Type 0} (ext : External P) (head : ReqParts) (req : IppRequestResponse P)
    (now : Duration) (outcome : ℕ → Result (Unit {0})) where
  finish-ended :
      (h : ℕ) (s : SimpleIppService)
      → ((finish_document ext head req h (outcome h) now s).1.cells h).state ≡ ended_as (outcome h)
  unfolding finish_document finished
  finish-ended h s = elim (Result-cases (outcome h)) [
    | inl (u, done) ↦ rw (done, finished) (ground arith)
    | inr (e, failed) ↦ rw (failed, finished) (ground arith)
  ]

  finish-other :
      (h i : ℕ) (s : SimpleIppService)
      → i ≢ h
      → (finish_document ext head req h (outcome h) now s).1.cells i ≡ s.cells i
  unfolding finish_document
  finish-other h i s other = ground (arith, eqb_iff i h)

  finish_first :
      (h : ℕ) (running : List ℕ) (s : SimpleIppService)
      → Step ext
          (record { service = s; running = h ∷ running })
          (record {
            service = (finish_document ext head req h (outcome h) now s).1;
            running = running;
          })
  finish_first h running s =
      subst
        (λ left.
          Step ext (record { service = s; running = h ∷ running })
            (record {
              service = (finish_document ext head req h (outcome h) now s).1;
              running = left;
            }))
        (leave_self h running) (finish head req h (outcome h) now (inl refl))

  settle :
      (h i : ℕ) (running : List ℕ) (s : SimpleIppService) (job : JobInfo)
      → Settled outcome
          (record {
            service = (finish_document ext head req h (outcome h) now s).1;
            running = running;
          })
          i
          job
      → Settled outcome (record { service = s; running = h ∷ running }) i job
  settle h i running s job (inr (there, ended)) = inr (inr there, ended)
  settle h i running s job (inl (out, same)) = elim (Bool-cases (eqb i h)) [
    | inl yes_ ↦
        let here_ : i ≡ h = (eqb_iff i h).0 yes_ in
        inr (
          inl here_,
          ap (λ (j : JobInfo). j.state) same
              ∙ subst
                  (λ k.
                    ((finish_document ext head req h (outcome h) now s).1.cells k).state
                    ≡ ended_as (outcome k))
                  (sym here_) (finish-ended h s),
        )
    | inr other ↦
        let apart : i ≢ h = λ e. ground (arith, eqb_iff i h) in
        inl (
          (λ r. elim r [ inl e ↦ apart e | inr there ↦ out there ]),
          same ∙ finish-other h i s apart,
        )
  ]

  -- From any world, reached or not, the documents that are with the handler can be finished one
  -- after the other, whatever the handler's answer for each job: this leads to a world in which no
  -- document is with the handler, every job that had one there is completed or aborted as the answer
  -- says, and every other job is as it was.
  pub finish_all :
      (running : List ℕ) (s : SimpleIppService)
      → (v : World) × Reach ext (record { service = s; running = running }) v
        × (v.running ≡ [])
        × ((i : ℕ)
            → Settled outcome (record { service = s; running = running }) i (v.service.cells i))
  finish_all [] s = (record { service = s; running = [] }, here, refl, λ i. inl ((λ r. r), refl))
  finish_all (h ∷ running) s =
      let s₁ = (finish_document ext head req h (outcome h) now s).1 in
      let (v, rest, done, settled) = finish_all running s₁ in
      (v, prepend (finish_first h running s) rest, done, λ i. settle h i running s _ (settled i))
