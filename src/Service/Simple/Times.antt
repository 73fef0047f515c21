-- ===== src/Service/Simple/Times.antt =====
-- The times that service/simple.rs keeps of a job, on a clock that does not go back.
pub mod Jobs
pub mod Steps
use ippper_rs.Prelude.{
  ℕ, ℤ, String, ◌+◌, ◌*◌, ◌<◌, ◌≤◌, ◌≡◌, ◌≢◌, refl, sym, subst, ◌⊎◌, Bool-cases, none, some, Option,
  arith, eqb, eqb_iff, inl, inr,
}
use ippper_rs.Ipp.Enums.{
  JobState, pending, processing, canceled, aborted, completed, same_state, same_state_iff,
}
use ippper_rs.Ipp.Attributes.{IppRequestResponse}
use ippper_rs.Ipp.Http.{ReqParts}
use ippper_rs.Ipp.External.{External, Documented}
use ippper_rs.Error.{Result, ok, err, Result-cases}
use ippper_rs.Service.Simple.Info.{JobInfo, Duration, PrinterInfo, SimpleIppJobAttributes}
use ippper_rs.Service.Simple.State.{SimpleIppService, alloc_job, write_job, new}
use ippper_rs.Service.Simple.Documents.{
  Ambient, print_job_begin, send_document_begin, finish_document, create_job, finished,
  mark_processing, new_job,
}
use ippper_rs.Service.Simple.Handlers.{cancel_found}
use ippper_rs.Service.Simple.World.{World, Step, print, send, finish, create, cancel, evict, start}

abbrev pub instant : Duration → ℕ
instant d = d.secs * 1000000000 + d.nanos

-- When a step takes the reading of the clock that it writes, if the last step was at `before` and
-- it is over at `now`. A new job gets a reading from before it was allocated, of any age; the other
-- readings are taken while the job is locked.
abbrev pub InTime : {P : Type 0} {ext : External P} {w v : World} → ℕ → ℕ → Step ext w v → Type 0
InTime before now (print env req) = instant (env.uptime 0) ≤ now
InTime before now (create env head req) = instant (env.uptime 0) ≤ now
InTime before now (send env req h used) =
    (before ≤ instant (env.uptime 0)) × (instant (env.uptime 0) ≤ now)
InTime before now (finish head req h handled t r) = (before ≤ instant t) × (instant t ≤ now)
InTime before now (cancel req h used) = Unit
InTime before now (evict m fewer) = Unit

module _ {P : Type 0} (ext : External P) where
  -- The worlds that are reached from a new service, with the time of the last step.
  pub data TimedReach (info : PrinterInfo) : World → ℕ → Type 0 where
    begin : (now : ℕ) → TimedReach info (start info) now
    next :
        {w v : World} {before : ℕ} (now : ℕ)
        → TimedReach info w before
        → before ≤ now
        → (st : Step ext w v) → InTime before now st
        → TimedReach info v now

abbrev pub Past : ℕ → Option Duration → Type 0
Past now none = Unit
Past now (some t) = instant t ≤ now

abbrev pub Follows : Duration → Option Duration → Type 0
Follows t none = Unit
Follows t (some u) = instant t ≤ instant u

abbrev pub EndsLast : JobState → Option Duration → Option Duration → Type 0
EndsLast completed (some t) (some u) = instant t ≤ instant u
EndsLast completed _ _ = ⊥
EndsLast aborted (some t) (some u) = instant t ≤ instant u
EndsLast aborted _ _ = ⊥
EndsLast _ _ _ = Unit

-- The times of a job at some time.
pub record IsOrdered (now : ℕ) (job : JobInfo) : Type 0 where
  pub created : instant job.created_at ≤ now
  pub processed : Past now job.processing_at
  pub over : Past now job.completed_at
  pub has_processed : job.processing_at ≢ none
  pub processed_later : Follows job.created_at job.processing_at
  pub over_later : Follows job.created_at job.completed_at
  pub ended : EndsLast job.state job.processing_at job.completed_at
