-- ===== src/Service/Simple/Consistent.antt =====
-- The invariant of the simple service while requests are at work on it, and that the two ways to
-- write a job keep it.
use ippper_rs.Prelude.{
  ℕ, ℤ, ◌+◌, ◌<◌, ◌≡◌, ◌≢◌, inl, inr, Option, none, some, List, [], ◌∷◌, arith, to_i32,
  wrapping_inc-to_i32,
}
use ippper_rs.Ipp.Enums.{JobState, pending, processing, canceled, aborted, completed}
use ippper_rs.Ipp.External.{External, Documented}
use ippper_rs.Error.{Result, ok, err}
use ippper_rs.Service.Simple.Info.{JobInfo, Duration}
use ippper_rs.Service.Simple.State.{SimpleIppService, alloc_job, write_job}
use ippper_rs.Service.Simple.World.{IsRunning, enter, leave}

-- A state in which a document of the job has been accepted.
abbrev pub IsStarted : JobState → Type 0
IsStarted processing = Unit
IsStarted aborted = Unit
IsStarted completed = Unit
IsStarted _ = ⊥

-- The states that jobs are in, and the time of completion in each of them.
abbrev pub Lifecycle : JobState → Option Duration → Type 0
Lifecycle pending t = t ≡ none
Lifecycle canceled t = t ≡ none
Lifecycle processing t = Unit
Lifecycle aborted t = t ≢ none
Lifecycle completed t = t ≢ none
Lifecycle _ t = ⊥

pub IsRunning-leave :
    (h i : ℕ) (running : List ℕ) → IsRunning i (leave h running) → IsRunning i running
IsRunning-leave h i [] r = r
IsRunning-leave h i (j ∷ running) r = ground (arith, IsRunning-leave h i running)

module _ {P : Type 0} (ext : External P) where
  pub record IsConsistent (s : SimpleIppService) (running : List ℕ) : Type 0 where
    -- the next id, and the id of each job
    pub counter : s.job_id ≡ to_i32 (1000 + s.allocated)
    pub ids : (h : ℕ) → h < s.allocated → (s.cells h).id ≡ to_i32 (1000 + h)
    -- the snapshot finds a job by its id
    pub found :
        (k : ℤ) (h : ℕ)
        → ext.cache_get s.job_snapshot k ≡ some h
        → (h < s.allocated) × ((s.cells h).id ≡ k)
    -- a job whose document is with the handler is neither pending nor canceled
    pub started : (h : ℕ) → IsRunning h running → (h < s.allocated) × IsStarted (s.cells h).state
    pub lifecycle : (h : ℕ) → h < s.allocated → Lifecycle (s.cells h).state (s.cells h).completed_at

  module _ {s : SimpleIppService} {running : List ℕ} (c : IsConsistent s running) where
    -- A job is written over: its id stays, and a started job stays started.
    pub write_job-IsConsistent :
        (h : ℕ) (job : JobInfo)
        → h < s.allocated
        → job.id ≡ (s.cells h).id
        → Lifecycle job.state job.completed_at
        → (IsStarted (s.cells h).state → IsStarted job.state)
        → IsConsistent (write_job h job s) running
    write_job-IsConsistent h job used same_id life keep = record {
      counter = c.counter;
      ids = λ i lt. ground (arith, c.ids i lt);
      found = λ k i e. ground (arith, c.found k i e);
      started = λ i r. ground (arith, c.started i r);
      lifecycle = λ i lt. ground (arith, c.lifecycle i lt);
    }

    module _ (doc : Documented ext) (init : ℤ → JobInfo) (same_id : (k : ℤ) → (init k).id ≡ k)
        (life : Lifecycle (init s.job_id).state (init s.job_id).completed_at) where
      alloc_job-found :
          (k : ℤ) (h : ℕ)
          → ext.cache_get (alloc_job ext init s).1.job_snapshot k ≡ some h
          → (h < s.allocated + 1) × (((alloc_job ext init s).1.cells h).id ≡ k)
      unfolding alloc_job
      alloc_job-found k h e =
          elim (doc.cache_get-insert s.job_snapshot s.job_id k s.allocated h e) [
            | inl (new_key, new_cell) ↦ ground (arith, same_id s.job_id)
            | inr old ↦ ground (arith, c.found k h old)
          ]

      -- A job is added.
      pub alloc_job-IsConsistent : IsConsistent (alloc_job ext init s).1 running
      unfolding alloc_job
      alloc_job-IsConsistent = record {
        counter = ground (arith, c.counter, wrapping_inc-to_i32 (1000 + s.allocated));
        ids = λ i lt. ground (arith, c.ids i, same_id s.job_id, c.counter);
        found = alloc_job-found;
        started = λ i r. ground (arith, c.started i r);
        lifecycle = λ i lt. ground (arith, c.lifecycle i, life);
      }

    -- A request with a started job goes to the handler.
    pub enter-IsConsistent :
        (h : ℕ) → h < s.allocated → IsStarted (s.cells h).state → IsConsistent s (h ∷ running)
    enter-IsConsistent h used go = record {
      counter = c.counter;
      ids = c.ids;
      found = c.found;
      started = λ i r. elim r [ inl same ↦ ground arith | inr old ↦ c.started i old ];
      lifecycle = c.lifecycle;
    }

    pub enter_result-IsConsistent :
        {A : Type 0} (h : ℕ) (r : Result A)
        → h < s.allocated
        → IsStarted (s.cells h).state
        → IsConsistent s (enter h r running)
    enter_result-IsConsistent h (ok a) used go = enter-IsConsistent h used go
    enter_result-IsConsistent h (err e) used go = c

    pub leave-IsConsistent : (h : ℕ) → IsConsistent s (leave h running)
    leave-IsConsistent h = record {
      counter = c.counter;
      ids = c.ids;
      found = c.found;
      started = λ i r. c.started i (IsRunning-leave h i running r);
      lifecycle = c.lifecycle;
    }
