-- ===== src/Service/Simple/Times/Jobs.antt =====
-- The writes to a job in service/simple.rs keep its times in order.
use ippper_rs.Prelude.{ℕ, ℤ, String, ◌≤◌, ◌≡◌, sym, subst, ◌⊎◌, none, some, arith, inl, inr}
use ippper_rs.Ipp.Enums.{JobState, processing, canceled}
use ippper_rs.Ipp.External.{External}
use ippper_rs.Error.{Result, ok, err}
use ippper_rs.Service.Simple.Info.{JobInfo, Duration, SimpleIppJobAttributes}
use ippper_rs.Service.Simple.Documents.{Ambient, finished, mark_processing, new_job}
use ippper_rs.Service.Simple.Times.{instant, EndsLast, IsOrdered}

pub later :
    (before now : ℕ) (job : JobInfo) → before ≤ now → IsOrdered before job → IsOrdered now job
later before now job le o = record {
  created = omega (arith, o.created);
  processed = ground (arith, o.processed);
  over = ground (arith, o.over);
  has_processed = o.has_processed;
  processed_later = o.processed_later;
  over_later = o.over_later;
  ended = o.ended;
}

pub canceled-IsOrdered :
    (before now : ℕ) (job : JobInfo)
    → before ≤ now
    → IsOrdered before job
    → IsOrdered now (record job { state = canceled; state_message = "Canceled" })
canceled-IsOrdered before now job le o =
    let l = later before now job le o in
    record {
      created = l.created;
      processed = l.processed;
      over = l.over;
      has_processed = l.has_processed;
      processed_later = l.processed_later;
      over_later = l.over_later;
      ended = tt;
    }

module _ {P : Type 0} (ext : External P) where
  pub new_job-IsOrdered :
      (now : ℕ) (env : Ambient P) (state : JobState) (message : String)
      (attrs : SimpleIppJobAttributes) (k : ℤ)
      → EndsLast state (some (env.uptime 0)) none
      → instant (env.uptime 0) ≤ now
      → IsOrdered now (new_job ext env state message attrs k)
  unfolding new_job
  new_job-IsOrdered now env state message attrs k ends le = record {
    created = le;
    processed = le;
    over = tt;
    has_processed = λ e. cc;
    processed_later = omega arith;
    over_later = tt;
    ended = ends;
  }

  pub finished-IsOrdered :
      (before now : ℕ) (handled : Result (Unit {0})) (t : Duration) (job : JobInfo)
      → before ≤ instant t
      → instant t ≤ now
      → IsOrdered before job
      → IsOrdered now (finished ext handled t job)
  unfolding finished
  finished-IsOrdered before now (ok _) t job from to o = record {
    created = omega (arith, o.created);
    processed = ground (arith, o.processed);
    over = to;
    has_processed = o.has_processed;
    processed_later = o.processed_later;
    over_later = omega (arith, o.created);
    ended = ground (arith, o.processed, o.has_processed);
  }
  finished-IsOrdered before now (err e) t job from to o = record {
    created = omega (arith, o.created);
    processed = ground (arith, o.processed);
    over = to;
    has_processed = o.has_processed;
    processed_later = o.processed_later;
    over_later = omega (arith, o.created);
    ended = ground (arith, o.processed, o.has_processed);
  }

  restart : Duration → JobInfo → JobInfo
  restart t job = record job {
    state = processing;
    state_message = "Processing";
    processing_at = some t;
  }

  mark_processing-restart :
      (t : Duration) (job job' : JobInfo)
      → mark_processing ext t job ≡ ok job'
      → (job' ≡ job) ⊎ (job' ≡ restart t job)
  unfolding mark_processing restart
  mark_processing-restart t job job' e = ground arith

  restart-IsOrdered :
      (before now : ℕ) (t : Duration) (job : JobInfo)
      → before ≤ instant t
      → instant t ≤ now
      → IsOrdered before job
      → IsOrdered now (restart t job)
  unfolding restart
  restart-IsOrdered before now t job from to o = record {
    created = omega (arith, o.created);
    processed = to;
    over = ground (arith, o.over);
    has_processed = λ e. cc;
    processed_later = omega (arith, o.created);
    over_later = o.over_later;
    ended = tt;
  }

  pub mark_processing-IsOrdered :
      (before now : ℕ) (t : Duration) (job job' : JobInfo)
      → before ≤ instant t
      → instant t ≤ now
      → mark_processing ext t job ≡ ok job'
      → IsOrdered before job
      → IsOrdered now job'
  mark_processing-IsOrdered before now t job job' from to e o =
      elim (mark_processing-restart t job job' e) [
        | inl same ↦ subst (IsOrdered now) (sym same) (later before now job (omega arith) o)
        | inr again ↦
            subst (IsOrdered now) (sym again) (restart-IsOrdered before now t job from to o)
      ]
