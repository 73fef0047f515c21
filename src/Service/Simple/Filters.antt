-- ===== src/Service/Simple/Filters.antt =====
-- The filters of `get_jobs` in service/simple.rs and model/mod.rs, by a table of the states that
-- each of them stands for.
use ippper_rs.Prelude.{
  ℕ, ℤ, if◌then◌else◌, String, ◌≡◌, refl, Bool, false, List, [], ◌∷◌, Option, none, some, arith,
  ◌||◌,
}
use ippper_rs.Ipp.Enums.{
  JobState, pending, pending_held, processing, processing_stopped, canceled, aborted, completed,
  same_state,
}
use ippper_rs.Ipp.HashMap.{HashMap, get}
use ippper_rs.Model.{WhichJob, match_state, Converted, converted, rejected}
use ippper_rs.Service.Simple.Info.{JobInfo}
use ippper_rs.Service.Simple.Listing.{matching}
use ippper_rs.Service.Simple.Handlers.{parse_which_jobs}
use ippper_rs.Service.Simple.Refusals.{==_comm}

abbrev waiting : List JobState
waiting = pending ∷ pending_held ∷ processing ∷ processing_stopped ∷ []

abbrev ended : List JobState
ended = canceled ∷ aborted ∷ completed ∷ []

-- The values of `which-jobs`, with the states of the jobs that each of them asks for.
abbrev filters : HashMap (List JobState)
filters =
    ("completed", ended)
    ∷ ("not-completed", waiting)
    ∷ ("aborted", aborted ∷ [])
    ∷ ("all", pending ∷ pending_held ∷ processing ∷ processing_stopped ∷ ended)
    ∷ ("canceled", canceled ∷ [])
    ∷ ("pending", pending ∷ [])
    ∷ ("pending-held", pending_held ∷ [])
    ∷ ("processing", processing ∷ [])
    ∷ ("processing-stopped", processing_stopped ∷ [])
    ∷ []

-- The states that a request asks for: without a filter, those of jobs that have not ended.
abbrev pub asked_states : Option String → Option (List JobState)
asked_states none = some waiting
asked_states (some text) = get filters text

abbrev pub has_state : List JobState → JobState → Bool
has_state [] state = false
has_state (s ∷ states) state = same_state state s || has_state states state

abbrev pub which_states : WhichJob → List JobState
which_states WhichJob.not_completed = waiting
which_states WhichJob.completed = ended
which_states WhichJob.all = pending ∷ pending_held ∷ processing ∷ processing_stopped ∷ ended
which_states WhichJob.canceled = canceled ∷ []
which_states WhichJob.pending = pending ∷ []
which_states WhichJob.pending_held = pending_held ∷ []
which_states WhichJob.processing = processing ∷ []
which_states WhichJob.processing_stopped = processing_stopped ∷ []
which_states WhichJob.aborted = aborted ∷ []

match_state-has_state :
    (which : WhichJob) (state : JobState)
    → match_state which state ≡ has_state (which_states which) state
unfolding match_state
match_state-has_state which state = ground arith

-- What the filter of a request stands for.
abbrev pub Stands : Option String → Converted WhichJob String → Type 0
Stands asked (converted which) = asked_states asked ≡ some (which_states which)
Stands asked (rejected text) = (asked ≡ some text) × (asked_states asked ≡ none)

pub parse_which_jobs-Stands : (asked : Option String) → Stands asked (parse_which_jobs asked)
unfolding parse_which_jobs get
parse_which_jobs-Stands none = refl
parse_which_jobs-Stands (some t) = ground (
  arith,
  ==_comm t "completed",
  ==_comm t "not-completed",
  ==_comm t "aborted",
  ==_comm t "all",
  ==_comm t "canceled",
  ==_comm t "pending",
  ==_comm t "pending-held",
  ==_comm t "processing",
  ==_comm t "processing-stopped",
)

-- The handles of the jobs in one of some states.
abbrev pub selected : (ℕ → JobInfo) → List JobState → List (ℤ × ℕ) → List ℕ
selected cells states [] = []
selected cells states ((k, h) ∷ rest) =
    let later = selected cells states rest in
    if has_state states (cells h).state then h ∷ later else later

pub matching-selected :
    (cells : ℕ → JobInfo) (which : WhichJob) (entries : List (ℤ × ℕ))
    → matching cells which entries ≡ selected cells (which_states which) entries
matching-selected cells which [] = refl
matching-selected cells which ((k, h) ∷ rest) =
    rw (match_state-has_state which (cells h).state, matching-selected cells which rest) refl
