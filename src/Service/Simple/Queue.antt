-- ===== src/Service/Simple/Queue.antt =====
-- What the simple service promises about its jobs, without ids, attributes, clocks and caches: a
-- queue of jobs, each in a state, of which some are with the handler. What happens to it is a
-- function of the events, in the order of the critical sections of service/simple.rs.
pub mod States
pub mod Refines
use ippper_rs.Prelude.{
  ℕ, Bool, true, false, List, [], ◌∷◌, ◌++◌, Option, none, some, length, get_elem?, set, eqb, ◌||◌,
  if◌then◌else◌,
}
use ippper_rs.Ipp.Enums.{JobState, pending, processing, canceled, aborted, completed, same_state}
use ippper_rs.Ipp.External.{External}
use ippper_rs.Error.{Result, ok, err}
use ippper_rs.Service.Simple.Info.{JobInfo}
use ippper_rs.Service.Simple.State.{SimpleIppService}
use ippper_rs.Service.Simple.Accepted.{asked_attributes, asked_document}
use ippper_rs.Service.Simple.World.{
  World, Step, print, send, finish, create, cancel, evict, Reach, here, next, leave,
}
use ippper_rs.Service.Simple.Queue.States.{states}

-- The jobs in the order in which they were made, and the positions of those with the handler, once
-- for each document.
pub record Queue : Type 0 where
  pub jobs : List JobState
  pub handling : List ℕ

abbrev pub empty_queue : Queue
empty_queue = record { jobs = []; handling = [] }

-- What can happen to the queue. A document is well if the printer supports its format and its
-- compression.
pub data Event : Type 0 where
  -- A new job without a document.
  job_made : Event
  -- A new job with its document.
  job_printed : (well : Bool) → Event
  -- A document for the job at a position.
  document_sent : (well : Bool) (h : ℕ) → Event
  cancel_asked : (h : ℕ) → Event
  -- The handler is done with a document, with success or without.
  document_handled : (success : Bool) (h : ℕ) → Event
  cache_shrunk : Event

-- With the document if it is well.
abbrev pub hand_over : Bool → ℕ → List ℕ → List ℕ
hand_over well h handling = if well then h ∷ handling else handling

abbrev pub is_handling : ℕ → List ℕ → Bool
is_handling h [] = false
is_handling h (i ∷ handling) = eqb h i || is_handling h handling

-- A document for a job in some state: a canceled job takes none.
abbrev pub take_document : Bool → ℕ → Option JobState → Queue → Queue
take_document well h none q = q
take_document well h (some state) q =
    if same_state state canceled
    then q
    else record { jobs = set q.jobs h processing; handling = hand_over well h q.handling }

-- Only a pending job is canceled.
abbrev pub cancel_waiting : ℕ → Option JobState → Queue → Queue
cancel_waiting h none q = q
cancel_waiting h (some state) q =
    if same_state state pending then record q { jobs = set q.jobs h canceled } else q

abbrev pub happen : Event → Queue → Queue
happen job_made q = record q { jobs = q.jobs ++ pending ∷ [] }
happen (job_printed well) q = record {
  jobs = q.jobs ++ processing ∷ [];
  handling = hand_over well (length q.jobs) q.handling;
}
happen (document_sent well h) q = take_document well h (get_elem? q.jobs h) q
happen (cancel_asked h) q = cancel_waiting h (get_elem? q.jobs h) q
happen (document_handled success h) q =
    if is_handling h q.handling
    then record {
      jobs = set q.jobs h (if success then completed else aborted);
      handling = leave h q.handling;
    }
    else q
happen cache_shrunk q = q

abbrev pub is_ok : {A : Type 0} → Result A → Bool
is_ok (ok _) = true
is_ok (err _) = false

module _ {P : Type 0} {ext : External P} where
  -- The event that a step is to the queue. Whether a document is well is told by looking up its
  -- format and its compression in the request.
  abbrev pub event : {w v : World} → Step ext w v → Event
  event {w} (print env req) =
      job_printed (is_ok (asked_document ext w.service (asked_attributes ext w.service req) req))
  event {w} (send env req h used) =
      document_sent (is_ok (asked_document ext w.service (w.service.cells h).attributes req)) h
  event (finish head req h handled now r) = document_handled (is_ok handled) h
  event (create env head req) = job_made
  event (cancel req h used) = cancel_asked h
  event (evict m fewer) = cache_shrunk

  -- A queue after the events of a run, in their order.
  abbrev pub queue_after : {w v : World} → Reach ext w v → Queue → Queue
  queue_after here q = q
  queue_after (next r st) q = happen (event st) (queue_after r q)

-- What the queue is to the service.
abbrev pub abstract : World → Queue
abstract w = record { jobs = states w.service.cells w.service.allocated; handling = w.running }
