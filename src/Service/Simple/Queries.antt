-- ===== src/Service/Simple/Queries.antt =====
-- What service/simple.rs says of a job to a client that asks for its attributes.
use ippper_rs.Prelude.{
  ℕ, String, ◌<◌, ◌≡◌, refl, ap, subst, ◌∙◌, List, [], ◌∷◌, Option, none, some, map_option,
}
use ippper_rs.Ipp.Enums.{JobState, job_attributes, canceled}
use ippper_rs.Ipp.Value.{IppValue, integer, enum, text_without_language}
use ippper_rs.Ipp.HashMap.{get, insert, without, extend}
use ippper_rs.Ipp.Attributes.{IppAttribute, IppRequestResponse}
use ippper_rs.Ipp.Http.{ReqParts}
use ippper_rs.Ipp.External.{External, Documented}
use ippper_rs.Error.{ok, err, IppResult}
use ippper_rs.Model.{Resolution}
use ippper_rs.Service.Simple.Info.{JobInfo, Duration, PrinterInfo}
use ippper_rs.Service.Simple.Render.{push, push_all, is_requested}
use ippper_rs.Service.Simple.JobAttributes.{job_attributes_for}
use ippper_rs.Service.Simple.State.{SimpleIppService, find_job}
use ippper_rs.Service.Simple.Documents.{Ambient}
use ippper_rs.Service.Simple.Handlers.{get_job_attributes}
use ippper_rs.Service.Simple.World.{World, Reach, start}
use ippper_rs.Service.Simple.Steps.{reachable-IsConsistent}
use ippper_rs.Service.Simple.Life.{canceled_for_good}
use ippper_rs.Service.Simple.Asked.{asked_for, said, filed, said-answer_with, requested-all}

module _ {P : Type 0} {ext : External P} (doc : Documented ext) (s : SimpleIppService)
    (head : ReqParts) (uptime : Duration) where
  -- All the attributes of a job.
  abbrev whole : JobInfo → List IppAttribute
  whole job = job_attributes_for ext s.host s.basepath head job ("all" ∷ []) uptime

  -- What attributes say under a name.
  abbrev under : List IppAttribute → String → Option IppValue
  under attrs n = map_option (λ a. a.value) (get (filed attrs) n)

  -- The id, the state and its message.
  abbrev Describes : JobInfo → List IppAttribute → Type 0
  Describes job attrs =
      (under attrs ext.names.job_id ≡ some (integer job.id))
      × (under attrs ext.names.job_state ≡ some (enum (ext.job_state_code job.state)))
      × (under attrs "job-state-message" ≡ some (text_without_language job.state_message))

  whole-Describes : (job : JobInfo) → Describes job (whole job)
  unfolding job_attributes_for push_all push is_requested get insert without extend
  whole-Describes job = by_resolution job.attributes.printer_resolution refl
    where
      by_resolution :
          (r : Option Resolution)
          → job.attributes.printer_resolution ≡ r
          → Describes job (whole job)
      by_resolution none e =
          rw
            (
              e, doc.job_uri_name, doc.job_name_name, doc.job_id_name, doc.job_state_name,
              doc.job_state_reasons_name,
            )
            (refl, refl, refl)
      by_resolution (some r) e =
          rw
            (
              e, doc.job_uri_name, doc.job_name_name, doc.job_id_name, doc.job_state_name,
              doc.job_state_reasons_name,
            )
            (refl, refl, refl)

module _ {P : Type 0} {ext : External P} (doc : Documented ext) where
  -- An answer that gives the id, the state and the message of a job.
  abbrev pub Tells : JobInfo → IppResult P → Type 0
  Tells job (ok resp) =
      (said doc job_attributes resp ext.names.job_id ≡ some (integer job.id))
      × (said doc job_attributes resp ext.names.job_state
          ≡ some (enum (ext.job_state_code job.state)))
      × (said doc job_attributes resp "job-state-message"
          ≡ some (text_without_language job.state_message))
  Tells job (err e) = ⊥

  module _ (env : Ambient P) (head : ReqParts) (req : IppRequestResponse P)
      (all : asked_for doc req ≡ none) where
    get_job_attributes-Tells :
        (s : SimpleIppService) (h : ℕ)
        → find_job ext s req.attributes ≡ ok h
        → Tells (s.cells h) (get_job_attributes ext env head req s).0
    unfolding get_job_attributes
    get_job_attributes-Tells s h found =
        let (id, state, message) = whole-Describes doc s head (env.uptime 0) (s.cells h) in
        let attrs = whole doc s head (env.uptime 0) (s.cells h) in
        let says = said-answer_with doc job_attributes refl refl refl req attrs in
        rw (found, get_job_attributes, requested-all doc req all)
          (
            says ext.names.job_id ∙ id,
            says ext.names.job_state ∙ state,
            says "job-state-message" ∙ message,
          )

    -- Once a job is canceled, in a service reached from a new one, every later answer to
    -- `get_job_attributes` about it that asks for no particular attributes gives its id, the state
    -- `canceled` and the message that it had when it was canceled, whatever requests have run since,
    -- as long as the cache finds the job at all.
    pub canceled_job-Tells :
        (info : PrinterInfo) (w v : World) (h : ℕ)
        → Reach ext (start info) w
        → h < w.service.allocated
        → (w.service.cells h).state ≡ canceled
        → Reach ext w v
        → find_job ext v.service req.attributes ≡ ok h
        → Tells
            (record (w.service.cells h) { state = canceled })
            (get_job_attributes ext env head req v.service).0
    canceled_job-Tells info w v h reached used gone later found =
        let (_, same) =
          canceled_for_good doc (reachable-IsConsistent doc info w reached) h used gone later in
        subst (λ j. Tells j (get_job_attributes ext env head req v.service).0)
          (same ∙ ap (λ (state : JobState). record (w.service.cells h) { state = state }) gone)
          (get_job_attributes-Tells v.service h found)
