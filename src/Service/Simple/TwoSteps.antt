-- ===== src/Service/Simple/TwoSteps.antt =====
-- The two ways of service/simple.rs to print a document: `print_job`, and `create_job` followed by
-- `send_document`.
use ippper_rs.Prelude.{
  ℕ, ℤ, ◌≡◌, inl, inr, refl, sym, ap, subst, ◌∙◌, concat, some, arith, and_then,
}
use ippper_rs.Ipp.Enums.{pending, operation_attributes}
use ippper_rs.Ipp.Value.{integer}
use ippper_rs.Ipp.Attributes.{IppRequestResponse}
use ippper_rs.Ipp.Http.{ReqParts}
use ippper_rs.Ipp.External.{External, Documented}
use ippper_rs.Error.{Result, ok, err, IppResult, error_text}
use ippper_rs.Utils.{get_ipp_attribute}
use ippper_rs.Service.Simple.Info.{JobInfo, SimpleIppDocument}
use ippper_rs.Service.Simple.State.{SimpleIppService, alloc_job, find_job}
use ippper_rs.Service.Simple.Documents.{
  Ambient, create_job, print_job, send_document, send_to_job, new_job,
}
use ippper_rs.Service.Simple.RequestedDocument.{taken-requested, requested_document}
use ippper_rs.Service.Simple.Accepted.{
  Outcome, Handled, asked_attributes, asked_document, made_job, started_job,
}
use ippper_rs.Service.Simple.Outcomes.{print_job-Outcome}
use ippper_rs.Service.Simple.Outcomes.Send.{send_to_job-Outcome}

-- Two jobs that a client cannot tell apart but by their times and UUIDs.
abbrev pub IsSameJob : JobInfo → JobInfo → Type 0
IsSameJob job job' =
    (job.id ≡ job'.id)
    × (job.attributes ≡ job'.attributes)
    × (job.state ≡ job'.state)
    × (job.state_message ≡ job'.state_message)

module _ {P : Type 0} {ext : External P} (doc : Documented ext) where
  create_job-job :
      (env : Ambient P) (head : ReqParts) (req : IppRequestResponse P) (s : SimpleIppService)
      → let s' = (create_job ext env head req s).1 in
        let job = s'.cells s.allocated in
        (job.id ≡ s.job_id)
        × (job.attributes ≡ asked_attributes ext s req)
        × (job.state ≡ pending)
        × (s'.info ≡ s.info)
        × (s'.job_snapshot ≡ ext.cache_insert s.job_snapshot s.job_id s.allocated)
  unfolding create_job alloc_job new_job
  create_job-job env head req s =
      let same = taken-requested doc s.info req.attributes in
      (ground arith, ground (arith, same), ground arith, refl, refl)

  find_job-named :
      (s : SimpleIppService) (req : IppRequestResponse P) (k : ℤ) (h : ℕ)
      → get_ipp_attribute ext req.attributes operation_attributes ext.names.job_id
        ≡ some (integer k)
      → ext.cache_get s.job_snapshot k ≡ some h
      → find_job ext s req.attributes ≡ ok h
  unfolding find_job
  find_job-named s req k h named kept =
      let found : and_then
            (and_then (get_ipp_attribute ext req.attributes operation_attributes ext.names.job_id)
              ext.as_integer)
            (ext.cache_get s.job_snapshot)
          ≡ some h =
        rw (named, doc.as_integer_lem (integer k), kept) refl in
      rw (found, find_job) refl

  send_document-found :
      (env : Ambient P) (head : ReqParts) (req : IppRequestResponse P) (s : SimpleIppService)
      (h : ℕ)
      → find_job ext s req.attributes ≡ ok h
      → send_document ext env head req s ≡ send_to_job ext env head req h s
  unfolding send_document
  send_document-found env head req s h found = rw (found, send_document) refl

  Handled-same :
      (env env' : Ambient P) (req req' r r' : IppRequestResponse P) (job job' : JobInfo)
      (handled handled' : Result (Unit {0}))
      → handled ≡ handled'
      → Handled ext env req handled r job
      → Handled ext env' req' handled' r' job'
      → (job.state ≡ job'.state) × (job.state_message ≡ job'.state_message)
  Handled-same env env' req req' r r' job job' (ok u) (ok v) same h h' =
      (h.0 ∙ sym h'.0, h.1 ∙ sym h'.1)
  Handled-same env env' req req' r r' job job' (err e) (err e') same h h' =
      let one : e ≡ e' = cc same in
      (h.0 ∙ sym h'.0, h.1 ∙ ap (λ m. concat "Aborted: " (error_text ext m)) one ∙ sym h'.1)
  Handled-same env env' req req' r r' job job' (ok u) (err e) same h h' = absurd (cc same)
  Handled-same env env' req req' r r' job job' (err e) (ok u) same h h' = absurd (cc same)

  -- What becomes of one document of a job with the same id and attributes is the same.
  Outcome-IsSameJob :
      (env env' : Ambient P) (req req' : IppRequestResponse P) (document : SimpleIppDocument P)
      (result result' : IppResult P) (accepted accepted' job job' : JobInfo)
      → env.handle_document document ≡ env'.handle_document document
      → accepted.id ≡ accepted'.id
      → accepted.attributes ≡ accepted'.attributes
      → Outcome ext env req (ok document) result accepted job
      → Outcome ext env' req' (ok document) result' accepted' job'
      → IsSameJob job job'
  Outcome-IsSameJob env env' req req' document (err e) result' a a' j j' same id attrs o o' =
      absurd (cc (o.0))
  Outcome-IsSameJob env env' req req' document (ok r) (err e') a a' j j' same id attrs o o' =
      absurd (cc (o'.0))
  Outcome-IsSameJob env env' req req' document (ok r) (ok r') a a' j j' same id attrs
        (d, asked, kept, handled) (d', asked', kept', handled') =
      let this : d ≡ document = cc asked in
      let that : document ≡ d' = cc asked' in
      let (state, message) =
        Handled-same env env' req req' r r' j j' _ _
          (ap env.handle_document this ∙ same ∙ ap env'.handle_document that) handled handled' in
      (kept.0 ∙ id ∙ sym kept'.0, kept.1 ∙ attrs ∙ sym kept'.1, state, message)

  started_job-Keeps :
      (env : Ambient P) (job : JobInfo)
      → ((started_job env job).id ≡ job.id) × ((started_job env job).attributes ≡ job.attributes)
  started_job-Keeps env job = (ground arith, ground arith)

  -- A document that a client sends to a new job, made by `create_job`, meets the same as one sent
  -- with `print_job`: the job has the same id, attributes, state and message, whether the handler
  -- succeeds or fails, if the two ways ask for the same job attributes and the same document, the
  -- handler answers the same, the second request names the id of the job that the first has made,
  -- and the cache still has that job.
  pub create_send-IsSameJob :
      (env₁ env₂ env : Ambient P) (head₁ head₂ head : ReqParts)
      (creating sending printing : IppRequestResponse P) (s : SimpleIppService)
      (document : SimpleIppDocument P)
      → let attrs = asked_attributes ext s printing in
        asked_attributes ext s creating ≡ attrs
        → asked_document ext s attrs printing ≡ ok document
        → asked_document ext s attrs sending ≡ ok document
        → env₂.handle_document document ≡ env.handle_document document
        → get_ipp_attribute ext sending.attributes operation_attributes ext.names.job_id
          ≡ some (integer s.job_id)
        → ext.cache_get (ext.cache_insert s.job_snapshot s.job_id s.allocated) s.job_id
          ≡ some s.allocated
        → let s₁ = (create_job ext env₁ head₁ creating s).1 in
          IsSameJob
            ((send_document ext env₂ head₂ sending s₁).1.cells s.allocated)
            ((print_job ext env head printing s).1.cells s.allocated)
  create_send-IsSameJob env₁ env₂ env head₁ head₂ head creating sending printing s document
        same_attrs asked asked' same named kept =
      let s₁ = (create_job ext env₁ head₁ creating s).1 in
      let h = s.allocated in
      let attrs = asked_attributes ext s printing in
      let (id, made, waits, info, snapshot) = create_job-job env₁ head₁ creating s in
      let found =
        find_job-named s₁ sending s.job_id h named
          (ap (λ m. ext.cache_get m s.job_id) snapshot ∙ kept) in
      let (more', spares', printed) = print_job-Outcome ext doc printing env head s in
      let ready : asked_document ext s₁ (s₁.cells h).attributes sending ≡ ok document =
        ap (λ a. asked_document ext s₁ a sending) (made ∙ same_attrs)
        ∙ ap (λ i. requested_document ext i attrs sending.attributes sending.payload) info
        ∙ asked' in
      let (result, s₂) = send_to_job ext env₂ head₂ sending h s₁ in
      let (result', t) = print_job ext env head printing s in
      rw (send_document-found env₂ head₂ sending s₁ h found)
        (elim (send_to_job-Outcome ext doc sending env₂ head₂ h s₁) [
          | inl gone ↦ absurd (cc (gone.0, waits))
          | inr (apart, spares, sent) ↦
              let accepted = started_job env₂ (s₁.cells h) in
              let accepted' = made_job ext env s printing in
              let (same_id, keeps) = started_job-Keeps env₂ (s₁.cells h) in
              Outcome-IsSameJob env₂ env sending printing document result result' accepted accepted'
                (s₂.cells h) (t.cells h) same (same_id ∙ id) (keeps ∙ made ∙ same_attrs)
                (subst (λ d. Outcome ext env₂ sending d result accepted (s₂.cells h)) ready sent)
                (subst (λ d. Outcome ext env printing d result' accepted' (t.cells h)) asked
                  printed)
        ])
