-- ===== src/Service/Simple/Reports.antt =====
-- What the responses of service/simple.rs that describe a job say of it.
use ippper_rs.Prelude.{
  ℕ, String, ◌≡◌, refl, sym, ap, ◌∙◌, false, ◌==◌, List, [], ◌∷◌, ◌++◌, Option, none, some, arith,
  eq_refl, map,
}
use ippper_rs.Ipp.Enums.{
  DelimiterTag, operation_attributes, job_attributes, pending, successful_ok, StatusCode,
}
use ippper_rs.Ipp.Value.{IppValue, integer, enum}
use ippper_rs.Ipp.HashMap.{extend, get-insert}
use ippper_rs.Ipp.Attributes.{IppAttributeGroup, IppRequestResponse, find_value}
use ippper_rs.Ipp.Http.{ReqParts}
use ippper_rs.Ipp.External.{External, Documented}
use ippper_rs.Error.{Result, ok, err}
use ippper_rs.Utils.{get_ipp_attribute}
use ippper_rs.Utils.Lookup.{get_ipp_attribute-eq-find_value}
use ippper_rs.Service.Common.{build_error_response}
use ippper_rs.Service.Simple.Info.{JobInfo, Duration}
use ippper_rs.Service.Simple.JobAttributes.{lite_job_attributes_for}
use ippper_rs.Service.Simple.State.{SimpleIppService, alloc_job, write_job}
use ippper_rs.Service.Simple.Responses.{add_basic_attributes, push_group, job_response}
use ippper_rs.Service.Simple.Documents.{
  Ambient, new_job, create_job, finish_document, finished, document_response,
}

pub find_value-append :
    (gs hs : List IppAttributeGroup) (t : DelimiterTag) (n : String)
    → find_value gs t n ≡ none
    → find_value (gs ++ hs) t n ≡ find_value hs t n
find_value-append [] hs t n e = refl
find_value-append (g ∷ gs) hs t n e = ground (arith, find_value-append gs hs t n)

module _ {P : Type 0} {ext : External P} (doc : Documented ext) where
  -- The attribute of a job in a response.
  abbrev pub reported : IppRequestResponse P → String → Option IppValue
  reported resp n = get_ipp_attribute ext resp.attributes job_attributes n

  -- A response that says nothing of a job.
  abbrev IsSilent : IppRequestResponse P → Type 0
  IsSilent resp = (n : String) → find_value resp.attributes.groups job_attributes n ≡ none

  basic-IsSilent :
      (resp : IppRequestResponse P) → IsSilent resp → IsSilent (add_basic_attributes ext resp)
  unfolding add_basic_attributes
  basic-IsSilent resp silent n =
      doc.find-add _ operation_attributes job_attributes _ n
      ∙ doc.find-add _ operation_attributes job_attributes _ n
      ∙ silent n

  new_response-IsSilent :
      (version id : ℕ) (status : StatusCode) → IsSilent (ext.new_response version status id)
  new_response-IsSilent version id status n =
      doc.find-new_response version status id job_attributes n refl

  document_response-IsSilent :
      (handled : Result (Unit {0})) (req : IppRequestResponse P)
      → IsSilent (document_response ext handled req)
  unfolding document_response build_error_response
  document_response-IsSilent (ok _) req n = new_response-IsSilent _ _ _ n
  document_response-IsSilent (err e) req n =
      doc.find-add _ operation_attributes job_attributes _ n ∙ new_response-IsSilent _ _ _ n

  names_differ :
      ((ext.names.job_state == ext.names.job_id) ≡ false)
      × (("job-state-message" == ext.names.job_id) ≡ false)
      × ((ext.names.job_state_reasons == ext.names.job_id) ≡ false)
      × (("job-state-message" == ext.names.job_state) ≡ false)
      × ((ext.names.job_state_reasons == ext.names.job_state) ≡ false)
  names_differ = (
    ap (λ x. x == ext.names.job_id) doc.job_state_name ∙ ap (λ x. "job-state" == x) doc.job_id_name,
    ap (λ x. "job-state-message" == x) doc.job_id_name,
    ap (λ x. x == ext.names.job_id) doc.job_state_reasons_name
        ∙ ap (λ x. "job-state-reasons" == x) doc.job_id_name,
    ap (λ x. "job-state-message" == x) doc.job_state_name,
    ap (λ x. x == ext.names.job_state) doc.job_state_reasons_name
        ∙ ap (λ x. "job-state-reasons" == x) doc.job_state_name,
  )

  job_response-reported :
      (s : SimpleIppService) (head : ReqParts) (job : JobInfo) (resp : IppRequestResponse P)
      → IsSilent resp
      → (reported (job_response ext s head job resp) ext.names.job_id ≡ some (integer job.id))
        × (reported (job_response ext s head job resp) ext.names.job_state
            ≡ some (enum (ext.job_state_code job.state)))
  unfolding job_response push_group lite_job_attributes_for extend
  job_response-reported s head job resp silent =
      let (a, b, c, d, e) = names_differ in
      let quiet = basic-IsSilent resp silent in
      let basic = (add_basic_attributes ext resp).attributes.groups in
      let attrs = map (λ a. (a.name, a)) (lite_job_attributes_for ext s.host s.basepath head job) in
      let group : IppAttributeGroup = record {
        tag = job_attributes;
        attributes = extend [] attrs;
      } in
      (
        get_ipp_attribute-eq-find_value doc _ job_attributes ext.names.job_id
            ∙ find_value-append basic (group ∷ []) job_attributes ext.names.job_id
                (quiet ext.names.job_id)
            ∙ simp (get-insert, a, b, c, eq_refl),
        get_ipp_attribute-eq-find_value doc _ job_attributes ext.names.job_state
            ∙ find_value-append basic (group ∷ []) job_attributes ext.names.job_state
                (quiet ext.names.job_state)
            ∙ simp (get-insert, d, e, eq_refl),
      )

  -- The response to `create_job` gives as `job-id` the id of the job that it has made, the next one
  -- of the service, and as `job-state` the code of `pending`, the state that the job is in.
  pub create_job-reported :
      (env : Ambient P) (head : ReqParts) (req : IppRequestResponse P) (s : SimpleIppService)
      → let (result, s') = create_job ext env head req s in
        (resp : IppRequestResponse P) × (result ≡ ok resp)
        × ((s'.cells s.allocated).id ≡ s.job_id)
        × ((s'.cells s.allocated).state ≡ pending)
        × (reported resp ext.names.job_id ≡ some (integer s.job_id))
        × (reported resp ext.names.job_state ≡ some (enum (ext.job_state_code pending)))
  unfolding create_job alloc_job new_job
  create_job-reported env head req s =
      let s' = (create_job ext env head req s).1 in
      let job = s'.cells s.allocated in
      let id : job.id ≡ s.job_id = ground arith in
      let waits : job.state ≡ pending = ground arith in
      let resp = ext.new_response req.header.version successful_ok req.header.request_id in
      let (named, stated) =
        job_response-reported s' head job resp (new_response-IsSilent _ _ successful_ok) in
      (
        job_response ext s' head job resp,
        refl,
        id,
        waits,
        named ∙ ap (λ k. some (integer k)) id,
        stated ∙ ap (λ state. some (enum (ext.job_state_code state))) waits,
      )

  finished-id :
      (handled : Result (Unit {0})) (now : Duration) (job : JobInfo)
      → (finished ext handled now job).id ≡ job.id
  unfolding finished
  finished-id (ok _) now job = refl
  finished-id (err e) now job = refl

  -- The response to a request whose document has been handled gives the id of its job, and as
  -- `job-state` the code of the state that the job has ended in.
  pub finish_document-reported :
      (head : ReqParts) (req : IppRequestResponse P) (h : ℕ) (handled : Result (Unit {0}))
      (now : Duration) (s : SimpleIppService)
      → let (resp, s') = finish_document ext head req h handled now s in
        ((s'.cells h).id ≡ (s.cells h).id)
        × (reported resp ext.names.job_id ≡ some (integer (s.cells h).id))
        × (reported resp ext.names.job_state ≡ some (enum (ext.job_state_code (s'.cells h).state)))
  unfolding finish_document
  finish_document-reported head req h handled now s =
      let job = finished ext handled now (s.cells h) in
      let written : (write_job h job s).cells h ≡ job = ground arith in
      let id = finished-id handled now (s.cells h) in
      let (named, stated) =
        job_response-reported (write_job h job s) head job (document_response ext handled req)
          (document_response-IsSilent handled req) in
      (
        ap (λ (j : JobInfo). j.id) written ∙ id,
        named ∙ ap (λ k. some (integer k)) id,
        stated ∙ ap (λ (j : JobInfo). some (enum (ext.job_state_code j.state))) (sym written),
      )
