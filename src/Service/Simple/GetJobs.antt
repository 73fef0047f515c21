-- ===== src/Service/Simple/GetJobs.antt =====
-- `get_jobs` of service/simple.rs, by what its request asks for.
use ippper_rs.Prelude.{
  ℕ, ℤ, List, String, ◌≡◌, refl, ap, ◌∙◌, false, Option, none, some, [], ◌∷◌, ◌++◌, and_then, ◌==◌,
  ◌&&◌,
}
use ippper_rs.Ipp.Enums.{
  JobState, same_tag, operation_attributes, unsupported_attributes, successful_ok,
  client_error_attributes_or_values_not_supported,
}
use ippper_rs.Ipp.Value.{IppValue, keyword, keyword?, integer?}
use ippper_rs.Ipp.HashMap.{get, extend}
use ippper_rs.Ipp.Attributes.{attribute, IppAttributeGroup, IppAttributes, IppRequestResponse}
use ippper_rs.Ipp.Http.{ReqParts}
use ippper_rs.Ipp.External.{External, Documented}
use ippper_rs.Error.{ok, err, IppResult}
use ippper_rs.Model.{WhichJob, Converted, converted, rejected}
use ippper_rs.Utils.{get_ipp_attribute, take_ipp_attribute, get_requested_attributes}
use ippper_rs.Utils.Lookup.{take_ipp_attribute-get_ipp_attribute}
use ippper_rs.Service.Simple.State.{SimpleIppService}
use ippper_rs.Service.Simple.Responses.{basic_response, push_group}
use ippper_rs.Service.Simple.Documents.{Ambient}
use ippper_rs.Service.Simple.Handlers.{get_jobs, answer_jobs, parse_which_jobs}
use ippper_rs.Service.Simple.Listing.{answer_jobs-groups, job_groups, bounded}
use ippper_rs.Service.Simple.Answers.{header-list_jobs}
use ippper_rs.Service.Simple.Filters.{
  asked_states, Stands, parse_which_jobs-Stands, selected, matching-selected,
}

module _ {P : Type 0} (ext : External P) where
  -- What a request asks for.
  abbrev pub asked_limit : IppRequestResponse P → Option ℤ
  asked_limit req =
      and_then (get_ipp_attribute ext req.attributes operation_attributes "limit") integer?

  abbrev pub asked_which : IppRequestResponse P → Option String
  asked_which req =
      and_then (get_ipp_attribute ext req.attributes operation_attributes "which-jobs") keyword?

module _ {P : Type 0} {ext : External P} (doc : Documented ext) where
  read_as :
      {A : Type 0} (f g : IppValue → Option A)
      → ((v : IppValue) → f v ≡ g v)
      → (o : Option IppValue) → and_then o f ≡ and_then o g
  read_as f g same none = refl
  read_as f g same (some v) = same v

  requested-same :
      (r left : IppAttributes)
      → get_ipp_attribute ext left operation_attributes ext.names.requested_attributes
        ≡ get_ipp_attribute ext r operation_attributes ext.names.requested_attributes
      → get_requested_attributes ext left ≡ get_requested_attributes ext r
  unfolding get_requested_attributes
  requested-same r left e = rw e refl

  not_requested :
      (n : String)
      → (n == "requested-attributes") ≡ false
      → (same_tag operation_attributes operation_attributes && n == ext.names.requested_attributes)
        ≡ false
  not_requested n e = rw doc.requested_attributes_name e

  -- `get_jobs` by lookups in the request, in place of the attributes that it takes out in turn.
  pub get_jobs-asked :
      (env : Ambient P) (head : ReqParts) (req : IppRequestResponse P) (s : SimpleIppService)
      → get_jobs ext env head req s ≡ (
        ok (
            answer_jobs ext env head req s
              (asked_limit ext req)
              (get_requested_attributes ext req.attributes)
              (parse_which_jobs (asked_which ext req))),
        s,
      )
  unfolding get_jobs
  get_jobs-asked env head req s =
      let r = req.attributes in
      let op = operation_attributes in
      let r₁ = (take_ipp_attribute r op "limit").1 in
      let (limit, which_left) =
        take_ipp_attribute-get_ipp_attribute doc r op op "limit" "which-jobs" refl in
      let (_, names_left) =
        take_ipp_attribute-get_ipp_attribute doc r op op "limit" ext.names.requested_attributes
          (not_requested "limit" refl) in
      let (which, names_left') =
        take_ipp_attribute-get_ipp_attribute doc r₁ op op "which-jobs"
          ext.names.requested_attributes (not_requested "which-jobs" refl) in
      let limit_lem : and_then (take_ipp_attribute r op "limit").0 ext.into_integer
          ≡ asked_limit ext req =
        ap (λ o. and_then o ext.into_integer) limit
        ∙ read_as ext.into_integer integer? doc.into_integer_lem _ in
      let which_lem : and_then (take_ipp_attribute r₁ op "which-jobs").0 ext.into_keyword
          ≡ asked_which ext req =
        ap (λ o. and_then o ext.into_keyword) (which ∙ which_left)
        ∙ read_as ext.into_keyword keyword? doc.into_keyword_lem _ in
      let names_lem =
        requested-same r (take_ipp_attribute r₁ op "which-jobs").1 (names_left' ∙ names_left) in
      rw (limit_lem, which_lem, names_lem) refl

  module _ (env : Ambient P) (head : ReqParts) (req : IppRequestResponse P)
      (s : SimpleIppService) where
    -- The answer for the states that a text stands for, and for a text that stands for none.
    abbrev pub Lists : Option String → Option (List JobState) → IppResult P → Type 0
    Lists asked (some states) (ok resp) =
        let basic = basic_response ext req successful_ok in
        (resp.header ≡ basic.header)
        × (resp.attributes.groups
            ≡ basic.attributes.groups
              ++ job_groups ext env head s (get_requested_attributes ext req.attributes) 0 (
                  bounded (asked_limit ext req) 0
                    (selected s.cells states (ext.cache_iter s.job_snapshot))))
    Lists (some text) none (ok resp) =
        let basic = basic_response ext req client_error_attributes_or_values_not_supported in
        (group : IppAttributeGroup) × (resp.header ≡ basic.header)
        × (resp.attributes.groups ≡ basic.attributes.groups ++ group ∷ [])
        × (group.tag ≡ unsupported_attributes)
        × (get group.attributes "which-jobs" ≡ some (attribute "which-jobs" (keyword text)))
    Lists none none _ = ⊥
    Lists _ _ (err e) = ⊥

    answer_jobs-Lists :
        (asked : Option String) (which : Converted WhichJob String)
        → Stands asked which
        → Lists asked (asked_states asked) (
            ok (
              answer_jobs ext env head req s
                (asked_limit ext req)
                (get_requested_attributes ext req.attributes)
                which))
    unfolding answer_jobs push_group extend get
    answer_jobs-Lists asked (converted which) stands =
        let names = get_requested_attributes ext req.attributes in
        let listed : (hs : List ℕ) → List IppAttributeGroup = λ hs.
          (basic_response ext req successful_ok).attributes.groups
          ++ job_groups ext env head s names 0 (bounded (asked_limit ext req) 0 hs) in
        rw stands (
          header-list_jobs doc req env head s which (asked_limit ext req) names 0
              (ext.cache_iter s.job_snapshot) _,
          answer_jobs-groups ext env head s names which (asked_limit ext req) req
              ∙ ap listed (matching-selected s.cells which (ext.cache_iter s.job_snapshot)),
        )
    answer_jobs-Lists asked (rejected text) (this, unknown) =
        rw (unknown, this)
          (
            record {
              tag = unsupported_attributes;
              attributes = extend [] (("which-jobs", attribute "which-jobs" (keyword text)) ∷ []);
            },
            refl,
            refl,
            refl,
            refl,
          )

    -- The answer to `get_jobs`, by what its request asks for. If the text of `which-jobs` stands for
    -- some states by the table of the filters, or is not given, which stands for the states of jobs
    -- that have not ended, the answer has the header of a basic response and holds, behind the groups
    -- of one, one group of the requested attributes for each job of the snapshot that is in one of
    -- these states, in the order of the snapshot and at most as many as the request's limit says, a
    -- limit below 1 counting as 1. For any other text it is an error response with the one further
    -- group of unsupported attributes, which holds the text. The service stays as it is.
    pub get_jobs-Lists :
        let (result, s') = get_jobs ext env head req s in
        Lists (asked_which ext req) (asked_states (asked_which ext req)) result × (s' ≡ s)
    get_jobs-Lists =
        let asked = asked_which ext req in
        rw (get_jobs-asked env head req s)
          (answer_jobs-Lists asked (parse_which_jobs asked) (parse_which_jobs-Stands asked), refl)
