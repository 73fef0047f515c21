-- ===== src/Ipp/External.antt =====
-- The functions and constants of other crates, as a parameter of the model, and what the program
-- relies on of them.
use ippper_rs.Prelude.{
  ℕ, ℤ, String, ◌≡◌, ◌⊎◌, All, ◌<◌, false, List, [], ◌∷◌, Option, none, some, select, ◌&&◌, ◌==◌,
  if◌then◌else◌,
}
use ippper_rs.Ipp.Enums.{
  DelimiterTag, same_tag, operation_attributes, StatusCode, JobState, Operation,
}
use ippper_rs.Ipp.Value.{IppValue, array, keyword?, mime_media_type?, integer?, keyword}
use ippper_rs.Ipp.Attributes.{
  IppAttribute, IppAttributeGroup, IppAttributes, IppRequestResponse, find_value,
}

-- The associated constants of `IppAttribute` that the source names.
pub record Names : Type 0 where
  pub status_message : String
  pub requested_attributes : String
  pub attributes_charset : String
  pub attributes_natural_language : String
  pub printer_uri_supported : String
  pub uri_authentication_supported : String
  pub uri_security_supported : String
  pub printer_name : String
  pub printer_state : String
  pub printer_state_reasons : String
  pub ipp_versions_supported : String
  pub operations_supported : String
  pub color_supported : String
  pub charset_configured : String
  pub charset_supported : String
  pub natural_language_configured : String
  pub generated_natural_language_supported : String
  pub document_format_default : String
  pub document_format_supported : String
  pub printer_is_accepting_jobs : String
  pub pdl_override_supported : String
  pub printer_up_time : String
  pub compression_supported : String
  pub media_default : String
  pub media_supported : String
  pub orientation_requested_default : String
  pub orientation_requested_supported : String
  pub sides_default : String
  pub sides_supported : String
  pub print_color_mode_default : String
  pub print_color_mode_supported : String
  pub printer_resolution_supported : String
  pub printer_resolution_default : String
  pub printer_info : String
  pub printer_make_and_model : String
  pub job_uri : String
  pub job_id : String
  pub job_state : String
  pub job_state_reasons : String
  pub job_name : String

-- The contents of a cache. A cache may drop entries at any time; the numbers name cells.
abbrev pub Snapshot : Type 0
Snapshot = List (ℤ × ℕ)

pub record External (P : Type 0) : Type 0 where
  pub names : Names
  -- `IppVersion::v1_1()` and `v2_0()`, as the numbers they hold
  pub v1_1 : ℕ
  pub v2_0 : ℕ
  -- `Operation::from_u16`, and the casts of enumerations to numbers
  pub operation_from_u16 : ℕ → Option Operation
  pub operation_code : Operation → ℤ
  pub job_state_code : JobState → ℤ
  pub printer_idle_code : ℤ
  pub status_code : StatusCode → ℕ
  -- `StatusCode::to_string`, and the `{:?}` of a text
  pub status_text : StatusCode → String
  pub debug_text : String → String
  -- the accessors of a value
  pub as_keyword : IppValue → Option String
  pub into_keyword : IppValue → Option String
  pub into_mime_media_type : IppValue → Option String
  pub as_integer : IppValue → Option ℤ
  pub into_integer : IppValue → Option ℤ
  -- the iterator over a value
  pub value_iter : IppValue → List IppValue
  -- `IppAttributes::groups_of` and `add`
  pub groups_of : IppAttributes → DelimiterTag → List IppAttributeGroup
  pub add : IppAttributes → DelimiterTag → IppAttribute → IppAttributes
  -- `IppRequestResponse::new_response(version, status, request_id)`
  pub new_response : ℕ → StatusCode → ℕ → IppRequestResponse P
  -- `IppPayload::new_async` of a `GzipDecoder` over a payload
  pub gunzip : P → P
  -- the lower-case URN of a UUID
  pub urn : ℕ → String
  -- `insert`, `get` and `iter` of the `moka` cache from job ids to the cells of jobs
  pub cache_insert : Snapshot → ℤ → ℕ → Snapshot
  pub cache_get : Snapshot → ℤ → Option ℕ
  pub cache_iter : Snapshot → List (ℤ × ℕ)

-- What the theorems rely on, as the crates document it: each accessor of a value gives the payload
-- of its own variant and nothing else, iteration over an array visits its elements, `groups_of`
-- gives the groups of a tag in order, `add` puts an attribute where the attributes of that tag are
-- looked up and disturbs no other, a fresh response carries the header it is given and operation
-- attributes only, the constants of attributes are their names, a cache returns what was inserted
-- under the key or what it returned before, and iterates over what it returns.
pub record Documented {P : Type 0} (ext : External P) : Type 0 where
  pub as_keyword_lem : (v : IppValue) → ext.as_keyword v ≡ keyword? v
  pub into_keyword_lem : (v : IppValue) → ext.into_keyword v ≡ keyword? v
  pub into_mime_media_type_lem : (v : IppValue) → ext.into_mime_media_type v ≡ mime_media_type? v
  pub as_integer_lem : (v : IppValue) → ext.as_integer v ≡ integer? v
  pub into_integer_lem : (v : IppValue) → ext.into_integer v ≡ integer? v
  pub iter_array : (vs : List IppValue) → ext.value_iter (array vs) ≡ vs
  pub iter_keyword : (s : String) → ext.value_iter (keyword s) ≡ keyword s ∷ []
  pub groups_of_lem :
      (r : IppAttributes) (t : DelimiterTag)
      → ext.groups_of r t ≡ select (λ g. same_tag g.tag t) r.groups
  pub find-add :
      (r : IppAttributes) (t u : DelimiterTag) (a : IppAttribute) (n : String)
      → find_value (ext.add r t a).groups u n
        ≡ (if same_tag t u && a.name == n then some a.value else find_value r.groups u n)
  pub header-new_response :
      (v : ℕ) (s : StatusCode) (id : ℕ)
      → (ext.new_response v s id).header
        ≡ record { version = v; operation_or_status = ext.status_code s; request_id = id }
  pub find-new_response :
      (v : ℕ) (s : StatusCode) (id : ℕ) (t : DelimiterTag) (n : String)
      → same_tag t operation_attributes ≡ false
      → find_value (ext.new_response v s id).attributes.groups t n ≡ none
  pub requested_attributes_name : ext.names.requested_attributes ≡ "requested-attributes"
  pub job_uri_name : ext.names.job_uri ≡ "job-uri"
  pub job_name_name : ext.names.job_name ≡ "job-name"
  pub job_id_name : ext.names.job_id ≡ "job-id"
  pub job_state_name : ext.names.job_state ≡ "job-state"
  pub job_state_reasons_name : ext.names.job_state_reasons ≡ "job-state-reasons"
  pub version_order : ext.v1_1 < ext.v2_0
  pub cache_get-nil : (k : ℤ) → ext.cache_get [] k ≡ none
  pub cache_get-insert :
      (m : Snapshot) (k j : ℤ) (h i : ℕ)
      → ext.cache_get (ext.cache_insert m k h) j ≡ some i
      → ((j ≡ k) × (i ≡ h)) ⊎ (ext.cache_get m j ≡ some i)
  pub cache_iter-get : (m : Snapshot) → All (λ e. ext.cache_get m e.0 ≡ some e.1) (ext.cache_iter m)
