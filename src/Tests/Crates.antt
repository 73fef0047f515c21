-- ===== src/Tests/Crates.antt =====
-- The functions of the other crates, as one concrete instance, and that it is as documented.
use ippper_rs.Prelude.{
  ℕ, ℤ, pos, ◌≡◌, refl, inl, inr, String, Bool, true, false, List, [], ◌∷◌, Option, none, some, All,
  select, arith, ◌==◌, ◌&&◌, if◌then◌else◌, eqb, eqb_ℤ, eqb_ℤ_iff, concat, Bool-cases,
}
use ippper_rs.Ipp.Enums
use ippper_rs.Ipp.Enums.{
  DelimiterTag, same_tag, same_tag_iff, operation_attributes, StatusCode, JobState, Operation,
}
use ippper_rs.Ipp.HashMap.{get, insert, get-insert}
use ippper_rs.Ipp.Value.{
  IppValue, array_of, elements, elements-values_of, keyword?, mime_media_type?, integer?, charset,
  natural_language,
}
use ippper_rs.Ipp.Attributes.{IppAttribute, attribute, IppAttributeGroup, find_value}
use ippper_rs.Tests.Names.{names}
use ippper_rs.Ipp.External.{Snapshot, External, Documented}

abbrev operations : List (ℕ × Operation)
operations =
    (2, Enums.print_job)
    ∷ (3, Enums.print_uri)
    ∷ (4, Enums.validate_job)
    ∷ (5, Enums.create_job)
    ∷ (6, Enums.send_document)
    ∷ (7, Enums.send_uri)
    ∷ (8, Enums.cancel_job)
    ∷ (9, Enums.get_job_attributes)
    ∷ (10, Enums.get_jobs)
    ∷ (11, Enums.get_printer_attributes)
    ∷ (12, Enums.hold_job)
    ∷ (13, Enums.release_job)
    ∷ (14, Enums.restart_job)
    ∷ (16, Enums.pause_printer)
    ∷ (17, Enums.resume_printer)
    ∷ (18, Enums.purge_jobs)
    ∷ []

abbrev decode : List (ℕ × Operation) → ℕ → Option Operation
decode [] n = none
decode ((k, op) ∷ ops) n = if eqb k n then some op else decode ops n

abbrev code : Operation → ℤ
code Enums.print_job = pos 2
code Enums.print_uri = pos 3
code Enums.validate_job = pos 4
code Enums.create_job = pos 5
code Enums.send_document = pos 6
code Enums.send_uri = pos 7
code Enums.cancel_job = pos 8
code Enums.get_job_attributes = pos 9
code Enums.get_jobs = pos 10
code Enums.get_printer_attributes = pos 11
code Enums.hold_job = pos 12
code Enums.release_job = pos 13
code Enums.restart_job = pos 14
code Enums.pause_printer = pos 16
code Enums.resume_printer = pos 17
code Enums.purge_jobs = pos 18
code (Operation.other n) = pos n

abbrev state_code : JobState → ℤ
state_code JobState.pending = pos 3
state_code JobState.pending_held = pos 4
state_code JobState.processing = pos 5
state_code JobState.processing_stopped = pos 6
state_code JobState.canceled = pos 7
state_code JobState.aborted = pos 8
state_code JobState.completed = pos 9

abbrev status : StatusCode → ℕ
status StatusCode.successful_ok = 0
status StatusCode.client_error_not_possible = 1028
status StatusCode.client_error_not_found = 1030
status StatusCode.client_error_document_format_not_supported = 1034
status StatusCode.client_error_attributes_or_values_not_supported = 1035
status StatusCode.client_error_compression_not_supported = 1039
status StatusCode.server_error_internal_error = 1280
status StatusCode.server_error_operation_not_supported = 1281
status StatusCode.server_error_version_not_supported = 1283
status (StatusCode.other n) = n

abbrev text_of : StatusCode → String
text_of StatusCode.successful_ok = "No error"
text_of StatusCode.client_error_not_found = "Not found"
text_of _ = "Error"

abbrev values : IppValue → List IppValue
values (array_of vs) = elements vs
values v = v ∷ []

abbrev add_to : List IppAttributeGroup → DelimiterTag → IppAttribute → List IppAttributeGroup
add_to [] t a = record { tag = t; attributes = insert [] a.name a } ∷ []
add_to (g ∷ gs) t a =
    let rest = add_to gs t a in
    if same_tag g.tag t
    then record g { attributes = insert g.attributes a.name a } ∷ gs
    else g ∷ rest

find-add_to :
    (gs : List IppAttributeGroup) (t u : DelimiterTag) (a : IppAttribute) (n : String)
    → find_value (add_to gs t a) u n
      ≡ (if same_tag t u && a.name == n then some a.value else find_value gs u n)
unfolding get insert
find-add_to [] t u a n = ground arith
find-add_to (g ∷ gs) t u a n = ground (
  arith,
  find-add_to gs t u a n,
  get-insert g.attributes a.name n a,
  same_tag_iff g.tag t,
  same_tag_iff g.tag u,
  same_tag_iff t u,
)

-- A cache that drops nothing, with the latest entry for a key in front.
abbrev lookup : Snapshot → ℤ → Option ℕ
lookup [] k = none
lookup ((j, h) ∷ m) k = if eqb_ℤ j k then some h else lookup m k

abbrev is_current : Snapshot → ℤ × ℕ → Bool
is_current m e = elim (lookup m e.0) [ none ↦ false | some h ↦ eqb h e.1 ]

is_current_lem : (m : Snapshot) (e : ℤ × ℕ) → is_current m e ≡ true → lookup m e.0 ≡ some e.1
is_current_lem m e = ground arith

lookup-current : (m es : Snapshot) → All (λ e. lookup m e.0 ≡ some e.1) (select (is_current m) es)
lookup-current m [] = tt
lookup-current m (e ∷ es) = elim (Bool-cases (is_current m e)) [
  | inl now ↦ rw now (is_current_lem m e now, lookup-current m es)
  | inr old ↦ rw old (lookup-current m es)
]

-- A payload is its bytes; a compressed one is its bytes and a mark.
abbrev pub crates : External (List ℕ)
crates = record {
  names = names;
  v1_1 = 257;
  v2_0 = 512;
  operation_from_u16 = decode operations;
  operation_code = code;
  job_state_code = state_code;
  printer_idle_code = pos 3;
  status_code = status;
  status_text = text_of;
  debug_text = λ s. concat "\"" (concat s "\"");
  as_keyword = keyword?;
  into_keyword = keyword?;
  into_mime_media_type = mime_media_type?;
  as_integer = integer?;
  into_integer = integer?;
  value_iter = values;
  groups_of = λ r t. select (λ g. same_tag g.tag t) r.groups;
  add = λ r t a. record { groups = add_to r.groups t a };
  new_response = λ v s id. record {
    header = record { version = v; operation_or_status = status s; request_id = id };
    attributes = record {
      groups =
          record {
            tag = operation_attributes;
            attributes =
                ("attributes-charset", attribute "attributes-charset" (charset "utf-8"))
                ∷ (
                  "attributes-natural-language",
                  attribute "attributes-natural-language" (natural_language "en"),
                )
                ∷ [];
          }
          ∷ [];
    };
    payload = [];
  };
  gunzip = λ p. 31 ∷ 139 ∷ p;
  urn = λ n. "urn:uuid";
  cache_insert = λ m k h. (k, h) ∷ m;
  cache_get = lookup;
  cache_iter = λ m. select (is_current m) m;
}

pub crates-Documented : Documented crates
crates-Documented = record {
  as_keyword_lem = λ v. refl;
  into_keyword_lem = λ v. refl;
  into_mime_media_type_lem = λ v. refl;
  as_integer_lem = λ v. refl;
  into_integer_lem = λ v. refl;
  iter_array = elements-values_of;
  iter_keyword = λ s. refl;
  groups_of_lem = λ r t. refl;
  find-add = λ r. find-add_to r.groups;
  header-new_response = λ v s id. refl;
  find-new_response = λ v s id t n other. ground arith;
  requested_attributes_name = refl;
  job_uri_name = refl;
  job_name_name = refl;
  job_id_name = refl;
  job_state_name = refl;
  job_state_reasons_name = refl;
  version_order = omega arith;
  cache_get-nil = λ k. refl;
  cache_get-insert = λ m k j h i e. ground (arith, eqb_ℤ_iff k j);
  cache_iter-get = λ m. lookup-current m m;
}
