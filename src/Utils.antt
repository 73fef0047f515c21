-- ===== src/Utils.antt =====
-- utils/mod.rs: looking attributes up in a request, taking them out of it, and the decompression of
-- a payload.
pub mod Lookup
use ippper_rs.Prelude.{
  String, Bool, true, false, Option, none, some, List, [], ◌∷◌, ◌||◌, ◌==◌, if◌then◌else◌, and_then,
  map_option, unwrap_or, map_or,
}
use ippper_rs.Ipp.Enums.{
  DelimiterTag, same_tag, operation_attributes, client_error_compression_not_supported,
}
use ippper_rs.Ipp.Value.{IppValue, name_without_language, name_with_language}
use ippper_rs.Ipp.HashMap.{get, without}
use ippper_rs.Ipp.Attributes.{IppAttribute, IppAttributeGroup, IppAttributes}
use ippper_rs.Ipp.External.{External}
use ippper_rs.Error.{Result, ok, err, status_error}

-- `groups_mut().iter_mut().filter(|g| g.tag() == tag).find_map(|g| g.attributes_mut().remove(name))`:
-- the attribute that is removed, and the groups that are left.
unfoldable pub remove_first :
    DelimiterTag → String → List IppAttributeGroup → Option IppAttribute × List IppAttributeGroup
remove_first tag name [] = (none, [])
remove_first tag name (g ∷ gs) =
    let (found, later) = remove_first tag name gs in
    if same_tag g.tag tag
    then elim (get g.attributes name) [
      | none ↦ (found, g ∷ later)
      | some a ↦ (some a, record g { attributes = without g.attributes name } ∷ gs)
    ]
    else (found, g ∷ later)

unfoldable pub take_ipp_attribute :
    IppAttributes → DelimiterTag → String → Option IppValue × IppAttributes
unfolding remove_first
take_ipp_attribute r tag name =
    let (found, left) = remove_first tag name r.groups in
    (map_option (λ a. a.value) found, record { groups = left })

-- The name in a value of either name syntax.
abbrev pub user_name : IppValue → Option String
user_name (name_without_language name) = some name
user_name (name_with_language _ name) = some name
user_name _ = none

unfoldable pub take_requesting_user_name : IppAttributes → String × IppAttributes
take_requesting_user_name r =
    let (attr, left) = take_ipp_attribute r operation_attributes "requesting-user-name" in
    (unwrap_or (and_then attr user_name) "anonymous", left)

-- `HashSet::contains`; the order of a set is never read.
abbrev pub contains : List String → String → Bool
contains [] name = false
contains (n ∷ names) name = n == name || contains names name

abbrev pub filter_map : {A B : Type 0} → (A → Option B) → List A → List B
filter_map f [] = []
filter_map f (x ∷ xs) = elim (f x) [ none ↦ filter_map f xs | some y ↦ y ∷ filter_map f xs ]

module _ {P : Type 0} (ext : External P) where
  find_attribute : List IppAttributeGroup → String → Option IppAttribute
  find_attribute [] name = none
  find_attribute (g ∷ gs) name = elim (get g.attributes name) [
    | none ↦ find_attribute gs name
    | some a ↦ some a
  ]

  unfoldable pub get_ipp_attribute : IppAttributes → DelimiterTag → String → Option IppValue
  unfolding find_attribute
  get_ipp_attribute r tag name =
      map_option (λ a. a.value) (find_attribute (ext.groups_of r tag) name)

  -- On `None` and `"none"` the payload as it is, on `"gzip"` a decoder over it.
  unfoldable pub decommpress_payload : P → Option String → Result P
  decommpress_payload payload none = ok payload
  decommpress_payload payload (some compression) =
      if compression == "none"
      then ok payload
      else if compression == "gzip"
      then ok (ext.gunzip payload)
      else err (status_error ext client_error_compression_not_supported)

  unfoldable pub get_requested_attributes : IppAttributes → List String
  get_requested_attributes r =
      map_or (get_ipp_attribute r operation_attributes ext.names.requested_attributes) ("all" ∷ [])
        (λ attr. filter_map ext.as_keyword (ext.value_iter attr))
