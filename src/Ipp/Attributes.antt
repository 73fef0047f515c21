-- ===== src/Ipp/Attributes.antt =====
-- `ipp::attribute` and `ipp::request`: attributes, their groups, requests and responses, as records
-- of what the accessors of the crate (`name`, `value`, `tag`, `attributes`, `groups_mut`, `header`,
-- `payload`) give access to.
use ippper_rs.Prelude.{ℕ, String, List, [], ◌∷◌, Option, none, some, if◌then◌else◌}
use ippper_rs.Ipp.Enums.{DelimiterTag, same_tag}
use ippper_rs.Ipp.Value.{IppValue}
use ippper_rs.Ipp.HashMap.{HashMap, get}

pub record IppAttribute : Type 0 where
  pub name : String
  pub value : IppValue

-- `IppAttribute::new`.
abbrev pub attribute : String → IppValue → IppAttribute
attribute n v = record { name = n; value = v }

pub record IppAttributeGroup : Type 0 where
  pub tag : DelimiterTag
  pub attributes : HashMap IppAttribute

-- `IppAttributeGroup::new`.
abbrev pub empty_group : DelimiterTag → IppAttributeGroup
empty_group t = record { tag = t; attributes = [] }

pub record IppAttributes : Type 0 where
  pub groups : List IppAttributeGroup

-- `IppAttributes::default`, which `std::mem::take` leaves behind.
abbrev pub no_attributes : IppAttributes
no_attributes = record { groups = [] }

pub record IppHeader : Type 0 where
  pub version : ℕ
  pub operation_or_status : ℕ
  pub request_id : ℕ

-- The payload, a reader of bytes, is a type that the program only passes on.
pub record IppRequestResponse (P : Type 0) : Type 0 where
  pub header : IppHeader
  pub attributes : IppAttributes
  pub payload : P

-- The first value filed under a name in the groups of a tag: what a lookup by tag and name is
-- documented to find.
abbrev pub find_value : List IppAttributeGroup → DelimiterTag → String → Option IppValue
find_value [] t n = none
find_value (g ∷ gs) t n =
    let rest = find_value gs t n in
    if same_tag g.tag t
    then elim (get g.attributes n) [ none ↦ rest | some a ↦ some a.value ]
    else rest
