-- ===== src/Utils/Lookup.antt =====
-- Looking attributes up and taking them out agree, and taking one disturbs no other.
use ippper_rs.Prelude.{
  String, ◌≡◌, refl, sym, ◌∙◌, false, List, [], ◌∷◌, ◌&&◌, ◌==◌, arith, select, map_option,
}
use ippper_rs.Ipp.Enums.{DelimiterTag, same_tag, same_tag_iff}
use ippper_rs.Ipp.HashMap.{get-without}
use ippper_rs.Ipp.Attributes.{IppAttributeGroup, IppAttributes, find_value}
use ippper_rs.Ipp.External.{External, Documented}
use ippper_rs.Utils.{remove_first, take_ipp_attribute, get_ipp_attribute, find_attribute}

-- The value that is taken is the one that a lookup finds.
remove_first-value :
    (t : DelimiterTag) (n : String) (gs : List IppAttributeGroup)
    → map_option (λ a. a.value) (remove_first t n gs).0 ≡ find_value gs t n
unfolding remove_first
remove_first-value t n [] = refl
remove_first-value t n (g ∷ gs) = ground (arith, remove_first-value t n gs)

-- Every other lookup finds what it found before.
remove_first-other :
    (t u : DelimiterTag) (n m : String) (gs : List IppAttributeGroup)
    → (same_tag t u && n == m) ≡ false
    → find_value (remove_first t n gs).1 u m ≡ find_value gs u m
unfolding remove_first
remove_first-other t u n m [] h = refl
remove_first-other t u n m (g ∷ gs) h = ground (
  arith,
  remove_first-other t u n m gs h,
  get-without g.attributes n m,
  same_tag_iff g.tag t,
  same_tag_iff g.tag u,
  same_tag_iff t u,
)

pub take-value :
    (r : IppAttributes) (t : DelimiterTag) (n : String)
    → (take_ipp_attribute r t n).0 ≡ find_value r.groups t n
unfolding take_ipp_attribute
take-value r t n = remove_first-value t n r.groups

pub take-other :
    (r : IppAttributes) (t u : DelimiterTag) (n m : String)
    → (same_tag t u && n == m) ≡ false
    → find_value (take_ipp_attribute r t n).1.groups u m ≡ find_value r.groups u m
unfolding take_ipp_attribute
take-other r t u n m h = remove_first-other t u n m r.groups h

module _ {P : Type 0} {ext : External P} (doc : Documented ext) where
  find_attribute-select :
      (t : DelimiterTag) (n : String) (gs : List IppAttributeGroup)
      → map_option (λ a. a.value) (find_attribute ext (select (λ g. same_tag g.tag t) gs) n)
        ≡ find_value gs t n
  unfolding find_attribute
  find_attribute-select t n [] = refl
  find_attribute-select t n (g ∷ gs) = ground (arith, find_attribute-select t n gs)

  pub get_ipp_attribute-eq-find_value :
      (r : IppAttributes) (t : DelimiterTag) (n : String)
      → get_ipp_attribute ext r t n ≡ find_value r.groups t n
  unfolding get_ipp_attribute
  get_ipp_attribute-eq-find_value r t n =
      rw (doc.groups_of_lem r t) (find_attribute-select t n r.groups)

  -- Taking the attribute of a tag and a name gives the value that looking it up finds, and leaves
  -- attributes in which every lookup by another tag or another name finds what it found before.
  pub take_ipp_attribute-get_ipp_attribute :
      (r : IppAttributes) (t u : DelimiterTag) (n m : String)
      → (same_tag t u && n == m) ≡ false
      → ((take_ipp_attribute r t n).0 ≡ get_ipp_attribute ext r t n)
        × (get_ipp_attribute ext (take_ipp_attribute r t n).1 u m ≡ get_ipp_attribute ext r u m)
  take_ipp_attribute-get_ipp_attribute r t u n m h = (
    take-value r t n ∙ sym (get_ipp_attribute-eq-find_value r t n),
    get_ipp_attribute-eq-find_value _ u m
        ∙ take-other r t u n m h
        ∙ sym (get_ipp_attribute-eq-find_value r u m),
  )
