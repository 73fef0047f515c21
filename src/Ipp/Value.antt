-- ===== src/Ipp/Value.antt =====
-- `ipp::value::IppValue` with the variants that the source builds or matches; `other` stands for
-- every further variant.
use ippper_rs.Prelude.{ℕ, ℤ, String, Bool, List, [], ◌∷◌, Option, none, some, ◌≡◌, refl, ap}

mutual
  pub data IppValue : Type 0 where
    integer enum : ℤ → IppValue
    boolean : Bool → IppValue
    keyword charset natural_language uri mime_media_type : String → IppValue
    name_without_language text_without_language : String → IppValue
    name_with_language : String → String → IppValue
    resolution : ℤ → ℤ → ℤ → IppValue
    array_of : IppValues → IppValue
    no_value : IppValue
    other : ℕ → IppValue

  pub data IppValues : Type 0 where
    nil : IppValues
    cons : IppValue → IppValues → IppValues

abbrev pub values_of : List IppValue → IppValues
values_of [] = nil
values_of (v ∷ vs) = cons v (values_of vs)

-- `IppValue::Array` of a `Vec<IppValue>`.
abbrev pub array : List IppValue → IppValue
array vs = array_of (values_of vs)

-- The payload of each variant that the source takes apart through an accessor of the crate.
abbrev pub keyword? : IppValue → Option String
keyword? (keyword s) = some s
keyword? _ = none

abbrev pub mime_media_type? : IppValue → Option String
mime_media_type? (mime_media_type s) = some s
mime_media_type? _ = none

abbrev pub integer? : IppValue → Option ℤ
integer? (integer n) = some n
integer? _ = none

abbrev pub elements : IppValues → List IppValue
elements nil = []
elements (cons v vs) = v ∷ elements vs

pub elements-values_of : (vs : List IppValue) → elements (values_of vs) ≡ vs
elements-values_of [] = refl
elements-values_of (v ∷ vs) = ap (λ t. v ∷ t) (elements-values_of vs)
