-- ===== src/Service/Simple/RenderLaws.antt =====
-- What a client gets for the attributes that it asks for, whatever the list of entries.
use ippper_rs.Prelude.{
  String, true, false, ◌≡◌, refl, sym, ap, ◌∙◌, List, [], ◌∷◌, ◌++◌, arith, if◌then◌else◌, none,
  some, select, select-append,
}
use mathlib.Core.List.{append-nil, append_assoc}
use ippper_rs.Ipp.Attributes.{IppAttribute}
use ippper_rs.Utils.{contains}
use ippper_rs.Service.Simple.Render.{
  Entry, description, template, add_if_requested, optional_add_if_requested, add_unless_empty,
  is_requested, pushed, kind, name, push, push_all,
}

-- The entries that a request asks for, each with what it pushes.
abbrev pub rendered : String → List String → List Entry → List IppAttribute
rendered group requested [] = []
rendered group requested (e ∷ es) =
    (if is_requested group requested (kind e) (name e) then pushed e else [])
    ++ rendered group requested es

all_requested :
    (group : String) (e : Entry) → is_requested group ("all" ∷ []) (kind e) (name e) ≡ true
unfolding is_requested
all_requested group (add_if_requested description n v) = refl
all_requested group (add_if_requested template n v) = refl
all_requested group (optional_add_if_requested description n v) = refl
all_requested group (optional_add_if_requested template n v) = refl
all_requested group (add_unless_empty empty description n v) = refl
all_requested group (add_unless_empty empty template n v) = refl

module _ (group : String) (requested : List String) where
  push_lem :
      (r : List IppAttribute) (e : Entry)
      → push group requested r e
        ≡ r ++ (if is_requested group requested (kind e) (name e) then pushed e else [])
  unfolding push
  push_lem r (add_if_requested k n v) = ground (arith, append-nil r)
  push_lem r (optional_add_if_requested k n none) = ground (arith, append-nil r)
  push_lem r (optional_add_if_requested k n (some v)) = ground (arith, append-nil r)
  push_lem r (add_unless_empty true k n v) = ground (arith, append-nil r)
  push_lem r (add_unless_empty false k n v) = ground (arith, append-nil r)

  pub push_all_lem :
      (r : List IppAttribute) (es : List Entry)
      → push_all group requested r es ≡ r ++ rendered group requested es
  unfolding push_all
  push_all_lem r [] = sym (append-nil r)
  push_all_lem r (e ∷ es) =
      push_all_lem (push group requested r e) es
      ∙ ap (λ t. t ++ rendered group requested es) (push_lem r e)
      ∙ append_assoc r _ _

  module _ (no_all : contains requested "all" ≡ false) (no_group : contains requested group ≡ false)
      (no_template : contains requested "job-template" ≡ false) where
    -- With no group of attributes asked for, an entry is asked for by its name.
    is_requested-eq-contains :
        (e : Entry) → is_requested group requested (kind e) (name e) ≡ contains requested (name e)
    unfolding is_requested
    is_requested-eq-contains (add_if_requested description n v) = rw (no_all, no_group)
    is_requested-eq-contains (add_if_requested template n v) = rw (no_all, no_template)
    is_requested-eq-contains (optional_add_if_requested description n v) = rw (no_all, no_group)
    is_requested-eq-contains (optional_add_if_requested template n v) = rw (no_all, no_template)
    is_requested-eq-contains (add_unless_empty empty description n v) = rw (no_all, no_group)
    is_requested-eq-contains (add_unless_empty empty template n v) = rw (no_all, no_template)

    select-pushed :
        (e : Entry)
        → select (λ a. contains requested a.name) (pushed e)
          ≡ (if contains requested (name e) then pushed e else [])
    select-pushed (add_if_requested k n v) = refl
    select-pushed (optional_add_if_requested k n none) = ground arith
    select-pushed (optional_add_if_requested k n (some v)) = refl
    select-pushed (add_unless_empty empty k n v) = ground arith

    pub rendered-by_names :
        (es : List Entry)
        → rendered group requested es
          ≡ select (λ a. contains requested a.name) (rendered group ("all" ∷ []) es)
    rendered-by_names [] = refl
    rendered-by_names (e ∷ es) =
        rw
          (
            is_requested-eq-contains e,
            all_requested group e,
            select-append (λ a. contains requested a.name) (pushed e)
                (rendered group ("all" ∷ []) es),
            select-pushed e,
          )
          (ap (λ t. (if contains requested (name e) then pushed e else []) ++ t)
            (rendered-by_names es))
