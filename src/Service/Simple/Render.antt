-- ===== src/Service/Simple/Render.antt =====
-- The macros `is_requested!`, `add_if_requested!` and `optional_add_if_requested!`, with which
-- service/simple.rs lists the attributes of printers and of jobs.
use ippper_rs.Prelude.{
  String, Bool, true, false, ◌||◌, Option, none, some, List, [], ◌∷◌, ◌++◌, if◌then◌else◌,
}
use ippper_rs.Ipp.Value.{IppValue}
use ippper_rs.Ipp.Attributes.{IppAttribute, attribute}
use ippper_rs.Utils.{contains}

pub data Kind : Type 0 where
  description template : Kind

-- One use of a macro. The values that the source computes under an outer `if` on the printer's
-- description come with that test.
pub data Entry : Type 0 where
  add_if_requested : Kind → String → IppValue → Entry
  optional_add_if_requested : Kind → String → Option IppValue → Entry
  add_unless_empty : Bool → Kind → String → IppValue → Entry

-- `is_requested!`, by the name of the group of description attributes of the object.
unfoldable pub is_requested : String → List String → Kind → String → Bool
is_requested group requested description name =
    (contains requested "all" || contains requested group) || contains requested name
is_requested group requested template name =
    (contains requested "all" || contains requested "job-template") || contains requested name

-- What one entry pushes when it is requested.
abbrev pub pushed : Entry → List IppAttribute
pushed (add_if_requested k n v) = attribute n v ∷ []
pushed (optional_add_if_requested k n none) = []
pushed (optional_add_if_requested k n (some v)) = attribute n v ∷ []
pushed (add_unless_empty empty k n v) = if empty then [] else attribute n v ∷ []

abbrev pub kind : Entry → Kind
kind (add_if_requested k n v) = k
kind (optional_add_if_requested k n v) = k
kind (add_unless_empty empty k n v) = k

abbrev pub name : Entry → String
name (add_if_requested k n v) = n
name (optional_add_if_requested k n v) = n
name (add_unless_empty empty k n v) = n

module _ (group : String) (requested : List String) where
  -- The entry's statement, on the vector `r` of the attributes so far.
  unfoldable pub push : List IppAttribute → Entry → List IppAttribute
  unfolding is_requested
  push r (add_if_requested k n v) =
      if is_requested group requested k n then r ++ attribute n v ∷ [] else r
  push r (optional_add_if_requested k n none) = r
  push r (optional_add_if_requested k n (some v)) =
      if is_requested group requested k n then r ++ attribute n v ∷ [] else r
  push r (add_unless_empty true k n v) = r
  push r (add_unless_empty false k n v) =
      if is_requested group requested k n then r ++ attribute n v ∷ [] else r

  -- The statements in turn.
  unfoldable pub push_all : List IppAttribute → List Entry → List IppAttribute
  unfolding push
  push_all r [] = r
  push_all r (e ∷ es) = push_all (push r e) es
