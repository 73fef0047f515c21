-- ===== src/Ipp/HashMap.antt =====
-- `std::collections::HashMap` with text keys. The program never reads the order of a map's
-- entries, so a map is an association list behind its laws.
use ippper_rs.Prelude.{
  String, ◌≡◌, Option, none, some, List, [], ◌∷◌, arith, ◌==◌, eq_iff, if◌then◌else◌,
}

abbrev pub HashMap {ℓ} : Type ℓ → Type ℓ
HashMap V = List (String × V)

module _ {ℓ} {V : Type ℓ} where
  unfoldable pub get : HashMap V → String → Option V
  get [] k = none
  get ((j, v) ∷ m) k = if j == k then some v else get m k

  -- What `remove` leaves behind.
  unfoldable pub without : HashMap V → String → HashMap V
  without [] k = []
  without ((j, v) ∷ m) k = let rest = without m k in if j == k then rest else (j, v) ∷ rest

  unfoldable pub insert : HashMap V → String → V → HashMap V
  unfolding without
  insert m k v = (k, v) ∷ without m k

  -- `extend`: the entries are inserted in turn.
  unfoldable pub extend : HashMap V → List (String × V) → HashMap V
  unfolding insert
  extend m [] = m
  extend m ((k, v) ∷ rest) = extend (insert m k v) rest

  pub get-without :
      (m : HashMap V) (k j : String) → get (without m k) j ≡ (if k == j then none else get m j)
  unfolding get without
  get-without [] k j = ground arith
  get-without ((i, v) ∷ m) k j =
      ground (arith, get-without m k j, eq_iff i k, eq_iff i j, eq_iff k j)

  pub get-insert :
      (m : HashMap V) (k j : String) (v : V)
      → get (insert m k v) j ≡ (if k == j then some v else get m j)
  unfolding get insert
  get-insert m k j v = ground (arith, get-without m k j)
