-- ===== src/Prelude/Options.antt =====
-- The methods of Rust's `Option` that the source calls, open everywhere.
use mathlib.Core.Option.{Option, none, some}

module _ {ℓ κ} {A : Type ℓ} {B : Type κ} where
  abbrev pub and_then : Option A → (A → Option B) → Option B
  and_then none f = none
  and_then (some a) f = f a

  abbrev pub map_or : Option A → B → (A → B) → B
  map_or none b f = b
  map_or (some a) b f = f a

module _ {ℓ} {A : Type ℓ} where
  abbrev pub or_else : Option A → Option A → Option A
  or_else none o = o
  or_else (some a) o = some a
