-- ===== src/Prelude/Int.antt =====
-- Signed integers, and Rust's `i32` with its wrap-around. `negsuc n` is -(n + 1).
use Prim.Native.Nat.{ℕ, ◌+◌, ◌-◌, ◌%◌, ◌<◌}
use mathlib.Core.Path.{◌≡◌}
use mathlib.Core.Logic.{◌≢◌, ◌↔◌}
use mathlib.Core.Bool.{Bool, true, false}
use native.Mathlib.Omega.{arith}
use ippper_rs.Prelude.Tests.{ltb, leb, eqb, if◌then◌else◌}

pub data ℤ : Type 0 where
  pos : ℕ → ℤ
  negsuc : ℕ → ℤ

abbrev pub eqb_ℤ : ℤ → ℤ → Bool
eqb_ℤ (pos m) (pos n) = eqb m n
eqb_ℤ (negsuc m) (negsuc n) = eqb m n
eqb_ℤ _ _ = false

pub eqb_ℤ_iff : (a b : ℤ) → (eqb_ℤ a b ≡ true) ↔ (a ≡ b)
eqb_ℤ_iff a b = ground arith

-- The test `pos n >= x` of a count with an `i32`.
abbrev pub reaches : ℕ → ℤ → Bool
reaches n (pos x) = leb x n
reaches n (negsuc x) = true

-- `n as i32` for an unsigned n: the low 32 bits, read in two's complement.
unfoldable pub to_i32 : ℕ → ℤ
to_i32 n = let m = n % 4294967296 in if ltb m 2147483648 then pos m else negsuc (4294967295 - m)

-- The two's complement pattern of an `i32`.
unfoldable pub bits : ℤ → ℕ
bits (pos n) = n
bits (negsuc n) = 4294967295 - n

-- `fetch_add(1)` of an `AtomicI32` wraps around on overflow.
unfoldable pub wrapping_inc : ℤ → ℤ
unfolding to_i32 bits
wrapping_inc a = to_i32 (bits a + 1)

pub wrapping_inc-to_i32 : (n : ℕ) → wrapping_inc (to_i32 n) ≡ to_i32 (n + 1)
unfolding wrapping_inc
wrapping_inc-to_i32 n = ground arith

pub to_i32-injective : (m n : ℕ) → m < n → n < m + 4294967296 → to_i32 m ≢ to_i32 n
unfolding to_i32
to_i32-injective m n h k e = ground arith
