-- ===== src/Prelude/Text.antt =====
-- The methods of Rust's `str` that the source calls on characters, and decimal numbers.
use Prim.Native.Nat.{ℕ, zero, suc, ◌+◌, ◌-◌, ◌*◌, ◌/◌, ◌%◌, ◌<◌}
use Prim.Native.Char.{code}
use Prim.Native.String.{String, [], ◌∷◌, ◌++◌}
use mathlib.Core.Path.{◌≡◌, refl, sym, ap, ◌∙◌}
use mathlib.Core.Logic.{◌≢◌, inl, inr}
use native.Mathlib.Omega.{arith}
use text.Mathlib.TextLemmas.{nil-append, cons-append, append_cancel_left}
use mathlib.Core.Bool.{Bool, true, false, ◌&&◌, ◌||◌}
use ippper_rs.Prelude.Tests.{eqb, ltb, if◌then◌else◌, Bool-cases}
use ippper_rs.Prelude.Int.{ℤ, pos, negsuc}

abbrev pub is_empty : String → Bool
is_empty [] = true
is_empty (c ∷ s) = false

-- `starts_with` of a character, which is given by its code.
abbrev pub starts_with_char : ℕ → String → Bool
starts_with_char k [] = false
starts_with_char k (c ∷ s) = eqb (code c) k

-- `contains` of a character.
unfoldable pub contains_char : ℕ → String → Bool
contains_char k [] = false
contains_char k (c ∷ s) = eqb (code c) k || contains_char k s

-- `trim_start_matches` and `trim_end_matches` of a character.
unfoldable pub trim_start : ℕ → String → String
trim_start k [] = []
trim_start k (c ∷ s) = let rest = trim_start k s in if eqb (code c) k then rest else c ∷ s

unfoldable pub trim_end : ℕ → String → String
trim_end k [] = []
trim_end k (c ∷ s) =
    let rest = trim_end k s in if eqb (code c) k && is_empty rest then [] else c ∷ rest

-- `split(c).last()`: what stands behind the last such character, or the whole text.
unfoldable pub last_piece : ℕ → String → String
unfolding contains_char
last_piece k [] = []
last_piece k (c ∷ s) =
    let later = last_piece k s in
    if contains_char k s then later else if eqb (code c) k then s else c ∷ s

abbrev digit : ℕ → String
digit zero = "0"
digit (suc zero) = "1"
digit (suc (suc zero)) = "2"
digit (suc (suc (suc zero))) = "3"
digit (suc (suc (suc (suc zero)))) = "4"
digit (suc (suc (suc (suc (suc zero))))) = "5"
digit (suc (suc (suc (suc (suc (suc zero)))))) = "6"
digit (suc (suc (suc (suc (suc (suc (suc zero))))))) = "7"
digit (suc (suc (suc (suc (suc (suc (suc (suc zero)))))))) = "8"
digit _ = "9"

-- `{}` of an unsigned number; n + 1 digits are enough for a number below 10 ^ (n + 1).
unfoldable pub decimal : ℕ → ℕ → String
decimal zero n = digit (n % 10)
decimal (suc fuel) n =
    let front = decimal fuel (n / 10) in if ltb n 10 then digit n else front ++ digit (n % 10)

-- `{}` of an `i32`, which has ten digits at most.
unfoldable pub show_i32 : ℤ → String
unfolding decimal
show_i32 (pos n) = decimal 9 n
show_i32 (negsuc n) = "-" ++ decimal 9 (suc n)

pub starts_with_char-append :
    (k : ℕ) (s t : String)
    → starts_with_char k (s ++ t)
      ≡ (if is_empty s then starts_with_char k t else starts_with_char k s)
starts_with_char-append k [] t = rw nil-append refl
starts_with_char-append k (c ∷ s) t = rw cons-append refl

pub is_empty-append : (s t : String) → is_empty (s ++ t) ≡ (is_empty s && is_empty t)
is_empty-append [] t = rw nil-append refl
is_empty-append (c ∷ s) t = rw cons-append refl

-- The number that digits stand for, behind a number that has been read.
unfoldable read : ℕ → String → ℕ
read acc [] = acc
read acc (c ∷ s) = read (10 * acc + (code c - 48)) s

read-append : (acc : ℕ) (s t : String) → read acc (s ++ t) ≡ read (read acc s) t
unfolding read
read-append acc [] t = rw nil-append refl
read-append acc (c ∷ s) t = rw cons-append (read-append (10 * acc + (code c - 48)) s t)

read-digit : (acc d : ℕ) → d < 10 → read acc (digit d) ≡ 10 * acc + d
unfolding read
read-digit acc zero lt = omega arith
read-digit acc (suc zero) lt = omega arith
read-digit acc (suc (suc zero)) lt = omega arith
read-digit acc (suc (suc (suc zero))) lt = omega arith
read-digit acc (suc (suc (suc (suc zero)))) lt = omega arith
read-digit acc (suc (suc (suc (suc (suc zero))))) lt = omega arith
read-digit acc (suc (suc (suc (suc (suc (suc zero)))))) lt = omega arith
read-digit acc (suc (suc (suc (suc (suc (suc (suc zero))))))) lt = omega arith
read-digit acc (suc (suc (suc (suc (suc (suc (suc (suc zero)))))))) lt = omega arith
read-digit acc (suc (suc (suc (suc (suc (suc (suc (suc (suc n))))))))) lt = omega arith

minus-digit : (d : ℕ) → starts_with_char 45 (digit d) ≡ false
minus-digit zero = refl
minus-digit (suc zero) = refl
minus-digit (suc (suc zero)) = refl
minus-digit (suc (suc (suc zero))) = refl
minus-digit (suc (suc (suc (suc zero)))) = refl
minus-digit (suc (suc (suc (suc (suc zero))))) = refl
minus-digit (suc (suc (suc (suc (suc (suc zero)))))) = refl
minus-digit (suc (suc (suc (suc (suc (suc (suc zero))))))) = refl
minus-digit (suc (suc (suc (suc (suc (suc (suc (suc zero)))))))) = refl
minus-digit (suc (suc (suc (suc (suc (suc (suc (suc (suc n))))))))) = refl

-- The numbers of fuel + 1 digits.
abbrev limit : ℕ → ℕ
limit zero = 10
limit (suc fuel) = 10 * limit fuel

read-decimal : (fuel n : ℕ) → n < limit fuel → read 0 (decimal fuel n) ≡ n
unfolding decimal
read-decimal zero n lt = read-digit 0 (n % 10) (omega arith) ∙ omega arith
read-decimal (suc fuel) n lt = elim (Bool-cases (ltb n 10)) [
  | inl small ↦ rw small (read-digit 0 n (ground arith) ∙ omega arith)
  | inr large ↦ rw large (
      read-append 0 (decimal fuel (n / 10)) (digit (n % 10))
      ∙ read-digit (read 0 (decimal fuel (n / 10))) (n % 10) (omega arith)
      ∙ omega (arith, read-decimal fuel (n / 10) (omega arith)))
]

minus-decimal : (fuel n : ℕ) → starts_with_char 45 (decimal fuel n) ≡ false
unfolding decimal
minus-decimal zero n = minus-digit (n % 10)
minus-decimal (suc fuel) n = ground (
  arith,
  minus-digit n,
  minus-digit (n % 10),
  minus-decimal fuel (n / 10),
  starts_with_char-append 45 (decimal fuel (n / 10)) (digit (n % 10)),
)

-- The numbers that ten digits are enough for.
abbrev pub IsShort : ℤ → Type 0
IsShort (pos n) = n < 10000000000
IsShort (negsuc n) = n + 1 < 10000000000

decimal-injective :
    (m n : ℕ) → m < 10000000000 → n < 10000000000 → decimal 9 m ≡ decimal 9 n → m ≡ n
decimal-injective m n lt lt' e = sym (read-decimal 9 m lt) ∙ ap (read 0) e ∙ read-decimal 9 n lt'

no_minus : (m : ℕ) (t : String) → decimal 9 m ≢ "-" ++ t
no_minus m t e =
    let starts : starts_with_char 45 ("-" ++ t) ≡ true = starts_with_char-append 45 "-" t in
    ground (arith, minus-decimal 9 m, ap (starts_with_char 45) e)

pub show_i32-injective : (a b : ℤ) → IsShort a → IsShort b → show_i32 a ≡ show_i32 b → a ≡ b
unfolding show_i32
show_i32-injective (pos m) (pos n) short short' e = ap pos (decimal-injective m n short short' e)
show_i32-injective (pos m) (negsuc n) short short' e = absurd (no_minus m _ e)
show_i32-injective (negsuc m) (pos n) short short' e = absurd (no_minus n _ (sym e))
show_i32-injective (negsuc m) (negsuc n) short short' e =
    let same =
      decimal-injective (suc m) (suc n) (omega arith) (omega arith)
        (append_cancel_left "-" _ _ e) in
    ap negsuc (omega (arith, same))
