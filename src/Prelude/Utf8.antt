-- ===== src/Prelude/Utf8.antt =====
-- The bytes of a text, which Rust holds in UTF-8.
use Prim.Native.Nat.{ℕ, ◌+◌, ◌/◌, ◌%◌}
use Prim.Native.Char.{code}
use Prim.Native.String.{String, [] as no_text, ◌∷◌ as starting}
use mathlib.Core.List.{List, [], ◌∷◌, ◌++◌}
use ippper_rs.Prelude.Tests.{ltb, if◌then◌else◌}

-- The bytes of a character, by its code.
abbrev char_bytes : ℕ → List ℕ
char_bytes c =
    if ltb c 128
    then c ∷ []
    else if ltb c 2048
    then (192 + c / 64) ∷ (128 + c % 64) ∷ []
    else if ltb c 65536
    then (224 + c / 4096) ∷ (128 + c / 64 % 64) ∷ (128 + c % 64) ∷ []
    else (240 + c / 262144) ∷ (128 + c / 4096 % 64) ∷ (128 + c / 64 % 64) ∷ (128 + c % 64) ∷ []

unfoldable pub utf8 : String → List ℕ
utf8 no_text = []
utf8 (starting c s) = char_bytes (code c) ++ utf8 s
