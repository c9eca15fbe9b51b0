-- ===== src/Common/Text.antt =====
-- Texts: `str::len` counts bytes, and `trim().is_empty()` asks whether every character is a
-- Unicode white space. Byte sequences (tokens, encodings, digests of a serialisation) are lists.
use Prim.Native.Nat.{ℕ}
use Prim.Native.Char.{code}
use Prim.Native.String.{String, len, [], ◌∷◌}
use mathlib.Core.Bool.{Bool, true, ◌&&◌, ◌||◌}
use mathlib.Core.List.{List}
use terrapi_vault.Common.Tests.{leb, eqb}

abbrev pub Bytes : Type 0
Bytes = List ℕ

-- The code points with the property White_Space.
abbrev pub is_whitespace : ℕ → Bool
is_whitespace c =
    leb 9 c && leb c 13
    || eqb c 0x20
    || eqb c 0x85
    || eqb c 0xA0
    || eqb c 0x1680
    || leb 0x2000 c && leb c 0x200A
    || eqb c 0x2028
    || eqb c 0x2029
    || eqb c 0x202F
    || eqb c 0x205F
    || eqb c 0x3000

-- `value.trim().is_empty()`
unfoldable pub is_blank : String → Bool
is_blank [] = true
is_blank (c ∷ s) = is_whitespace (code c) && is_blank s

-- `value.len()`
abbrev pub byte_len : String → ℕ
byte_len = len
