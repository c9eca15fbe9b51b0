-- ===== src/Vault/RecoveryCode.antt =====
-- Recovery codes (src/recovery.rs): base32 with its 32-bit buffer, the checksum, `format` and `parse`.
-- A text is the list of its code points, and a `String` that is cut by bytes the list of its bytes.
use terrapi_vault.Common.{
  ltb, leb, eqb, if◌then◌else◌, bool_eq, option_eq, list_eq, string_eq, nat_eq, length, take, ℕ,
  zero, suc, ◌+◌, ◌-◌, ◌*◌, ◌/◌, ◌%◌, ◌^◌, String, Bool, true, not, ◌&&◌, ◌||◌, Option, none, some,
  List, [], ◌∷◌, ◌++◌,
}
use terrapi_vault.Common.Text.{is_whitespace}

-- "0123456789ABCDEFGHJKMNPQRSTVWXYZ"
abbrev pub alphabet : List ℕ
alphabet =
    48 ∷ 49 ∷ 50 ∷ 51 ∷ 52 ∷ 53 ∷ 54 ∷ 55 ∷ 56 ∷ 57 ∷ 65 ∷ 66 ∷ 67 ∷ 68 ∷ 69 ∷ 70 ∷ 71 ∷ 72 ∷ 74
    ∷ 75 ∷ 77 ∷ 78 ∷ 80 ∷ 81 ∷ 82 ∷ 83 ∷ 84 ∷ 86 ∷ 87 ∷ 88 ∷ 89 ∷ 90 ∷ []

-- The element at an index that is in range.
abbrev pub element : List ℕ → ℕ → ℕ
element [] i = 0
element (x ∷ xs) zero = x
element (x ∷ xs) (suc i) = element xs i

unfoldable pub symbol : ℕ → ℕ
symbol v = element alphabet v

-- `iter().position(|&a| a == ch)`
abbrev pub position : ℕ → List ℕ → Option ℕ
position ch [] = none
position ch (a ∷ rest) =
    let more = position ch rest in
    if eqb a ch then some 0 else elim more [ none ↦ none | some i ↦ some (suc i) ]

unfoldable pub value : ℕ → Option ℕ
value ch = position ch alphabet

-- `a << k` on `u32`, and `a >> k`.
abbrev pub shl : ℕ → ℕ → ℕ
shl a k = (a * 2 ^ k) % 2 ^ 32

abbrev pub shr : ℕ → ℕ → ℕ
shr a k = a / 2 ^ k

-- `while bits >= 5` in `base32_encode`: what it pushes, and the bits that are left. A round takes
-- five of them, so the bits are fuel enough.
unfoldable pub drain : (fuel buffer bits : ℕ) → List ℕ × ℕ
drain zero buffer bits = ([], bits)
drain (suc fuel) buffer bits =
    let (out, left) = drain fuel buffer (bits - 5) in
    if leb 5 bits then (symbol (shr buffer (bits - 5) % 32) ∷ out, left) else ([], bits)

-- `base32_encode`, from a buffer on.
unfoldable pub encode_from : List ℕ → (buffer bits : ℕ) → List ℕ
encode_from [] buffer bits = if ltb 0 bits then symbol (shl buffer (5 - bits) % 32) ∷ [] else []
encode_from (b ∷ bytes) buffer bits =
    let next = shl buffer 8 + b in
    let (out, left) = drain (bits + 8) next (bits + 8) in out ++ encode_from bytes next left

unfoldable pub base32_encode : List ℕ → List ℕ
base32_encode bytes = encode_from bytes 0 0

abbrev pub and_then : {A B : Type 0} → Option A → (A → Option B) → Option B
and_then none next = none
and_then (some a) next = next a

-- The end of a round of `base32_decode`, before the rest of the text is decoded.
abbrev pub take_value :
    (rest : (buffer bits : ℕ) → Option (List ℕ)) (buffer bits v : ℕ) → Option (List ℕ)
take_value rest buffer bits v =
    let next = shl buffer 5 + v in
    if leb 8 (bits + 5)
    then and_then (rest next (bits + 5 - 8)) (λ out. some (shr next (bits + 5 - 8) % 256 ∷ out))
    else rest next (bits + 5)

-- `base32_decode`, from a buffer on.
unfoldable pub decode_from : List ℕ → (buffer bits : ℕ) → Option (List ℕ)
decode_from [] buffer bits = some []
decode_from (ch ∷ s) buffer bits = and_then (value ch) (take_value (decode_from s) buffer bits)

unfoldable pub base32_decode : List ℕ → Option (List ℕ)
base32_decode s = decode_from s 0 0

-- `a ^ b` on `n` bits.
unfoldable pub bit_xor : (n a b : ℕ) → ℕ
bit_xor zero a b = 0
bit_xor (suc n) a b = (a + b) % 2 + 2 * bit_xor n (a / 2) (b / 2)

-- `for _ in 0..8` of `crc16`, the rounds counted down.
unfoldable pub crc_rounds : ℕ → ℕ → ℕ
crc_rounds zero crc = crc
crc_rounds (suc n) crc =
    crc_rounds n
      (if eqb (crc / 2 ^ 15 % 2) 1 then bit_xor 16 (crc * 2 % 2 ^ 16) 0x1021 else crc * 2 % 2 ^ 16)

unfoldable pub crc_from : ℕ → List ℕ → ℕ
crc_from crc [] = crc
crc_from crc (b ∷ bytes) = crc_from (crc_rounds 8 (bit_xor 16 crc (b * 256 % 2 ^ 16))) bytes

unfoldable pub crc16 : List ℕ → ℕ
crc16 bytes = crc_from 0xFFFF bytes

-- `u16::to_be_bytes`
abbrev pub to_be_bytes : ℕ → List ℕ
to_be_bytes n = n / 256 ∷ n % 256 ∷ []

abbrev pub dash : ℕ
dash = 45

-- The groups of four that `format` writes, from an index on.
unfoldable pub grouped : ℕ → List ℕ → List ℕ
grouped i [] = []
grouped i (ch ∷ payload) =
    let rest = grouped (suc i) payload in
    if ltb 0 i && eqb (i % 4) 0 then dash ∷ ch ∷ rest else ch ∷ rest

unfoldable pub format : List ℕ → List ℕ
format code = grouped 0 (base32_encode code) ++ dash ∷ base32_encode (to_be_bytes (crc16 code))

unfoldable pub to_ascii_uppercase : ℕ → ℕ
to_ascii_uppercase c = if leb 97 c && leb c 122 then c - 32 else c

-- The look-alikes O, I and L.
abbrev pub unfold_glyph : ℕ → ℕ
unfold_glyph c = if eqb c 79 then 48 else if eqb c 73 || eqb c 76 then 49 else c

-- The bytes of a character in UTF-8.
unfoldable pub utf8 : ℕ → List ℕ
utf8 c =
    if ltb c 0x80
    then c ∷ []
    else if ltb c 0x800
    then (0xC0 + c / 64) ∷ (0x80 + c % 64) ∷ []
    else if ltb c 0x10000
    then (0xE0 + c / 4096) ∷ (0x80 + c / 64 % 64) ∷ (0x80 + c % 64) ∷ []
    else (0xF0 + c / 262144) ∷ (0x80 + c / 4096 % 64) ∷ (0x80 + c / 64 % 64) ∷ (0x80 + c % 64) ∷ []

unfoldable pub normalized : List ℕ → List ℕ
normalized [] = []
normalized (ch ∷ input) =
    let rest = normalized input in
    if eqb ch dash || is_whitespace ch
    then rest
    else utf8 (unfold_glyph (to_ascii_uppercase ch)) ++ rest

-- `Result<RecoveryCode>`, or a panic.
pub data Parsed : Type 0 where
  parsed : (code : List ℕ) → Parsed
  recovery_code_invalid : (message : String) → Parsed
  panicked : Parsed

abbrev pub dropped : ℕ → List ℕ → List ℕ
dropped zero xs = xs
dropped (suc n) [] = []
dropped (suc n) (x ∷ xs) = dropped n xs

-- No character goes on at the first of these bytes.
abbrev pub at_boundary : List ℕ → Bool
at_boundary [] = true
at_boundary (b ∷ rest) = not (leb 0x80 b && leb b 0xBF)

-- `str::split_at`, which panics (`none`) past the end of the text and within a character.
unfoldable pub split_at : ℕ → List ℕ → Option (List ℕ × List ℕ)
split_at n s =
    if leb n (length s) && at_boundary (dropped n s) then some (take n s, dropped n s) else none

-- `u16::from_be_bytes([check[0], check[1]])`, which panics (`none`) on an index out of range.
abbrev pub from_be_bytes : List ℕ → Option ℕ
from_be_bytes [] = none
from_be_bytes (a ∷ []) = none
from_be_bytes (a ∷ b ∷ rest) = some (a * 256 + b)

-- `copy_from_slice` into twenty bytes, which panics on another length.
unfoldable pub copied : List ℕ → Parsed
copied payload = if eqb (length payload) 20 then parsed payload else panicked

-- The comparison with the checksum that the code carries.
unfoldable pub parse_checked : List ℕ → Option ℕ → Parsed
parse_checked payload none = panicked
parse_checked payload (some got) =
    if eqb got (crc16 payload) then copied payload else recovery_code_invalid "checksum mismatch"

unfoldable pub parse_decoded : Option (List ℕ) → Option (List ℕ) → Parsed
parse_decoded none check = recovery_code_invalid "illegal character"
parse_decoded (some payload) none = recovery_code_invalid "illegal character"
parse_decoded (some payload) (some check) =
    if not (eqb (length payload) 20) || ltb (length check) 2
    then recovery_code_invalid "wrong decoded length"
    else parse_checked payload (from_be_bytes check)

unfoldable pub parse_split : Option (List ℕ × List ℕ) → Parsed
parse_split none = panicked
parse_split (some (payload, check)) = parse_decoded (base32_decode payload) (base32_decode check)

unfoldable pub parse_normalized : List ℕ → Parsed
parse_normalized norm =
    if not (eqb (length norm) 36)
    then recovery_code_invalid "expected 36 characters"
    else parse_split (split_at 32 norm)

unfoldable pub parse : List ℕ → Parsed
parse input = parse_normalized (normalized input)
