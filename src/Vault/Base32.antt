-- ===== src/Vault/Base32.antt =====
-- Decoding what was encoded (`base32_encode` and `base32_decode` of src/recovery.rs).
use terrapi_vault.Common.{
  leb, bool_eq, option_eq, list_eq, string_eq, nat_eq, All, ℕ, ◌+◌, ◌-◌, ◌*◌, ◌%◌, ◌<◌, ◌≡◌, refl,
  ap, ◌∙◌, true, false, some, List, [], ◌∷◌, arith,
}
use terrapi_vault.Vault.RecoveryCode.{
  symbol, shl, shr, drain, encode_from, base32_encode, and_then, take_value, decode_from,
  base32_decode,
}
use terrapi_vault.Vault.Symbols.{value-symbol}

-- One symbol is read: below eight bits nothing comes out, from eight bits on a byte.
read_symbol :
    (v : ℕ) (s : List ℕ) (buffer bits : ℕ)
    → v < 32
    → leb 8 (bits + 5) ≡ false
    → decode_from (symbol v ∷ s) buffer bits ≡ decode_from s (shl buffer 5 + v) (bits + 5)
unfolding decode_from
read_symbol v s buffer bits l b =
    ap (λ o. and_then o (take_value (decode_from s) buffer bits)) (value-symbol v l) ∙ rw b refl

read_byte :
    (v : ℕ) (s : List ℕ) (buffer bits : ℕ) (out : List ℕ)
    → v < 32
    → leb 8 (bits + 5) ≡ true
    → decode_from s (shl buffer 5 + v) (bits + 5 - 8) ≡ some out
    → decode_from (symbol v ∷ s) buffer bits
      ≡ some (shr (shl buffer 5 + v) (bits + 5 - 8) % 256 ∷ out)
unfolding decode_from
read_byte v s buffer bits out l b h =
    ap (λ o. and_then o (take_value (decode_from s) buffer bits)) (value-symbol v l)
    ∙ rw (b, h) refl

mod32 : (n : ℕ) → n % 32 < 32
mod32 n = omega arith

-- The last symbol gives back the byte that is owed.
end_lem :
    (B D : ℕ)
    → (decode_from (encode_from [] B 3) D 5 ≡ some ((D % 32 * 8 + B % 8) ∷ []))
      × (decode_from (encode_from [] B 1) D 7 ≡ some ((D % 128 * 2 + B % 2) ∷ []))
      × (decode_from (encode_from [] B 4) D 4 ≡ some ((D % 16 * 16 + B % 16) ∷ []))
      × (decode_from (encode_from [] B 2) D 6 ≡ some ((D % 64 * 4 + B % 4) ∷ []))
unfolding encode_from decode_from
end_lem B D = (
  read_byte (shl B 2 % 32) [] D 5 [] (mod32 (shl B 2)) refl refl
      ∙ ap (λ y. some (y ∷ [])) (omega arith),
  read_byte (shl B 4 % 32) [] D 7 [] (mod32 (shl B 4)) refl refl
      ∙ ap (λ y. some (y ∷ [])) (omega arith),
  read_byte (shl B 1 % 32) [] D 4 [] (mod32 (shl B 1)) refl refl
      ∙ ap (λ y. some (y ∷ [])) (omega arith),
  read_byte (shl B 3 % 32) [] D 6 [] (mod32 (shl B 3)) refl refl
      ∙ ap (λ y. some (y ∷ [])) (omega arith),
)

abbrev Bytes256 : List ℕ → Type 0
Bytes256 bytes = All (λ b. b < 256) bytes

-- The bytes that come out, from buffers that have more above them.
owed_zero :
    (B D x : ℕ) → x < 256 → (shl D 5 + shr (shl B 8 + x) 3 % 32) % 32 * 8 + (shl B 8 + x) % 8 ≡ x
owed_zero B D x l = omega arith

byte_three :
    (B D x : ℕ) → x < 256 → shr (shl D 5 + shr (shl B 8 + x) 6 % 32) 2 % 256 ≡ D % 32 * 8 + B % 8
byte_three B D x l = omega arith

owed_three :
    (B E x : ℕ)
    → x < 256
    → (shl E 5 + shr (shl B 8 + x) 1 % 32) % 128 * 2 + (shl B 8 + x) % 2 ≡ (E % 4 * 64) + x % 64
owed_three B E x l = omega arith

kept_three : (B D x : ℕ) → x < 256 → (shl D 5 + shr (shl B 8 + x) 6 % 32) % 4 * 64 + x % 64 ≡ x
kept_three B D x l = omega arith

byte_one :
    (B D x : ℕ) → x < 256 → shr (shl D 5 + shr (shl B 8 + x) 4 % 32) 4 % 256 ≡ D % 128 * 2 + B % 2
byte_one B D x l = omega arith

owed_one :
    (B D x : ℕ) → x < 256 → (shl D 5 + shr (shl B 8 + x) 4 % 32) % 16 * 16 + (shl B 8 + x) % 16 ≡ x
owed_one B D x l = omega arith

byte_four :
    (B D x : ℕ) → x < 256 → shr (shl D 5 + shr (shl B 8 + x) 7 % 32) 1 % 256 ≡ D % 16 * 16 + B % 16
byte_four B D x l = omega arith

owed_four :
    (B E x : ℕ)
    → x < 256
    → (shl E 5 + shr (shl B 8 + x) 2 % 32) % 64 * 4 + (shl B 8 + x) % 4 ≡ E % 2 * 128 + x % 128
owed_four B E x l = omega arith

kept_four : (B D x : ℕ) → x < 256 → (shl D 5 + shr (shl B 8 + x) 7 % 32) % 2 * 128 + x % 128 ≡ x
kept_four B D x l = omega arith

byte_two :
    (B D x : ℕ) → x < 256 → shr (shl D 5 + shr (shl B 8 + x) 5 % 32) 3 % 256 ≡ D % 64 * 4 + B % 4
byte_two B D x l = omega arith

owed_two :
    (B E x : ℕ) → x < 256 → shr (shl E 5 + shr (shl B 8 + x) 0 % 32) 0 % 256 ≡ E % 8 * 32 + x % 32
owed_two B E x l = omega arith

kept_two : (B D x : ℕ) → x < 256 → (shl D 5 + shr (shl B 8 + x) 5 % 32) % 8 * 32 + x % 32 ≡ x
kept_two B D x l = omega arith

-- The five states between two bytes: the decoder owes the byte that the encoder keeps a part of.
abbrev Returns : List ℕ → Type 0
Returns bytes =
    (B D : ℕ)
    → (decode_from (encode_from bytes B 0) D 0 ≡ some bytes)
      × (decode_from (encode_from bytes B 3) D 5 ≡ some ((D % 32 * 8 + B % 8) ∷ bytes))
      × (decode_from (encode_from bytes B 1) D 7 ≡ some ((D % 128 * 2 + B % 2) ∷ bytes))
      × (decode_from (encode_from bytes B 4) D 4 ≡ some ((D % 16 * 16 + B % 16) ∷ bytes))
      × (decode_from (encode_from bytes B 2) D 6 ≡ some ((D % 64 * 4 + B % 4) ∷ bytes))

-- Two bytes, each put in its place.
two_bytes :
    {a b x y : ℕ} {bytes : List ℕ} → a ≡ b → x ≡ y → some (a ∷ x ∷ bytes) ≡ some (b ∷ y ∷ bytes)
two_bytes {bytes = bytes} e f = cc

Returns-next : (x : ℕ) (bytes : List ℕ) → x < 256 → Returns bytes → Returns (x ∷ bytes)
unfolding encode_from drain
Returns-next x bytes l h B D =
    let next = shl B 8 + x in
    let rest = λ (E : ℕ). h next E in
    let one_more = λ (k : ℕ). shl D 5 + shr next k % 32 in
    (
      read_symbol (shr next 3 % 32) (encode_from bytes next 3) D 0 (mod32 (shr next 3)) refl
          ∙ (rest (one_more 3)).1
          ∙ ap (λ y. some (y ∷ bytes)) (owed_zero B D x l),
      read_byte (shr next 6 % 32) (symbol (shr next 1 % 32) ∷ encode_from bytes next 1) D 5 _
            (mod32 (shr next 6)) refl
            (read_symbol (shr next 1 % 32) (encode_from bytes next 1) (one_more 6) 2
                (mod32 (shr next 1)) refl
              ∙ (rest (shl (one_more 6) 5 + shr next 1 % 32)).2)
          ∙ two_bytes (byte_three B D x l) (owed_three B (one_more 6) x l ∙ kept_three B D x l),
      read_byte (shr next 4 % 32) (encode_from bytes next 4) D 7 _ (mod32 (shr next 4)) refl
            (rest (one_more 4)).3
          ∙ two_bytes (byte_one B D x l) (owed_one B D x l),
      read_byte (shr next 7 % 32) (symbol (shr next 2 % 32) ∷ encode_from bytes next 2) D 4 _
            (mod32 (shr next 7)) refl
            (read_symbol (shr next 2 % 32) (encode_from bytes next 2) (one_more 7) 1
                (mod32 (shr next 2)) refl
              ∙ (rest (shl (one_more 7) 5 + shr next 2 % 32)).4)
          ∙ two_bytes (byte_four B D x l) (owed_four B (one_more 7) x l ∙ kept_four B D x l),
      read_byte (shr next 5 % 32) (symbol (shr next 0 % 32) ∷ encode_from bytes next 0) D 6 _
            (mod32 (shr next 5)) refl
            (read_byte (shr next 0 % 32) (encode_from bytes next 0) (one_more 5) 3 bytes
              (mod32 (shr next 0)) refl (rest (shl (one_more 5) 5 + shr next 0 % 32)).0)
          ∙ two_bytes (byte_two B D x l) (owed_two B (one_more 5) x l ∙ kept_two B D x l),
    )

Returns-all : (bytes : List ℕ) → Bytes256 bytes → Returns bytes
unfolding encode_from decode_from
Returns-all [] h = λ B D. let ends = end_lem B D in (refl, ends.0, ends.1, ends.2, ends.3)
Returns-all (x ∷ bytes) (l, h) = Returns-next x bytes l (Returns-all bytes h)

-- Any bytes are decoded from their encoding.
pub base32_decode-encode :
    (bytes : List ℕ) → All (λ b. b < 256) bytes → base32_decode (base32_encode bytes) ≡ some bytes
unfolding base32_decode base32_encode
base32_decode-encode bytes h = (Returns-all bytes h 0 0).0
