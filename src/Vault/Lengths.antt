-- ===== src/Vault/Lengths.antt =====
-- How many symbols an encoding has (`base32_encode` of src/recovery.rs).
use terrapi_vault.Common.{
  ltb, leb, ltb→lt, leb→le, Bool-cases, bool_eq, option_eq, list_eq, string_eq, nat_eq, length,
  length-append, ℕ, zero, suc, ◌+◌, ◌-◌, ◌*◌, ◌/◌, ◌≤◌, ◌<◌, ◌≡◌, inl, inr, false, List, [], ◌∷◌,
  arith,
}
use terrapi_vault.Vault.RecoveryCode.{shl, drain, encode_from, base32_encode, to_be_bytes}

-- The rounds of the encoder leave fewer than five bits.
drain_length :
    (fuel buffer bits : ℕ)
    → bits ≤ fuel
    → (5 * length (drain fuel buffer bits).0 + (drain fuel buffer bits).1 ≡ bits)
      × ((drain fuel buffer bits).1 < 5)
unfolding drain
drain_length zero buffer bits l = (omega (arith, l), omega (arith, l))
drain_length (suc fuel) buffer bits l = elim (Bool-cases (leb 5 bits)) [
  | inl t ↦
      let five = leb→le 5 bits t in
      let (x, y) = drain_length fuel buffer (bits - 5) (omega (arith, l, five)) in
      rw t (omega (arith, x, five), y)
  | inr f ↦ rw f (omega arith, few bits f)
]
  where
    few : (n : ℕ) → leb 5 n ≡ false → n < 5
    few n f = ground arith

length-encode_from :
    (bytes : List ℕ) (buffer bits : ℕ)
    → bits < 5
    → length (encode_from bytes buffer bits) ≡ (8 * length bytes + bits + 4) / 5
unfolding encode_from
length-encode_from [] buffer bits l = elim (Bool-cases (ltb 0 bits)) [
  | inl t ↦ let some_bits = ltb→lt 0 bits t in rw t (omega (arith, l, some_bits))
  | inr f ↦ rw f (let no_bits = none_left bits f in omega (arith, no_bits))
]
  where
    none_left : (n : ℕ) → ltb 0 n ≡ false → n ≡ 0
    none_left n f = ground arith
length-encode_from (b ∷ bytes) buffer bits l =
    let next = shl buffer 8 + b in
    let (x, y) = drain_length (bits + 8) next (bits + 8) (omega arith) in
    let left = (drain (bits + 8) next (bits + 8)).1 in
    let out = (drain (bits + 8) next (bits + 8)).0 in
    let rest = length-encode_from bytes next left y in
    let sum = length-append out (encode_from bytes next left) in
    let split = fifths (length out) left bits (length bytes) x in omega (arith, sum, rest, split)
  where
    fifths : (o k b n : ℕ) → 5 * o + k ≡ b + 8 → o + (8 * n + k + 4) / 5 ≡ (8 * suc n + b + 4) / 5
    fifths o k b n x = omega (arith, x)

pub length-code : (code : List ℕ) → length code ≡ 20 → length (base32_encode code) ≡ 32
unfolding base32_encode
length-code code l = let n = length-encode_from code 0 0 (omega arith) in omega (arith, n, l)

pub length-check : (n : ℕ) → length (base32_encode (to_be_bytes n)) ≡ 4
unfolding base32_encode
length-check n = length-encode_from (to_be_bytes n) 0 0 (omega arith)
