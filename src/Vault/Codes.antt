-- ===== src/Vault/Codes.antt =====
-- Reading a code that was printed (`RecoveryCode::format` and `RecoveryCode::parse` of
-- src/recovery.rs).
use terrapi_vault.Common.{
  ltb, leb, eqb, eqb_iff, Bool-cases, if-cases, bool_eq, option_eq, list_eq, string_eq, nat_eq,
  length, take, length-append, take-append, All, ℕ, zero, suc, ◌+◌, ◌-◌, ◌%◌, ◌<◌, ◌≡◌, refl, sym,
  ap, ◌∙◌, inl, inr, true, not, ◌&&◌, some, List, [], ◌∷◌, ◌++◌, arith,
}
use terrapi_vault.Vault.RecoveryCode.{
  shl, shr, drain, encode_from, base32_encode, base32_decode, crc16, to_be_bytes, dash, grouped,
  format, normalized, parsed, dropped, at_boundary, split_at, copied, parse_checked, parse_decoded,
  parse_split, parse_normalized, parse,
}
use terrapi_vault.Vault.Crc.{crc16_bound, to_be_bytes_lem, from_be_bytes-to_be_bytes}
use terrapi_vault.Vault.Symbols.{
  AreSymbols, normalized-AreSymbols, AreSymbols-append, AreSymbols-ascii,
}
use terrapi_vault.Vault.Base32.{base32_decode-encode}
use terrapi_vault.Vault.Lengths.{length-code, length-check}

-- The encoder writes symbols.
drain-AreSymbols : (fuel buffer bits : ℕ) → AreSymbols (drain fuel buffer bits).0
unfolding drain
drain-AreSymbols zero buffer bits = tt
drain-AreSymbols (suc fuel) buffer bits = elim (Bool-cases (leb 5 bits)) [
  | inl t ↦
      rw t
        ((shr buffer (bits - 5) % 32, omega arith, refl), drain-AreSymbols fuel buffer (bits - 5))
  | inr f ↦ rw f tt
]

encode_from-AreSymbols :
    (bytes : List ℕ) (buffer bits : ℕ) → AreSymbols (encode_from bytes buffer bits)
unfolding encode_from
encode_from-AreSymbols [] buffer bits =
    if-cases AreSymbols (ltb 0 bits) (λ _. ((shl buffer (5 - bits) % 32, omega arith, refl), tt))
      (λ _. tt)
encode_from-AreSymbols (b ∷ bytes) buffer bits =
    AreSymbols-append (drain (bits + 8) (shl buffer 8 + b) (bits + 8)).0 _
      (drain-AreSymbols (bits + 8) (shl buffer 8 + b) (bits + 8))
      (encode_from-AreSymbols bytes (shl buffer 8 + b)
        (drain (bits + 8) (shl buffer 8 + b) (bits + 8)).1)

-- Grouping only adds dashes, which are dropped again.
normalized-grouped :
    (i : ℕ) (s rest : List ℕ)
    → AreSymbols s
    → normalized (grouped i s ++ rest) ≡ s ++ normalized rest
unfolding grouped normalized
normalized-grouped i [] rest h = refl
normalized-grouped i (c ∷ s) rest (x, h) =
    let again = normalized-grouped (suc i) s rest h in
    let here : normalized ((c ∷ []) ++ (grouped (suc i) s ++ rest))
        ≡ c ∷ normalized (grouped (suc i) s ++ rest) =
      normalized-AreSymbols (c ∷ []) (grouped (suc i) s ++ rest) (x, tt) in
    elim (Bool-cases (ltb 0 i && eqb (i % 4) 0)) [
      | inl t ↦ rw t (here ∙ ap (λ l. c ∷ l) again)
      | inr f ↦ rw f (here ∙ ap (λ l. c ∷ l) again)
    ]

append_nil : (s : List ℕ) → s ++ [] ≡ s
append_nil [] = refl
append_nil (c ∷ s) = ap (λ l. c ∷ l) (append_nil s)

normalized-format :
    (code : List ℕ)
    → normalized (format code) ≡ base32_encode code ++ base32_encode (to_be_bytes (crc16 code))
unfolding format base32_encode normalized
normalized-format code =
    let check = base32_encode (to_be_bytes (crc16 code)) in
    let check_symbols : AreSymbols check = encode_from-AreSymbols (to_be_bytes (crc16 code)) 0 0 in
    normalized-grouped 0 (base32_encode code) (dash ∷ check) (encode_from-AreSymbols code 0 0)
    ∙ ap (λ l. base32_encode code ++ l)
        (ap normalized (sym (append_nil check))
          ∙ normalized-AreSymbols check [] check_symbols
          ∙ append_nil check)

take_at : (n : ℕ) (s t : List ℕ) → length s ≡ n → take n (s ++ t) ≡ s
take_at n s t l = ap (λ m. take m (s ++ t)) (sym l) ∙ take-append s t

dropped-append : (s t : List ℕ) → dropped (length s) (s ++ t) ≡ t
dropped-append [] t = refl
dropped-append (c ∷ s) t = dropped-append s t

dropped_at : (n : ℕ) (s t : List ℕ) → length s ≡ n → dropped n (s ++ t) ≡ t
dropped_at n s t l = ap (λ m. dropped m (s ++ t)) (sym l) ∙ dropped-append s t

pub ascii_boundary : (s : List ℕ) → All (λ c. c < 0x80) s → at_boundary s ≡ true
ascii_boundary [] h = refl
ascii_boundary (c ∷ s) (l, h) = low c l
  where
    low : (c : ℕ) → c < 0x80 → not (leb 0x80 c && leb c 0xBF) ≡ true
    low c l = ground arith

check_symbols : (code : List ℕ) → AreSymbols (base32_encode (to_be_bytes (crc16 code)))
unfolding base32_encode
check_symbols code = encode_from-AreSymbols (to_be_bytes (crc16 code)) 0 0

checked : (code : List ℕ) → length code ≡ 20 → parse_checked code (some (crc16 code)) ≡ parsed code
unfolding parse_checked copied
checked code l = rw ((eqb_iff (crc16 code) (crc16 code)).1 refl, l) refl

-- A code of twenty bytes is read back from what was printed for it.
pub parse-format :
    (code : List ℕ) → length code ≡ 20 → All (λ b. b < 256) code → parse (format code) ≡ parsed code
unfolding parse parse_normalized parse_decoded parse_split split_at
parse-format code l h =
    let payload = base32_encode code in
    let check = base32_encode (to_be_bytes (crc16 code)) in
    let long : length payload ≡ 32 = length-code code l in
    let short : length check ≡ 4 = length-check (crc16 code) in
    let whole : length (payload ++ check) ≡ 36 =
      let sum = length-append payload check in omega (arith, sum, long, short) in
    let boundary : at_boundary (dropped 32 (payload ++ check)) ≡ true =
      ap at_boundary (dropped_at 32 payload check long)
      ∙ ascii_boundary check (AreSymbols-ascii check (check_symbols code)) in
    let first_part : base32_decode (take 32 (payload ++ check)) ≡ some code =
      ap base32_decode (take_at 32 payload check long) ∙ base32_decode-encode code h in
    let last_part : base32_decode (dropped 32 (payload ++ check))
        ≡ some (to_be_bytes (crc16 code)) =
      ap base32_decode (dropped_at 32 payload check long)
      ∙ base32_decode-encode (to_be_bytes (crc16 code))
          (to_be_bytes_lem (crc16 code) (crc16_bound code)) in
    ap parse_normalized (normalized-format code)
    ∙ rw (whole, boundary, first_part, last_part, l, from_be_bytes-to_be_bytes (crc16 code))
        (checked code l)
