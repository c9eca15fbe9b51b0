-- ===== src/Vault/Accepted.antt =====
-- Texts that are read as a code, and texts on which reading goes wrong (`RecoveryCode::parse` of
-- src/recovery.rs).
use terrapi_vault.Common.{
  ltb, eqb, lt→ltb, eqb_iff, if-cases, if-split, bool_eq, option_eq, list_eq, string_eq, nat_eq,
  length, take, All, ℕ, zero, suc, ◌<◌, ◌≡◌, refl, ap, ◌∙◌, ◌↔◌, inl, inr, false, not, ◌||◌, Option,
  none, some, List, [], ◌∷◌, arith,
}
use terrapi_vault.Common.Text.{is_whitespace}
use terrapi_vault.Vault.RecoveryCode.{
  base32_decode, crc16, dash, to_ascii_uppercase, unfold_glyph, utf8, normalized, parsed,
  recovery_code_invalid, panicked, dropped, split_at, from_be_bytes, copied, parse_checked,
  parse_decoded, parse_split, parse_normalized, parse,
}
use terrapi_vault.Vault.Codes.{ascii_boundary}
use terrapi_vault.Vault.Parts.{
  parse_decoded-Checked, parse_decoded_ends, split_at-some, decode_from-at_boundary,
}

some_list : (a b : List ℕ) → some a ≡ some b → a ≡ b
some_list a b h = cc

-- What a reading has checked.
pub record Reads (input code : List ℕ) : Type 0 where
  pub whole : length (normalized input) ≡ 36
  pub twenty : length code ≡ 20
  pub decoded : base32_decode (take 32 (normalized input)) ≡ some code
  pub check : List ℕ
  pub check_decoded : base32_decode (dropped 32 (normalized input)) ≡ some check
  pub same_checksum : from_be_bytes check ≡ some (crc16 code)

parse-Reads : (input code : List ℕ) → parse input ≡ parsed code → Reads input code
unfolding parse parse_normalized parse_split
parse-Reads input code h =
    let norm = normalized input in
    elim (if-split (not (eqb (length norm) 36)) (recovery_code_invalid "expected 36 characters") _
      h) [ inl (_, clash) ↦ cc | inr (l, h1) ↦ cases (split_at 32 norm) refl (ground arith) h1 ]
  where
    cases :
        (o : Option (List ℕ × List ℕ))
        → split_at 32 (normalized input) ≡ o
        → length (normalized input) ≡ 36
        → parse_split o ≡ parsed code
        → Reads input code
    cases none e l k = cc
    cases (some (payload, check)) e l k =
        let (here, there) = split_at-some (normalized input) payload check e in
        let (twenty, is, rest) =
          parse_decoded-Checked (base32_decode payload) (base32_decode check) code k in
        let (c, c_is, sum) = rest in
        record {
          whole = l;
          twenty = twenty;
          decoded = ap base32_decode here ∙ is;
          check = c;
          check_decoded = ap base32_decode there ∙ c_is;
          same_checksum = sum;
        }

Reads-parse : (input code : List ℕ) → Reads input code → parse input ≡ parsed code
unfolding parse parse_normalized parse_split split_at parse_decoded parse_checked copied
    base32_decode
Reads-parse input code r =
    let starts =
      decode_from-at_boundary (dropped 32 (normalized input)) r.check 0 0 r.check_decoded in
    let long : ltb (length r.check) 2 ≡ false = two_bytes r.check (crc16 code) r.same_checksum in
    rw
      (
        r.whole,
        starts,
        r.decoded,
        r.check_decoded,
        r.twenty,
        long,
        r.same_checksum,
        (eqb_iff (crc16 code) (crc16 code)).1 refl,
        r.twenty,
      )
      refl
  where
    two_bytes : (c : List ℕ) (n : ℕ) → from_be_bytes c ≡ some n → ltb (length c) 2 ≡ false
    two_bytes [] n h = cc
    two_bytes (a ∷ []) n h = cc
    two_bytes (a ∷ b ∷ rest) n h = ground arith

-- A text is read as a code exactly when it has 36 bytes without its separators, the first 32 of them
-- stand for the code, which has twenty bytes, and the last four for bytes that begin with its checksum.
pub parse_iff : (input code : List ℕ) → (parse input ≡ parsed code) ↔ Reads input code
parse_iff input code = (parse-Reads input code, Reads-parse input code)

glyph_low : (c : ℕ) → c < 0x80 → unfold_glyph (to_ascii_uppercase c) < 0x80
unfolding to_ascii_uppercase
glyph_low c l = ground arith

-- What is left of an ASCII text is ASCII.
normalized_ascii :
    (input : List ℕ) → All (λ c. c < 0x80) input → All (λ c. c < 0x80) (normalized input)
unfolding normalized utf8 to_ascii_uppercase
normalized_ascii [] h = tt
normalized_ascii (c ∷ input) (l, h) =
    let rest = normalized_ascii input h in
    let low = glyph_low c l in
    if-cases (All (λ c. c < 0x80)) (eqb c dash || is_whitespace c) (λ _. rest)
      (λ _. rw (lt→ltb (unfold_glyph (to_ascii_uppercase c)) 0x80 low) (low, rest))

dropped_ascii : (n : ℕ) (s : List ℕ) → All (λ c. c < 0x80) s → All (λ c. c < 0x80) (dropped n s)
dropped_ascii zero s h = h
dropped_ascii (suc n) [] h = h
dropped_ascii (suc n) (c ∷ s) (l, h) = dropped_ascii n s h

-- No ASCII text makes the parser panic.
pub parse_ascii_lem : (input : List ℕ) → All (λ c. c < 0x80) input → ¬ (parse input ≡ panicked)
unfolding parse parse_normalized split_at parse_split
parse_ascii_lem input h r =
    let norm = normalized input in
    let boundary =
      ascii_boundary (dropped 32 norm) (dropped_ascii 32 norm (normalized_ascii input h)) in
    elim (if-split (not (eqb (length norm) 36)) (recovery_code_invalid "expected 36 characters") _
      r) [
        | inl (_, clash) ↦ cc
        | inr (l, h1) ↦
            let whole : length norm ≡ 36 = ground arith in
            parse_decoded_ends (base32_decode (take 32 norm)) (base32_decode (dropped 32 norm))
              (rw (whole, boundary) at h1)
      ]
