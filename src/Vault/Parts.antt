-- ===== src/Vault/Parts.antt =====
-- The parts of `RecoveryCode::parse` (src/recovery.rs): the cut, the decoding and the checksum.
use terrapi_vault.Common.{
  ltb, leb, eqb, eqb_iff, if-split, Option-cases, bool_eq, option_eq, list_eq, string_eq, nat_eq,
  length, take, any, ℕ, ◌≤◌, ◌≡◌, refl, sym, ap, subst, ◌∙◌, inl, inr, Bool, true, false, not, ◌&&◌,
  ◌||◌, Option, none, some, List, [], ◌∷◌, arith,
}
use terrapi_vault.Vault.RecoveryCode.{
  alphabet, position, value, decode_from, crc16, parsed, panicked, dropped, at_boundary, split_at,
  from_be_bytes, copied, parse_checked, parse_decoded,
}

-- What the end of the parser has checked.
abbrev pub Checked : (payload check : Option (List ℕ)) (code : List ℕ) → Type 0
Checked payload check code =
    (length code ≡ 20)
    × (payload ≡ some code)
    × ((c : List ℕ) × (check ≡ some c) × (from_be_bytes c ≡ some (crc16 code)))

parse_checked-parsed :
    (payload code : List ℕ) (o : Option ℕ)
    → parse_checked payload o ≡ parsed code
    → (payload ≡ code) × (o ≡ some (crc16 code))
unfolding parse_checked copied
parse_checked-parsed payload code none h = cc
parse_checked-parsed payload code (some got) h =
    elim (if-split (eqb got (crc16 payload)) (copied payload) _ h) [
      | inr (_, clash) ↦ cc
      | inl (t, h1) ↦ elim (if-split (eqb (length payload) 20) (parsed payload) panicked h1) [
        | inr (_, clash) ↦ cc
        | inl (_, e) ↦
            let same : payload ≡ code = cc in
            (same, ap some ((eqb_iff got (crc16 payload)).0 t ∙ ap crc16 same))
      ]
    ]

two_lengths : (a b : ℕ) → (not (eqb a 20) || ltb b 2) ≡ false → (a ≡ 20) × (2 ≤ b)
two_lengths a b h = ground arith

pub parse_decoded-Checked :
    (payload check : Option (List ℕ)) (code : List ℕ)
    → parse_decoded payload check ≡ parsed code
    → Checked payload check code
unfolding parse_decoded
parse_decoded-Checked none check code h = cc
parse_decoded-Checked (some payload) none code h = cc
parse_decoded-Checked (some payload) (some check) code h =
    elim (if-split (not (eqb (length payload) 20) || ltb (length check) 2) _ _ h) [
      | inl (_, clash) ↦ cc
      | inr (l, h1) ↦
          let (same, sum) = parse_checked-parsed payload code (from_be_bytes check) h1 in
          let (twenty, _) = two_lengths (length payload) (length check) l in
          (ap length (sym same) ∙ twenty, ap some same, (check, refl, sum))
    ]

-- There are two bytes to read the checksum from.
from_be_bytes_lem : (c : List ℕ) → 2 ≤ length c → ¬ (from_be_bytes c ≡ none)
from_be_bytes_lem [] l h = absurd (omega (arith, l))
from_be_bytes_lem (a ∷ []) l h = absurd (omega (arith, l))
from_be_bytes_lem (a ∷ b ∷ rest) l h = cc

parse_checked_ends :
    (payload : List ℕ) (o : Option ℕ)
    → length payload ≡ 20
    → ¬ (o ≡ none)
    → ¬ (parse_checked payload o ≡ panicked)
unfolding parse_checked copied
parse_checked_ends payload none l n h = n refl
parse_checked_ends payload (some got) l n h =
    elim (if-split (eqb got (crc16 payload)) (copied payload) _ h) [
      | inr (_, clash) ↦ cc
      | inl (_, h1) ↦ elim (if-split (eqb (length payload) 20) (parsed payload) panicked h1) [
        | inl (_, clash) ↦ cc
        | inr (f, _) ↦ absurd (ground arith)
      ]
    ]

pub parse_decoded_ends :
    (payload check : Option (List ℕ)) → ¬ (parse_decoded payload check ≡ panicked)
unfolding parse_decoded
parse_decoded_ends none check h = cc
parse_decoded_ends (some payload) none h = cc
parse_decoded_ends (some payload) (some check) h =
    elim (if-split (not (eqb (length payload) 20) || ltb (length check) 2) _ _ h) [
      | inl (_, clash) ↦ cc
      | inr (l, h1) ↦
          let (twenty, two) = two_lengths (length payload) (length check) l in
          parse_checked_ends payload (from_be_bytes check) twenty (from_be_bytes_lem check two) h1
    ]

pub split_at-some :
    (norm payload check : List ℕ)
    → split_at 32 norm ≡ some (payload, check)
    → (take 32 norm ≡ payload) × (dropped 32 norm ≡ check)
unfolding split_at
split_at-some norm payload check h =
    elim (if-split (leb 32 (length norm) && at_boundary (dropped 32 norm)) _ none h) [
      | inr (_, clash) ↦ cc
      | inl (_, e) ↦ (cc, cc)
    ]

-- What has a value is ASCII.
position_lem :
    (p : ℕ → Bool) (ch : ℕ) (xs : List ℕ) (i : ℕ)
    → any p xs ≡ false
    → position ch xs ≡ some i
    → p ch ≡ false
position_lem p ch [] i h k = cc
position_lem p ch (a ∷ xs) i h k =
    let (here, rest) = neither_of (p a) (any p xs) h in
    elim (if-split (eqb a ch) _ _ k) [
      | inl (t, _) ↦ subst (λ x. p x ≡ false) ((eqb_iff a ch).0 t) here
      | inr (_, k1) ↦ elim (Option-cases (position ch xs)) [
        | inl gone ↦ let clash : none ≡ some i = rw gone at k1 in cc
        | inr (n, found) ↦ position_lem p ch xs n rest found
      ]
    ]
  where
    neither_of : (a b : Bool) → (a || b) ≡ false → (a ≡ false) × (b ≡ false)
    neither_of a b x = ground arith

value-ascii : (ch v : ℕ) → value ch ≡ some v → ltb ch 0x80 ≡ true
unfolding value
value-ascii ch v h =
    let k = position_lem (λ a. not (ltb a 0x80)) ch alphabet v refl h in ground arith

-- What is decoded begins with a character.
pub decode_from-at_boundary :
    (s out : List ℕ) (buffer bits : ℕ) → decode_from s buffer bits ≡ some out → at_boundary s ≡ true
unfolding decode_from
decode_from-at_boundary [] out buffer bits h = refl
decode_from-at_boundary (c ∷ s) out buffer bits h = elim (Option-cases (value c)) [
  | inl gone ↦ let clash : none ≡ some out = rw gone at h in cc
  | inr (v, found) ↦ low c (value-ascii c v found)
]
  where
    low : (c : ℕ) → ltb c 0x80 ≡ true → not (leb 0x80 c && leb c 0xBF) ≡ true
    low c l = ground arith
