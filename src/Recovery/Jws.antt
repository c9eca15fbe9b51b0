-- ===== src/Recovery/Jws.antt =====
-- What replication/recovery/src/grant.rs and replication/recovery/src/transition.rs share: compact
-- ES256 tokens `header.payload.signature` as bytes, their trust profile and their keys. Base64,
-- JSON and the signature check are the crates base64, serde_json and ring: a parameter `Jws`.
pub mod Segments
pub mod Keys
use terrapi_vault.Common.{
  ltb, eqb, if◌then◌else◌, PartialEq, ◌==◌, list_beq, string_eq, nat_eq, Result, err, ok, ensure,
  ok_or, ◌>>=◌, ◌>>◌, length, take, any, Bytes, is_blank, byte_len, at, ℕ, ◌+◌, String, ◌≡◌, ◌↔◌,
  Bool, true, not, ◌&&◌, ◌||◌, Option, none, some, List, [], ◌∷◌, arith,
}

pub record Header : Type 0 where
  pub alg : String
  pub kid : String
  pub typ : String

-- The functions of the crates base64, serde_json and ring that the verifiers call.
pub record Jws : Type 0 where
  pub b64_decode : Bytes → Option Bytes
  pub b64_encode : Bytes → Bytes
  pub parse_header : Bytes → Option Header
  -- key, message, signature
  pub es256 : Bytes → Bytes → Bytes → Bool

pub record Profile : Type 0 where
  pub issuer : String
  pub audience : String
  pub token_type : String

abbrev pub profile_beq : Profile → Profile → Bool
profile_beq a b =
    (a.issuer == b.issuer) && (a.audience == b.audience) && (a.token_type == b.token_type)

pub profile_beq_iff : (a b : Profile) → (profile_beq a b ≡ true) ↔ (a ≡ b)
profile_beq_iff a b =
    let i = string_eq.test_iff a.issuer b.issuer in
    let u = string_eq.test_iff a.audience b.audience in
    let t = string_eq.test_iff a.token_type b.token_type in
    (λ h. ground (arith, i, u, t), λ h. ground (arith, i, u, t))

instance abbrev pub profile_eq : PartialEq Profile
profile_eq = record { test = profile_beq; test_iff = profile_beq_iff }

-- `Profile::validate`
unfoldable pub validate_profile : Profile → Result (Unit {0})
validate_profile p =
    if any (λ value. is_blank value || ltb 512 (byte_len value))
      (p.issuer ∷ p.audience ∷ p.token_type ∷ [])
    then err "invalid trusted profile"
    else ok tt

abbrev pub dot : ℕ
dot = b'.'

abbrev pub cons_head : ℕ → List Bytes → List Bytes
cons_head c [] = (c ∷ []) ∷ []
cons_head c (x ∷ xs) = (c ∷ x) ∷ xs

-- `token.split('.')`: always at least one segment.
unfoldable pub split : Bytes → List Bytes
split [] = [] ∷ []
split (c ∷ cs) = let rest = split cs in if eqb c dot then [] ∷ rest else cons_head c rest

abbrev pub first_cons : ℕ → Bytes × Bytes → Bytes × Bytes
first_cons c (a, b) = (c ∷ a, b)

-- `input.split_once('.')`
unfoldable pub split_once : Bytes → Option (Bytes × Bytes)
split_once [] = none
split_once (c ∷ cs) =
    let rest = split_once cs in
    if eqb c dot
    then some ([], cs)
    else elim rest [ none ↦ none | some ab ↦ some (first_cons c ab) ]

-- The three calls of `parts.next()`, and the test that there is no fourth segment.
unfoldable pub three_parts : List Bytes → Result (Bytes × Bytes × Bytes)
three_parts [] = err "header"
three_parts (h ∷ []) = err "payload"
three_parts (h ∷ p ∷ []) = err "signature"
three_parts (h ∷ p ∷ s ∷ []) = if ltb 1024 (length h) then err "compact shape" else ok (h, p, s)
three_parts (h ∷ p ∷ s ∷ x ∷ xs) = err "compact shape"

-- `&token.as_bytes()[..h.len() + 1 + p.len()]`
unfoldable pub signed_part : Bytes → Bytes → Bytes → Bytes
signed_part token h p = take (length h + 1 + length p) token

module _ (j : Jws) where
  -- `decode`: only the canonical encoding of the bytes is accepted.
  unfoldable pub decode : Bytes → Result Bytes
  decode segment = do
    bytes ← ok_or (j.b64_decode segment) "encoding"
    ensure (not (list_beq segment []) && list_beq (j.b64_encode bytes) segment)
        "noncanonical encoding"
    ok bytes

abbrev pub only_one : List (String × Bytes) → Result Bytes
only_one [] = err "untrusted key"
only_one ((_, key) ∷ []) = ok key
only_one (_ ∷ _ ∷ _) = err "ambiguous key"

-- The keys with the identifier `kid`.
unfoldable pub matching : String → List (String × Bytes) → List (String × Bytes)
matching kid [] = []
matching kid ((k, key) ∷ keys) =
    let rest = matching kid keys in if k == kid then (k, key) ∷ rest else rest

unfoldable pub select_key : String → List (String × Bytes) → Result Bytes
unfolding matching
select_key kid keys = only_one (matching kid keys)
