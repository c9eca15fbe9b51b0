-- ===== src/Recovery/Examples/Grants.antt =====
-- The theorems about replication/recovery/src/grant.rs at a concrete token.
use terrapi_vault.Common.{
  list_beq, nat_eq, ok, length, take, length-append, Bytes, is_blank, checked_add, ℕ, zero, suc,
  ◌-◌, ◌≡◌, refl, sym, subst, ◌∙◌, ◌↔◌, true, Option, some, [], ◌∷◌, ◌++◌, arith,
}
use terrapi_vault.Recovery.Model.{validate_baseline, new, extends, validate_plan, step}
use terrapi_vault.Recovery.Jws.{
  Jws, Profile, validate_profile, dot, split, three_parts, signed_part, decode, select_key,
}
use terrapi_vault.Recovery.Grant.{
  Reservation, Context, Claims, VerifiedGrant, has_purpose, has_scope, in_window, is_reserved,
  check_claims, trusted_key, validate_claims, verify, validate_draft,
}
use terrapi_vault.Recovery.Grant.Sound.{Granted, check_claims_iff, Verified, verify-Verified}
use terrapi_vault.Recovery.Grant.Draft.{verify-validate_draft, verify_canonical}
use terrapi_vault.Recovery.Examples.{replacement}

abbrev zeros : ℕ → Bytes
zeros zero = []
zeros (suc n) = 0 ∷ zeros n

-- Base64 stands for an encoding that adds 22 bytes, as it does to 64 of them.
abbrev pub jws : Jws
jws = record {
  b64_decode = λ s. some (take (length s - 22) s);
  b64_encode = λ b. b ++ zeros 22;
  parse_header = λ b. some (record { alg = "ES256"; kid = "k1"; typ = "recovery+jwt" });
  es256 = λ key message sig. list_beq key (7 ∷ []);
}

abbrev pub profile : Profile
profile = record { issuer = "vesta"; audience = "pair"; token_type = "recovery+jwt" }

abbrev pub reservation : Reservation
reservation = record { plan = replacement; grant_id = 71; fencing_ref = 72 }

abbrev pub ctx : Context
ctx = record {
  profile = profile;
  keys = ("k0", 6 ∷ []) ∷ ("k1", 7 ∷ []) ∷ [];
  now = 1000;
  max_lifetime = 300;
  install_id = "i1";
  region = "r1";
  reservation = some reservation;
  fencing_confirmed = true;
}

abbrev pub claims : Claims
claims = record {
  version = 1;
  iss = "vesta";
  aud = "pair";
  action = "replace_primary";
  install_id = "i1";
  region = "r1";
  grant_id = 71;
  iat = 900;
  nbf = 950;
  exp = 1100;
  plan = replacement;
  fencing_ref = 72;
}

abbrev pub parse_claims : Bytes → Option Claims
parse_claims b = some claims

abbrev head_part : Bytes
head_part = 104 ∷ zeros 22

abbrev payload_part : Bytes
payload_part = 112 ∷ zeros 22

abbrev signature_part : Bytes
signature_part = zeros 86

abbrev pub token : Bytes
token = head_part ++ (dot ∷ (payload_part ++ (dot ∷ signature_part)))

abbrev pub granted : VerifiedGrant
granted = record { plan = replacement; grant_id = 71 }

pub token_verified : verify jws parse_claims ctx token ≡ ok granted
unfolding verify trusted_key validate_claims check_claims has_purpose has_scope in_window
    is_reserved split three_parts signed_part decode select_key validate_profile step new
    validate_plan validate_baseline extends is_blank checked_add
token_verified = refl

verify-Verified_example : Verified jws parse_claims ctx token granted
verify-Verified_example = verify-Verified jws parse_claims ctx token granted token_verified

check_claims_iff_example :
    (check_claims ctx claims ≡ ok tt) ↔ ((r : Reservation) × Granted ctx claims r)
check_claims_iff_example = check_claims_iff ctx claims

encoding_length : (b : Bytes) → length b ≡ 64 → length (jws.b64_encode b) ≡ 86
encoding_length b n = omega (arith, length-append b (zeros 22))

verify-validate_draft_example :
    validate_draft jws parse_claims ctx (head_part ++ (dot ∷ payload_part)) ≡ ok tt
verify-validate_draft_example =
    verify-validate_draft jws parse_claims ctx token head_part payload_part signature_part granted
      encoding_length (unfold split three_parts in refl) token_verified

token_parts : three_parts (split token) ≡ ok (head_part, payload_part, signature_part)
unfolding split three_parts
token_parts = refl

head_decoded : (v : Verified jws parse_claims ctx token granted) → decode jws v.h ≡ ok (104 ∷ [])
unfolding decode
head_decoded v =
    let e : head_part ≡ v.h = cc (sym token_parts ∙ v.parts) in
    subst (λ h. decode jws h ≡ ok (104 ∷ [])) e refl

abbrev verified : Verified jws parse_claims ctx token granted
verified = verify-Verified jws parse_claims ctx token granted token_verified

verify_canonical_example : token ≡ token
verify_canonical_example =
    verify_canonical jws parse_claims ctx token token (104 ∷ []) granted granted verified verified
      (head_decoded verified) (head_decoded verified) refl refl
