-- ===== src/Recovery/Transition/Tokens.antt =====
-- The verifiers of transition and abort tokens (replication/recovery/src/transition.rs).
use terrapi_vault.Common.{
  ltb, leb, eqb, ◌==◌, string_eq, Result, ok, ensure, ok_or, ◌>>=◌, ◌>>◌, length, Bytes,
  checked_sub, ℕ, ◌*◌, String, Bool, false, not, ◌&&◌, ◌||◌, Option, none, some, List,
}
use terrapi_vault.Recovery.Model.{Id256}
use terrapi_vault.Recovery.Jws.{
  Header, Jws, Profile, validate_profile, split, three_parts, signed_part, decode, select_key,
}
use terrapi_vault.Recovery.Transition.{
  Request, request_beq, MaintenanceAbort, abort_beq, is_zero, validate_request, validate_abort,
}

pub record Trust : Type 0 where
  pub profile : Profile
  pub keys : List (String × Bytes)
  pub max_lifetime : ℕ

-- The members that `Claims` and `AbortClaims` have, with the request of type `R`.
pub record Claims (R : Type 0) : Type 0 where
  pub version : ℕ
  pub iss : String
  pub aud : String
  pub action : String
  pub certificate_id : Id256
  pub iat : ℕ
  pub nbf : ℕ
  pub exp : ℕ
  pub request : R
  pub request_digest : Id256

-- The crates serde_json and sha2, beside those of `Jws`.
pub record Crates : Type 0 where
  pub jws : Jws
  pub parse_claims : Bytes → Option (Claims Request)
  pub parse_abort_claims : Bytes → Option (Claims MaintenanceAbort)
  pub request_sha256 : Request → Id256
  pub abort_sha256 : MaintenanceAbort → Id256
  pub token_sha256 : Bytes → Id256

abbrev pub max_token : ℕ
max_token = 64 * 1024

pub record Verified : Type 0 where
  pub request : Request
  pub certificate_id : Id256
  pub token_digest : Id256

abbrev pub token_type : String
token_type = "terrapi-checkpoint-transition+jwt"

abbrev pub abort_token_type : String
abort_token_type = "terrapi-maintenance-abort+jwt"

unfoldable pub has_purpose : Trust → {R : Type 0} → String → Claims R → Bool
has_purpose trust action g =
    eqb g.version 1
    && (g.iss == trust.profile.issuer)
    && (g.aud == trust.profile.audience)
    && (g.action == action)
    && not (is_zero g.certificate_id)

unfoldable pub has_lifetime : Trust → {R : Type 0} → Claims R → ℕ → Bool
has_lifetime trust g lifetime =
    not (eqb lifetime 0) && leb lifetime trust.max_lifetime && leb g.iat g.nbf && ltb g.nbf g.exp

abbrev pub is_purpose : String → Header → Bool
is_purpose type header = (header.alg == "ES256") && (header.typ == type) && not (header.kid == "")

module _ (c : Crates) (trust : Trust) where
  -- `Request::digest`
  unfoldable pub request_digest : Request → Result Id256
  request_digest q = do validate_request q; ok (c.request_sha256 q)

  -- `MaintenanceAbort::digest`
  unfoldable pub abort_digest : MaintenanceAbort → Result Id256
  abort_digest a = do validate_abort a; ok (c.abort_sha256 a)

  -- The segments of a token, with the header's purpose and the signature checked.
  unfoldable pub signed_payload : (Header → Bool) → Bytes → Result Bytes
  signed_payload purpose token = do
    validate_profile trust.profile
    ensure (leb (length token) max_token) "token limit"
    (h, p, s) ← three_parts (split token)
    bytes ← decode c.jws h
    header ← ok_or (c.jws.parse_header bytes) "header schema"
    ensure (purpose header) "header purpose"
    key ← select_key header.kid trust.keys
    sig ← decode c.jws s
    ensure (eqb (length sig) 64) "signature shape"
    ensure (c.jws.es256 key (signed_part token h p) sig) "signature"
    decode c.jws p

  -- `verify_common`
  unfoldable pub verify_common : Bytes → Request → Result (Claims Request)
  unfolding has_purpose has_lifetime
  verify_common token expected = do
    validate_request expected
    payload ←
        signed_payload (λ h. (trust.profile.token_type == token_type) && is_purpose token_type h)
          token
    claims ← ok_or (c.parse_claims payload) "claim schema"
    lifetime ← ok_or (checked_sub claims.exp claims.iat) "time order"
    ensure (has_purpose trust "compact_pair" claims) "claim purpose"
    ensure (has_lifetime trust claims lifetime) "time window"
    digest ← request_digest expected
    ensure (request_beq claims.request expected && eqb claims.request_digest digest)
        "request binding"
    ok claims

  abbrev pub verified : Bytes → Claims Request → Verified
  verified token claims = record {
    request = claims.request;
    certificate_id = claims.certificate_id;
    token_digest = c.token_sha256 token;
  }

  -- `verify_issuance`, which alone asks for the time.
  unfoldable pub verify_issuance : Bytes → Request → (now : ℕ) → Result Verified
  verify_issuance token expected now = do
    claims ← verify_common token expected
    ensure (not (ltb now claims.nbf || leb claims.exp now)) "time window"
    ok (verified token claims)

  -- `verify_historical`
  unfoldable pub verify_historical : Bytes → Request → Result Verified
  verify_historical token expected = do
    claims ← verify_common token expected
    ok (verified token claims)

  -- `now.is_some_and(..)` of `verify_abort`
  abbrev pub out_of_window : Option ℕ → Claims MaintenanceAbort → Bool
  out_of_window none claims = false
  out_of_window (some now) claims = ltb now claims.nbf || leb claims.exp now

  -- `verify_abort`
  unfoldable pub verify_abort : Bytes → MaintenanceAbort → Option ℕ → Result Id256
  unfolding has_purpose has_lifetime
  verify_abort token expected now = do
    validate_abort expected
    payload ← signed_payload (is_purpose abort_token_type) token
    claims ← ok_or (c.parse_abort_claims payload) "claim schema"
    lifetime ← ok_or (checked_sub claims.exp claims.iat) "time order"
    ensure (has_purpose trust "abort_compact_pair" claims && has_lifetime trust claims lifetime)
        "claim purpose"
    ensure (not (out_of_window now claims)) "time window"
    digest ← abort_digest expected
    ensure (abort_beq claims.request expected && eqb claims.request_digest digest) "request binding"
    ok claims.certificate_id

  -- `verify_abort_issuance`
  unfoldable pub verify_abort_issuance : Bytes → MaintenanceAbort → (now : ℕ) → Result Id256
  unfolding verify_abort
  verify_abort_issuance token expected now = verify_abort token expected (some now)

  -- `verify_abort_historical`
  unfoldable pub verify_abort_historical : Bytes → MaintenanceAbort → Result Id256
  unfolding verify_abort
  verify_abort_historical token expected = verify_abort token expected none
