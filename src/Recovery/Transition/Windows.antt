-- ===== src/Recovery/Transition/Windows.antt =====
-- What a verified transition token shows, at its issuance and later
-- (replication/recovery/src/transition.rs).
use terrapi_vault.Common.{
  ltb, leb, eqb, eqb_iff, &&_iff, ◌==◌, bool_eq, option_eq, list_eq, string_eq, nat_eq, ok,
  bind-eq-ok, ok_or-eq-ok, ensure-eq-ok, check-eq-ok, length, Bytes, checked_sub, ℕ, ◌-◌, ◌≤◌, ◌<◌,
  ◌≡◌, sym, subst, Bool, true, false, not, ◌&&◌, ◌||◌, some, arith,
}
use terrapi_vault.Recovery.Model.{baseline_eq, plan_eq}
use terrapi_vault.Recovery.Jws.{
  Header, profile_eq, validate_profile, split, three_parts, signed_part, decode, select_key,
}
use terrapi_vault.Recovery.Transition.{
  checkpoint_eq, Request, request_beq, request_beq_iff, is_zero, validate_request,
}
use terrapi_vault.Recovery.Transition.Tokens.{
  Trust, Claims, Crates, max_token, Verified, token_type, has_purpose, has_lifetime, is_purpose,
  request_digest, signed_payload, verify_common, verified, verify_issuance, verify_historical,
}
use terrapi_vault.Recovery.Jws.Keys.{OnlyKey, select_key-OnlyKey}

-- The signature over header and payload by the one trusted key that the header names.
pub record Signed (c : Crates) (trust : Trust) (purpose : Header → Bool) (token payload : Bytes)
    : Type 0 where
  pub parts : Bytes × Bytes × Bytes
  pub split_token : three_parts (split token) ≡ ok parts
  pub header : Header
  pub header_bytes : Bytes
  pub header_decoded : decode c.jws parts.0 ≡ ok header_bytes
  pub header_parsed : c.jws.parse_header header_bytes ≡ some header
  pub header_purpose : purpose header ≡ true
  pub key : Bytes
  pub key_trusted : select_key header.kid trust.keys ≡ ok key
  pub only_key : OnlyKey header.kid trust.keys key
  pub signature : Bytes
  pub signature_decoded : decode c.jws parts.2 ≡ ok signature
  pub signature_valid : c.jws.es256 key (signed_part token parts.0 parts.1) signature ≡ true
  pub payload_decoded : decode c.jws parts.1 ≡ ok payload

-- The claims bind exactly the request, from the trusted issuer, with an ordered, bounded validity.
pub record Binds (c : Crates) (trust : Trust) (claims : Claims Request) (q : Request) : Type 0 where
  pub version_one : claims.version ≡ 1
  pub certificate_named : is_zero claims.certificate_id ≡ false
  pub request_valid : validate_request q ≡ ok tt
  pub same_request : claims.request ≡ q
  pub same_digest : claims.request_digest ≡ c.request_sha256 q
  pub issuer : claims.iss ≡ trust.profile.issuer
  pub audience : claims.aud ≡ trust.profile.audience
  pub action : claims.action ≡ "compact_pair"
  pub starts : claims.iat ≤ claims.nbf
  pub ends : claims.nbf < claims.exp
  pub lifetime : claims.exp - claims.iat ≤ trust.max_lifetime

module _ (c : Crates) (trust : Trust) where
  pub signed_payload-Signed :
      (purpose : Header → Bool) (token payload : Bytes)
      → signed_payload c trust purpose token ≡ ok payload
      → Signed c trust purpose token payload
  unfolding signed_payload
  signed_payload-Signed purpose token payload h =
      let (_, h1) = check-eq-ok (validate_profile trust.profile) _ h in
      let (_, h2) = ensure-eq-ok (leb (length token) max_token) _ _ h1 in
      let (parts, e3, h3) = bind-eq-ok (three_parts (split token)) _ h2 in
      let (bytes, e4, h4) = bind-eq-ok (decode c.jws parts.0) _ h3 in
      let (header, e5, h5) = ok_or-eq-ok (c.jws.parse_header bytes) _ _ h4 in
      let (e6, h6) = ensure-eq-ok (purpose header) _ _ h5 in
      let (key, e7, h7) = bind-eq-ok (select_key header.kid trust.keys) _ h6 in
      let (sig, e8, h8) = bind-eq-ok (decode c.jws parts.2) _ h7 in
      let (_, h9) = ensure-eq-ok (eqb (length sig) 64) _ _ h8 in
      let (e10, h10) =
        ensure-eq-ok (c.jws.es256 key (signed_part token parts.0 parts.1) sig) _ _ h9 in
      record {
        parts = parts;
        split_token = e3;
        header = header;
        header_bytes = bytes;
        header_decoded = e4;
        header_parsed = e5;
        header_purpose = e6;
        key = key;
        key_trusted = e7;
        only_key = select_key-OnlyKey header.kid trust.keys key e7;
        signature = sig;
        signature_decoded = e8;
        signature_valid = e10;
        payload_decoded = h10;
      }

  pub record CommonVerified (token : Bytes) (q : Request) (claims : Claims Request) : Type 0 where
    pub payload : Bytes
    pub signed :
        Signed c trust
          (λ h. (trust.profile.token_type == token_type) && is_purpose token_type h)
          token
          payload
    pub parsed : c.parse_claims payload ≡ some claims
    pub binds : Binds c trust claims q

  claims-Binds :
      (claims : Claims Request) (q : Request) (lifetime : ℕ)
      → validate_request q ≡ ok tt
      → checked_sub claims.exp claims.iat ≡ some lifetime
      → has_purpose trust "compact_pair" claims ≡ true
      → has_lifetime trust claims lifetime ≡ true
      → (request_beq claims.request q && eqb claims.request_digest (c.request_sha256 q)) ≡ true
      → Binds c trust claims q
  unfolding has_purpose has_lifetime
  claims-Binds claims q lifetime v l p w b =
      let i = string_eq.test_iff claims.iss trust.profile.issuer in
      let u = string_eq.test_iff claims.aud trust.profile.audience in
      let a = string_eq.test_iff claims.action "compact_pair" in
      let r = request_beq_iff claims.request q in
      let (same, digest) = (&&_iff (request_beq claims.request q) _).0 b in
      record {
        version_one = ground arith;
        certificate_named = ground arith;
        request_valid = v;
        same_request = r.0 same;
        same_digest = (eqb_iff claims.request_digest (c.request_sha256 q)).0 digest;
        issuer = ground (arith, i);
        audience = ground (arith, u);
        action = ground (arith, a);
        starts = ground arith;
        ends = ground arith;
        lifetime = ground arith;
      }

  verify_common-Verified :
      (token : Bytes) (q : Request) (claims : Claims Request)
      → verify_common c trust token q ≡ ok claims
      → CommonVerified token q claims
  unfolding verify_common request_digest
  verify_common-Verified token q claims h =
      let (v, h1) = check-eq-ok (validate_request q) _ h in
      let (payload, e2, h2) = bind-eq-ok (signed_payload c trust _ token) _ h1 in
      let (g, e3, h3) = ok_or-eq-ok (c.parse_claims payload) _ _ h2 in
      let (life, e4, h4) = ok_or-eq-ok (checked_sub g.exp g.iat) _ _ h3 in
      let (e5, h5) = ensure-eq-ok (has_purpose trust "compact_pair" g) _ _ h4 in
      let (e6, h6) = ensure-eq-ok (has_lifetime trust g life) _ _ h5 in
      let (digest, e7, h7) = bind-eq-ok (request_digest c trust q) _ h6 in
      let (_, sha) = check-eq-ok (validate_request q) _ e7 in
      let (e8, h8) = ensure-eq-ok (request_beq g.request q && eqb g.request_digest digest) _ _ h7 in
      let same : g ≡ claims = cc in
      let is_sha : c.request_sha256 q ≡ digest = cc in
      subst (CommonVerified token q) same (record {
        payload = payload;
        signed = signed_payload-Signed _ token payload e2;
        parsed = e3;
        binds = claims-Binds g q life v e4 e5 e6 (
            subst (λ d. (request_beq g.request q && eqb g.request_digest d) ≡ true) (sym is_sha)
              e8);
      })

  -- The claims that a verified token carries.
  pub record Issued (token : Bytes) (q : Request) (now : ℕ) (v : Verified) : Type 0 where
    pub claims : Claims Request
    pub common : CommonVerified token q claims
    pub value : v ≡ verified c trust token claims
    pub started : claims.nbf ≤ now
    pub not_over : now < claims.exp

  pub verify_issuance-Issued_lem :
      (token : Bytes) (q : Request) (now : ℕ) (v : Verified)
      → verify_issuance c trust token q now ≡ ok v
      → Issued token q now v
  unfolding verify_issuance
  verify_issuance-Issued_lem token q now v h =
      let (g, e1, h1) = bind-eq-ok (verify_common c trust token q) _ h in
      let (w, h2) = ensure-eq-ok (not (ltb now g.nbf || leb g.exp now)) _ _ h1 in
      record {
        claims = g;
        common = verify_common-Verified token q g e1;
        value = cc;
        started = ground arith;
        not_over = ground arith;
      }

-- A token accepted at its issuance names a trusted key that signed its header and payload; the
-- payload binds exactly the request, and its window, of bounded length, contains `now`.
pub verify_issuance-Issued :
    (c : Crates) (trust : Trust) (token : Bytes) (q : Request) (now : ℕ) (v : Verified)
    → verify_issuance c trust token q now ≡ ok v
    → Issued c trust token q now v
verify_issuance-Issued c trust = verify_issuance-Issued_lem c trust

-- What was accepted at its issuance, at any time, is accepted afterwards with the same evidence.
pub verify_historical-issuance :
    (c : Crates) (trust : Trust) (token : Bytes) (q : Request) (now : ℕ) (v : Verified)
    → verify_issuance c trust token q now ≡ ok v
    → verify_historical c trust token q ≡ ok v
unfolding verify_issuance verify_historical
verify_historical-issuance c trust token q now v h =
    let (g, e1, h1) = bind-eq-ok (verify_common c trust token q) _ h in
    let (w, h2) = ensure-eq-ok (not (ltb now g.nbf || leb g.exp now)) _ _ h1 in rw e1 h2
