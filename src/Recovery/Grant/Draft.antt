-- ===== src/Recovery/Grant/Draft.antt =====
-- Drafts and tokens (replication/recovery/src/grant.rs, `validate_draft` beside `verify`).
use terrapi_vault.Common.{
  eqb, le→leb, Result, ok, length, length-append, any, Bytes, ◌-◌, ◌≤◌, ◌≡◌, refl, sym, ap, subst,
  ◌∙◌, false, Option, [], ◌∷◌, ◌++◌, arith,
}
use terrapi_vault.Recovery.Jws.{Jws, dot, split, three_parts, decode}
use terrapi_vault.Recovery.Jws.Segments.{NoDot, split_once-append, decode-eq-ok, decode-injective}
use terrapi_vault.Recovery.Grant.{
  Context, Claims, VerifiedGrant, max_token, validate_claims, verify, validate_draft,
}
use terrapi_vault.Recovery.Grant.Sound.{check_claims_iff, Verified, verify-Verified}

any_of_NoDot : (p : Bytes) → NoDot p → any (λ c. eqb c dot) p ≡ false
any_of_NoDot [] n = refl
any_of_NoDot (c ∷ p) n = rw n.0 (any_of_NoDot p n.1)

draft_short :
    (h p s : Bytes)
    → length (h ++ (dot ∷ (p ++ (dot ∷ s)))) ≤ max_token
    → length s ≡ 86
    → length (h ++ (dot ∷ p)) ≤ max_token - 87
draft_short h p s l n = omega (
  arith,
  length-append h (dot ∷ p),
  length-append h (dot ∷ (p ++ (dot ∷ s))),
  length-append p (dot ∷ s),
)

module _ (j : Jws) (parse_claims : Bytes → Option Claims) (ctx : Context) where
  -- The claims that the verifier accepts are those of the draft.
  claims_of_Verified :
      (token : Bytes) (g : VerifiedGrant) (v : Verified j parse_claims ctx token g)
      → validate_claims j parse_claims ctx v.p ≡ ok v.claims
  unfolding validate_claims
  claims_of_Verified token g v =
      rw (v.body_decoded)
        (rw (v.claims_parsed) (rw ((check_claims_iff ctx v.claims).1 (v.reservation, v.granted))))

  draft_of_Verified :
      (token : Bytes) (g : VerifiedGrant) (v : Verified j parse_claims ctx token g)
      → length v.s ≡ 86
      → validate_draft j parse_claims ctx (v.h ++ (dot ∷ v.p)) ≡ ok tt
  unfolding validate_draft
  draft_of_Verified token g v n =
      let short =
        draft_short v.h v.p v.s
          (subst (λ t. length t ≤ max_token) v.segmented.joined v.within_limit) n in
      simp (
        le→leb _ _ short,
        split_once-append v.h v.p v.segmented.header_dotless,
        le→leb _ _ v.segmented.header_short,
        any_of_NoDot v.p v.segmented.payload_dotless,
        v.key_trusted,
        claims_of_Verified token g v,
      )

  -- If the base64 form of 64 bytes has 86 characters, then the part of a verified token that is
  -- signed is a draft that validates in the same context: nothing that was to be reserved as a
  -- draft can be refused then and be accepted once it is signed.
  pub verify-validate_draft :
      (token h p s : Bytes) (g : VerifiedGrant)
      → ((b : Bytes) → length b ≡ 64 → length (j.b64_encode b) ≡ 86)
      → three_parts (split token) ≡ ok (h, p, s)
      → verify j parse_claims ctx token ≡ ok g
      → validate_draft j parse_claims ctx (h ++ (dot ∷ p)) ≡ ok tt
  verify-validate_draft token h p s g law parts e =
      let v = verify-Verified j parse_claims ctx token g e in
      let same : ◌≡◌ {A = Result (Bytes × Bytes × Bytes)} (ok (h, p, s)) (ok (v.h, v.p, v.s)) =
        sym parts ∙ v.parts in
      let hh : h ≡ v.h = cc in
      let pp : p ≡ v.p = cc in
      let enc = (decode-eq-ok j v.s v.sig v.sig_decoded).1 in
      rw (hh, pp) (draft_of_Verified token g v (ap length (sym enc) ∙ law v.sig v.sig_length))

  -- Two verified tokens whose segments decode to the same three byte sequences are the same token.
  pub verify_canonical :
      (t u head : Bytes) (f g : VerifiedGrant) (v : Verified j parse_claims ctx t f)
      (w : Verified j parse_claims ctx u g)
      → decode j v.h ≡ ok head
      → decode j w.h ≡ ok head
      → v.body ≡ w.body
      → v.sig ≡ w.sig
      → t ≡ u
  verify_canonical t u head f g v w a b body sig =
      let hh = decode-injective j v.h w.h head a b in
      let pp =
        decode-injective j v.p w.p v.body v.body_decoded (w.body_decoded ∙ ap ok (sym body)) in
      let ss = decode-injective j v.s w.s v.sig v.sig_decoded (w.sig_decoded ∙ ap ok (sym sig)) in
      v.segmented.joined ∙ rw (hh, pp, ss) (sym w.segmented.joined)
