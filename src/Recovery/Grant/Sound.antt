-- ===== src/Recovery/Grant/Sound.antt =====
-- What a verified grant binds (replication/recovery/src/grant.rs).
use terrapi_vault.Common.{
  leb, eqb, leb→le, eqb_iff, conj, conj→Truths, ◌==◌, bool_eq, option_eq, list_eq, string_eq,
  nat_eq, ok, bind-eq-ok, then-eq-ok, ok_or-eq-ok, ensure-eq-ok, check-eq-ok, length, Bytes,
  checked_sub, ℕ, ◌+◌, ◌-◌, ◌≤◌, ◌<◌, ◌≡◌, ap, subst, ◌∙◌, ◌≢◌, ◌↔◌, true, not, Option, some, [],
  ◌∷◌, ◌++◌, arith,
}
use terrapi_vault.Recovery.Model.{
  baseline_eq, Plan, plan_beq_iff, plan_eq, authorize, Model, new, validate_plan, step,
}
use terrapi_vault.Recovery.Jws.{
  Header, Jws, profile_eq, validate_profile, dot, split, three_parts, signed_part, decode,
}
use terrapi_vault.Recovery.Jws.Segments.{Segmented, three_parts-Segmented, signed_part_lem}
use terrapi_vault.Recovery.Grant.{
  Reservation, Context, Claims, VerifiedGrant, max_token, has_purpose, has_scope, in_window,
  is_reserved, check_claims, trusted_key, validate_claims, verify,
}
use terrapi_vault.Recovery.Jws.Keys.{OnlyKey, select_key-OnlyKey}

-- The claims fit the trusted context `ctx`, whose reservation is `r`.
pub record Granted (ctx : Context) (c : Claims) (r : Reservation) : Type 0 where
  pub version_one : c.version ≡ 1
  pub issued_by : c.iss ≡ ctx.profile.issuer
  pub issued_for : c.aud ≡ ctx.profile.audience
  pub for_replacement : c.action ≡ "replace_primary"
  pub install_named : ctx.install_id ≢ ""
  pub region_named : ctx.region ≢ ""
  pub same_install : c.install_id ≡ ctx.install_id
  pub same_region : c.region ≡ ctx.region
  pub lives : c.iat < c.exp
  pub not_too_long : c.exp ≤ c.iat + ctx.max_lifetime
  pub issued_before : c.iat ≤ c.nbf
  pub begun : c.nbf ≤ ctx.now
  pub not_over : ctx.now < c.exp
  pub reserved : ctx.reservation ≡ some r
  pub old_primary_fenced : ctx.fencing_confirmed ≡ true
  pub fencing_named : c.fencing_ref ≢ 0
  pub grant_named : c.grant_id ≢ 0
  pub same_plan : c.plan ≡ r.plan
  pub same_grant : c.grant_id ≡ r.grant_id
  pub same_fencing : c.fencing_ref ≡ r.fencing_ref
  pub plan_valid : validate_plan (new c.plan.baseline) c.plan ≡ ok tt

module _ (ctx : Context) (c : Claims) where
  abbrev Purpose : Type 0
  Purpose =
      (c.version ≡ 1)
      × (c.iss ≡ ctx.profile.issuer)
      × (c.aud ≡ ctx.profile.audience)
      × (c.action ≡ "replace_primary")

  has_purpose_iff : (has_purpose ctx c ≡ true) ↔ Purpose
  unfolding has_purpose
  has_purpose_iff =
      let i = string_eq.test_iff c.iss ctx.profile.issuer in
      let u = string_eq.test_iff c.aud ctx.profile.audience in
      let a = string_eq.test_iff c.action "replace_primary" in
      (λ h. ground (arith, i, u, a), λ h. ground (arith, i, u, a))

  abbrev Scoped : Type 0
  Scoped =
      (ctx.install_id ≢ "")
      × (ctx.region ≢ "")
      × (c.install_id ≡ ctx.install_id)
      × (c.region ≡ ctx.region)

  has_scope_iff : (has_scope ctx c ≡ true) ↔ Scoped
  unfolding has_scope
  has_scope_iff =
      let i = string_eq.test_iff ctx.install_id "" in
      let r = string_eq.test_iff ctx.region "" in
      let k = string_eq.test_iff c.install_id ctx.install_id in
      let q = string_eq.test_iff c.region ctx.region in
      (λ h. ground (arith, i, r, k, q), λ h. ground (arith, i, r, k, q))

  abbrev InWindow : Type 0
  InWindow =
      (c.iat < c.exp)
      × (c.exp ≤ c.iat + ctx.max_lifetime)
      × (c.iat ≤ c.nbf)
      × (c.nbf ≤ ctx.now)
      × (ctx.now < c.exp)

  in_window_iff :
      ((lifetime : ℕ) × (checked_sub c.exp c.iat ≡ some lifetime)
        × (in_window ctx c lifetime ≡ true))
      ↔ InWindow
  unfolding in_window
  in_window_iff = (λ (l, e, h). ground arith, λ h. (c.exp - c.iat, ground arith, ground arith))

  abbrev Reserved : Reservation → Type 0
  Reserved r =
      (ctx.fencing_confirmed ≡ true)
      × (c.fencing_ref ≢ 0)
      × (c.grant_id ≢ 0)
      × (c.plan ≡ r.plan)
      × (c.grant_id ≡ r.grant_id)
      × (c.fencing_ref ≡ r.fencing_ref)

  is_reserved_iff : (r : Reservation) → (is_reserved ctx c r ≡ true) ↔ Reserved r
  unfolding is_reserved
  is_reserved_iff r =
      let p = plan_beq_iff c.plan r.plan in (λ h. ground (arith, p), λ h. ground (arith, p))

authorize-eq-ok :
    (p : Plan) (m : Model)
    → step (new p.baseline) p authorize ≡ ok m
    → validate_plan (new p.baseline) p ≡ ok tt
unfolding step
authorize-eq-ok p m h = (check-eq-ok (validate_plan (new p.baseline) p) _ h).0

-- Claims that pass every test fit the context, whose reservation there is.
check_claims-Granted :
    (ctx : Context) (c : Claims) → check_claims ctx c ≡ ok tt → (r : Reservation) × Granted ctx c r
unfolding check_claims
check_claims-Granted ctx c h =
    let (a, h1) = ensure-eq-ok (has_purpose ctx c) _ _ h in
    let (b, h2) = ensure-eq-ok (has_scope ctx c) _ _ h1 in
    let (l, e, h3) = ok_or-eq-ok (checked_sub c.exp c.iat) _ _ h2 in
    let (w, h4) = ensure-eq-ok (in_window ctx c l) _ _ h3 in
    let (r, f, h5) = ok_or-eq-ok ctx.reservation _ _ h4 in
    let (q, h6) = ensure-eq-ok (is_reserved ctx c r) _ _ h5 in
    let (m, s, _) = then-eq-ok (step (new c.plan.baseline) c.plan authorize) _ h6 in
    let purpose = (has_purpose_iff ctx c).0 a in
    let scoped = (has_scope_iff ctx c).0 b in
    let window = (in_window_iff ctx c).0 (l, e, w) in
    let reserved = (is_reserved_iff ctx c r).0 q in
    (
      r,
      record {
        version_one = purpose.0;
        issued_by = purpose.1;
        issued_for = purpose.2;
        for_replacement = purpose.3;
        install_named = scoped.0;
        region_named = scoped.1;
        same_install = scoped.2;
        same_region = scoped.3;
        lives = window.0;
        not_too_long = window.1;
        issued_before = window.2;
        begun = window.3;
        not_over = window.4;
        reserved = f;
        old_primary_fenced = reserved.0;
        fencing_named = reserved.1;
        grant_named = reserved.2;
        same_plan = reserved.3;
        same_grant = reserved.4;
        same_fencing = reserved.5;
        plan_valid = authorize-eq-ok c.plan m s;
      },
    )

checked_sub_lem : (a b : ℕ) → b < a → checked_sub a b ≡ some (a - b)
checked_sub_lem a b h = ground arith

-- The tests accept exactly the claims that fit the context and its reservation.
pub check_claims_iff :
    (ctx : Context) (c : Claims)
    → (check_claims ctx c ≡ ok tt) ↔ ((r : Reservation) × Granted ctx c r)
unfolding check_claims step
check_claims_iff ctx c = (
  check_claims-Granted ctx c,
  λ (r, g).
      let w =
        (in_window_iff ctx c).1 (g.lives, g.not_too_long, g.issued_before, g.begun, g.not_over) in
      let p =
        (has_purpose_iff ctx c).1 (g.version_one, g.issued_by, g.issued_for, g.for_replacement) in
      let q =
        (has_scope_iff ctx c).1 (g.install_named, g.region_named, g.same_install, g.same_region) in
      let b = (is_reserved_iff ctx c r).1 (
        g.old_primary_fenced, g.fencing_named, g.grant_named, g.same_plan, g.same_grant,
        g.same_fencing,
      ) in
      simp (p, q, w.1, w.2, g.reserved, b, g.plan_valid),
)

-- The header names the purpose of a grant and the one trusted key of its name.
pub record Trusted (j : Jws) (ctx : Context) (h key : Bytes) : Type 0 where
  pub profile_valid : validate_profile ctx.profile ≡ ok tt
  pub header_bytes : Bytes
  pub header_decoded : decode j h ≡ ok header_bytes
  pub header : Header
  pub header_parsed : j.parse_header header_bytes ≡ some header
  pub algorithm : header.alg ≡ "ES256"
  pub same_type : header.typ ≡ ctx.profile.token_type
  pub key_named : header.kid ≢ ""
  pub only_key : OnlyKey header.kid ctx.keys key

trusted_key-Trusted :
    (j : Jws) (ctx : Context) (h key : Bytes) → trusted_key j ctx h ≡ ok key → Trusted j ctx h key
unfolding trusted_key
trusted_key-Trusted j ctx h key e =
    let (v, e1) = check-eq-ok (validate_profile ctx.profile) _ e in
    let (bytes, d, e2) = bind-eq-ok (decode j h) _ e1 in
    let (header, p, e3) = ok_or-eq-ok (j.parse_header bytes) _ _ e2 in
    let tests =
      (header.alg == "ES256")
      ∷ (header.typ == ctx.profile.token_type)
      ∷ not (header.kid == "")
      ∷ [] in
    let (t, e4) = ensure-eq-ok (conj tests) _ _ e3 in
    let named = conj→Truths tests t in
    record {
      profile_valid = v;
      header_bytes = bytes;
      header_decoded = d;
      header = header;
      header_parsed = p;
      algorithm = (string_eq.test_iff header.alg "ES256").0 named.0;
      same_type = (string_eq.test_iff header.typ ctx.profile.token_type).0 named.1.0;
      key_named = λ n. let k = named.1.1.0 in ground (arith, string_eq.test_iff header.kid "");
      only_key = select_key-OnlyKey header.kid ctx.keys key e4;
    }

-- What stands behind a grant that the verifier hands out.
pub record Verified (j : Jws) (parse_claims : Bytes → Option Claims) (ctx : Context) (token : Bytes)
    (g : VerifiedGrant) : Type 0 where
  pub h : Bytes
  pub p : Bytes
  pub s : Bytes
  pub within_limit : length token ≤ max_token
  pub parts : three_parts (split token) ≡ ok (h, p, s)
  pub segmented : Segmented token h p s
  pub key : Bytes
  pub key_trusted : trusted_key j ctx h ≡ ok key
  pub trusted : Trusted j ctx h key
  pub sig : Bytes
  pub sig_decoded : decode j s ≡ ok sig
  pub sig_length : length sig ≡ 64
  pub signed : j.es256 key (h ++ (dot ∷ p)) sig ≡ true
  pub body : Bytes
  pub body_decoded : decode j p ≡ ok body
  pub claims : Claims
  pub claims_parsed : parse_claims body ≡ some claims
  pub reservation : Reservation
  pub granted : Granted ctx claims reservation
  pub same_plan : g.plan ≡ reservation.plan
  pub same_grant : g.grant_id ≡ reservation.grant_id

module _ (j : Jws) (parse_claims : Bytes → Option Claims) (ctx : Context) where
  validate_claims-eq-ok :
      (p : Bytes) (c : Claims)
      → validate_claims j parse_claims ctx p ≡ ok c
      → (body : Bytes) × (decode j p ≡ ok body)
        × (parse_claims body ≡ some c)
        × (check_claims ctx c ≡ ok tt)
  unfolding validate_claims
  validate_claims-eq-ok p c h =
      let (b, e, h1) = bind-eq-ok (decode j p) _ h in
      let (d, f, h2) = ok_or-eq-ok (parse_claims b) _ _ h1 in
      let (k, h3) = check-eq-ok (check_claims ctx d) _ h2 in
      let dc : d ≡ c = cc in (b, e, f ∙ ap some dc, subst (λ x. check_claims ctx x ≡ ok tt) dc k)

  -- The verifier hands out a grant only for a token of three segments whose header has the algorithm
  -- ES256, the trusted token type and a key identifier that exactly one trusted key has, whose
  -- signature covers header and payload under that key, and whose claims fit the context; the
  -- grant names the plan and the identifier of the context's reservation.
  pub verify-Verified :
      (token : Bytes) (g : VerifiedGrant)
      → verify j parse_claims ctx token ≡ ok g
      → Verified j parse_claims ctx token g
  unfolding verify
  verify-Verified token g e =
      let (m, h1) = ensure-eq-ok (leb (length token) max_token) _ _ e in
      let ((h, p, s), f, h2) = bind-eq-ok (three_parts (split token)) _ h1 in
      let (key, k, h3) = bind-eq-ok (trusted_key j ctx h) _ h2 in
      let (sig, d, h4) = bind-eq-ok (decode j s) _ h3 in
      let (n, h5) = ensure-eq-ok (eqb (length sig) 64) _ _ h4 in
      let (v, h6) = ensure-eq-ok (j.es256 key (signed_part token h p) sig) _ _ h5 in
      let (c, w, h7) = bind-eq-ok (validate_claims j parse_claims ctx p) _ h6 in
      let (body, b, a, k') = validate_claims-eq-ok p c w in
      let (r, fit) = check_claims-Granted ctx c k' in
      let seg = three_parts-Segmented token h p s f in
      record {
        h = h;
        p = p;
        s = s;
        within_limit = leb→le (length token) max_token m;
        parts = f;
        segmented = seg;
        key = key;
        key_trusted = k;
        trusted = trusted_key-Trusted j ctx h key k;
        sig = sig;
        sig_decoded = d;
        sig_length = (eqb_iff (length sig) 64).0 n;
        signed = subst (λ m. j.es256 key m sig ≡ true) (signed_part_lem token h p s seg) v;
        body = body;
        body_decoded = b;
        claims = c;
        claims_parsed = a;
        reservation = r;
        granted = fit;
        same_plan = cc fit.same_plan;
        same_grant = cc fit.same_grant;
      }
