-- ===== src/Recovery/Decision/Journal/Decide.antt =====
-- What a decision rests on (replication/recovery/src/decision.rs, `decide`).
use terrapi_vault.Common.{
  &&_iff, ◌==◌, eq→≡, list_beq_iff, string_eq, nat_eq, ok, bind-eq-ok, ensure-eq-ok, check-eq-ok,
  length, Bytes, ℕ, ◌*◌, ◌≤◌, ◌≡◌, refl, sym, ◌∙◌, ◌≢◌, true, ◌&&◌, Option, [], ◌∷◌, ◌++◌, arith,
}
use terrapi_vault.Recovery.Model.{Id256, plan_beq, plan_beq_iff}
use terrapi_vault.Recovery.Jws.{Jws, profile_beq, profile_beq_iff, dot}
use terrapi_vault.Recovery.Grant.{Context, Claims, VerifiedGrant, verify}
use terrapi_vault.Recovery.Grant.Sound.{verify-Verified}
use terrapi_vault.Recovery.Decision.{Scope, Request, after, Policy, Codec}
use terrapi_vault.Recovery.Decision.Store.{Db, is_history, save}
use terrapi_vault.Recovery.Decision.Journal.{first_record, decide_first}

append-ne-nil : (h t : Bytes) (x : ℕ) → h ++ (x ∷ t) ≢ []
append-ne-nil [] t x e = cc
append-ne-nil (y ∷ h) t x e = cc

module _ {J : Type 0} (c : Codec J) (scope : Scope) (j : Jws)
    (parse_claims : Bytes → Option Claims) where
  -- The grant in `token` authorizes `request` in the journal's scope under `policy`.
  pub record Authorized (request : Request) (token : Bytes) (policy : Policy) (grant_id : Id256)
      : Type 0 where
    pub ctx : Context
    pub context_given : policy.context scope request ≡ ok ctx
    pub same_install : ctx.install_id ≡ scope.install
    pub same_region : ctx.region ≡ scope.region
    pub same_profile : ctx.profile ≡ scope.profile
    pub grant : VerifiedGrant
    pub grant_verified : verify j parse_claims ctx token ≡ ok grant
    pub plan_granted : grant.plan ≡ request.plan
    pub id_granted : grant.grant_id ≡ grant_id
    pub members_prepared : policy.prepared scope request ≡ ok tt
    pub still_continuous : policy.continuity after scope ≡ ok tt

  -- A first decision is authorized, and is saved as it stands.
  pub decide_first-Authorized :
      (request : Request) (token : Bytes) (policy : Policy) (db db' : Db J)
      → decide_first c scope j parse_claims request token policy db ≡ ok db'
      → (g : Id256) × Authorized request token policy g
        × (save c scope db (first_record request token g) ≡ ok db')
  unfolding decide_first
  decide_first-Authorized request token policy db db' h =
      let (ctx, e, h1) = bind-eq-ok (policy.context scope request) _ h in
      let (t, h2) =
        ensure-eq-ok
          ((ctx.install_id == scope.install)
            && (ctx.region == scope.region)
            && profile_beq ctx.profile scope.profile)
          _ _ h1 in
      let (g, v, h3) = bind-eq-ok (verify j parse_claims ctx token) _ h2 in
      let (q, h4) = ensure-eq-ok (plan_beq g.plan request.plan) _ _ h3 in
      let (p, h5) = check-eq-ok (policy.prepared scope request) _ h4 in
      let (k, h6) = check-eq-ok (policy.continuity after scope) _ h5 in
      let both_same =
        (&&_iff ((ctx.install_id == scope.install) && (ctx.region == scope.region))
            (profile_beq ctx.profile scope.profile)).0
          t in
      let first_same =
        (&&_iff (ctx.install_id == scope.install) (ctx.region == scope.region)).0 both_same.0 in
      (
        g.grant_id,
        record {
          ctx = ctx;
          context_given = e;
          same_install = eq→≡ ctx.install_id scope.install first_same.0;
          same_region = eq→≡ ctx.region scope.region first_same.1;
          same_profile = (profile_beq_iff ctx.profile scope.profile).0 both_same.1;
          grant = g;
          grant_verified = v;
          plan_granted = (plan_beq_iff g.plan request.plan).0 q;
          id_granted = refl;
          members_prepared = p;
          still_continuous = k;
        },
        h6,
      )

  -- A verified token is not empty, and its grant has an identifier.
  pub Authorized-history :
      (request : Request) (token : Bytes) (policy : Policy) (g : Id256)
      → Authorized request token policy g
      → length token ≤ 16 * 1024
      → is_history (first_record request token g) ≡ true
  unfolding is_history first_record
  Authorized-history request token policy g a l =
      let v = verify-Verified j parse_claims a.ctx token a.grant a.grant_verified in
      let full : token ≢ [] =
        λ e. append-ne-nil v.h (v.p ++ (dot ∷ v.s)) dot (sym v.segmented.joined ∙ e) in
      let named : g ≢ 0 =
        ground (arith, v.granted.grant_named, v.granted.same_grant, v.same_grant, a.id_granted) in
      ground (arith, list_beq_iff token [], full, named)
