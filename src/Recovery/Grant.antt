-- ===== src/Recovery/Grant.antt =====
-- replication/recovery/src/grant.rs: the verifier of recovery grants. The current time, the keys,
-- the reservation and the fencing result stand in a `Context` that the integration supplies.
pub mod Sound
pub mod Draft
use terrapi_vault.Common.{
  ltb, leb, eqb, conj, ◌==◌, string_eq, Result, ok, ensure, ok_or, ◌>>=◌, ◌>>◌, length, any, Bytes,
  checked_sub, ℕ, ◌-◌, ◌*◌, String, Bool, not, ◌&&◌, Option, List, [], ◌∷◌,
}
use terrapi_vault.Recovery.Model.{Id256, Plan, plan_eq, authorize, new, step}
use terrapi_vault.Recovery.Jws.{
  Jws, Profile, validate_profile, dot, split, split_once, three_parts, signed_part, decode,
  select_key,
}

pub record Reservation : Type 0 where
  pub plan : Plan
  pub grant_id : Id256
  pub fencing_ref : Id256

pub record Context : Type 0 where
  pub profile : Profile
  pub keys : List (String × Bytes)
  pub now : ℕ
  pub max_lifetime : ℕ
  pub install_id : String
  pub region : String
  pub reservation : Option Reservation
  pub fencing_confirmed : Bool

pub record Claims : Type 0 where
  pub version : ℕ
  pub iss : String
  pub aud : String
  pub action : String
  pub install_id : String
  pub region : String
  pub grant_id : Id256
  pub iat : ℕ
  pub nbf : ℕ
  pub exp : ℕ
  pub plan : Plan
  pub fencing_ref : Id256

pub record VerifiedGrant : Type 0 where
  pub plan : Plan
  pub grant_id : Id256

abbrev pub max_token : ℕ
max_token = 16 * 1024

module _ (ctx : Context) (c : Claims) where
  unfoldable pub has_purpose : Bool
  has_purpose = conj (
      eqb c.version 1
      ∷ (c.iss == ctx.profile.issuer)
      ∷ (c.aud == ctx.profile.audience)
      ∷ (c.action == "replace_primary")
      ∷ [])

  unfoldable pub has_scope : Bool
  has_scope = conj (
      not (ctx.install_id == "")
      ∷ not (ctx.region == "")
      ∷ (c.install_id == ctx.install_id)
      ∷ (c.region == ctx.region)
      ∷ [])

  unfoldable pub in_window : ℕ → Bool
  in_window lifetime = conj (
      not (eqb lifetime 0)
      ∷ leb lifetime ctx.max_lifetime
      ∷ leb c.iat c.nbf
      ∷ leb c.nbf ctx.now
      ∷ ltb ctx.now c.exp
      ∷ [])

  unfoldable pub is_reserved : Reservation → Bool
  is_reserved r = conj (
      ctx.fencing_confirmed
      ∷ not (eqb c.fencing_ref 0)
      ∷ not (eqb c.grant_id 0)
      ∷ (c.plan == r.plan)
      ∷ eqb c.grant_id r.grant_id
      ∷ eqb c.fencing_ref r.fencing_ref
      ∷ [])

  -- The tests of `validate_claims`, in the order of their errors.
  unfoldable pub check_claims : Result (Unit {0})
  check_claims = do
    ensure has_purpose "claim purpose"
    ensure has_scope "scope"
    lifetime ← ok_or (checked_sub c.exp c.iat) "time order"
    ensure (in_window lifetime) "time window"
    reserved ← ok_or ctx.reservation "authority unavailable"
    ensure (is_reserved reserved) "authority binding"
    step (new c.plan.baseline) c.plan authorize
    ok tt

module _ (j : Jws) (ctx : Context) where
  -- `trusted_key`
  unfoldable pub trusted_key : Bytes → Result Bytes
  trusted_key h = do
    validate_profile ctx.profile
    bytes ← decode j h
    header ← ok_or (j.parse_header bytes) "header schema"
    ensure
        (conj (
          (header.alg == "ES256")
          ∷ (header.typ == ctx.profile.token_type)
          ∷ not (header.kid == "")
          ∷ []))
        "header purpose"
    select_key header.kid ctx.keys

-- `parse_claims` is `serde_json::from_slice::<Claims>`.
module _ (j : Jws) (parse_claims : Bytes → Option Claims) (ctx : Context) where
  -- `validate_claims`
  unfoldable pub validate_claims : Bytes → Result Claims
  validate_claims p = do
    bytes ← decode j p
    grant ← ok_or (parse_claims bytes) "claim schema"
    check_claims ctx grant
    ok grant

  -- `verify`
  unfoldable pub verify : Bytes → Result VerifiedGrant
  verify token = do
    ensure (leb (length token) max_token) "token limit"
    (h, p, s) ← three_parts (split token)
    key ← trusted_key j ctx h
    sig ← decode j s
    ensure (eqb (length sig) 64) "signature shape"
    ensure (j.es256 key (signed_part token h p) sig) "signature"
    grant ← validate_claims p
    ok (record { plan = grant.plan; grant_id = grant.grant_id })

  -- `validate_draft`: an unsigned token, before it is reserved.
  unfoldable pub validate_draft : Bytes → Result (Unit {0})
  validate_draft input = do
    ensure (leb (length input) (max_token - 87)) "draft limit"
    (h, p) ← ok_or (split_once input) "draft shape"
    ensure (leb (length h) 1024 && not (any (λ c. eqb c dot) p)) "draft shape"
    trusted_key j ctx h
    validate_claims p
    ok tt
