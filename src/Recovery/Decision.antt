-- ===== src/Recovery/Decision.antt =====
-- replication/recovery/src/decision.rs: the values of the decision journal and what the journal
-- takes from outside. The rows and the operations are in the modules below.
pub mod Store
pub mod Journal
use terrapi_vault.Common.{
  ltb, eqb, ◌==◌, string_eq, Result, ok, ensure, ◌>>=◌, ◌>>◌, length, Bytes, is_blank, first,
  second, i64_max, ℕ, String, ◌≡◌, ◌↔◌, Bool, true, not, ◌&&◌, Option, arith,
}
use terrapi_vault.Recovery.Model.{
  Id256, Baseline, baseline_beq_iff, baseline_eq, validate_baseline, Plan, plan_beq_iff, plan_eq,
  authorize, new, step,
}
use terrapi_vault.Recovery.Jws.{Profile, profile_beq_iff, profile_eq, validate_profile}
use terrapi_vault.Recovery.Grant.{Context}

pub record Scope : Type 0 where
  pub install : String
  pub region : String
  pub profile : Profile
  pub baseline : Baseline

abbrev pub scope_beq : Scope → Scope → Bool
scope_beq a b =
    (a.install == b.install)
    && (a.region == b.region)
    && (a.profile == b.profile)
    && (a.baseline == b.baseline)

pub scope_beq_iff : (a b : Scope) → (scope_beq a b ≡ true) ↔ (a ≡ b)
scope_beq_iff a b =
    let i = string_eq.test_iff a.install b.install in
    let r = string_eq.test_iff a.region b.region in
    let p = profile_beq_iff a.profile b.profile in
    let l = baseline_beq_iff a.baseline b.baseline in
    (λ h. ground (arith, i, r, p, l), λ h. ground (arith, i, r, p, l))

-- `Scope::validate`
unfoldable pub validate_scope : Scope → Result (Unit {0})
validate_scope s = do
  validate_baseline s.baseline
  validate_profile s.profile
  ensure (not (is_blank s.install) && not (is_blank s.region) && ltb s.baseline.revision i64_max)
      "invalid decision journal scope"

pub record Prepared : Type 0 where
  pub member : Id256
  pub generation : Id256
  pub checkpoint : Id256

abbrev pub prepared_beq : Prepared → Prepared → Bool
prepared_beq a b =
    eqb a.member b.member && eqb a.generation b.generation && eqb a.checkpoint b.checkpoint

pub prepared_beq_iff : (a b : Prepared) → (prepared_beq a b ≡ true) ↔ (a ≡ b)
prepared_beq_iff a b = (λ h. ground arith, λ h. ground arith)

pub record Request : Type 0 where
  pub id : Id256
  pub plan : Plan
  -- Candidate, then survivor.
  pub prepared : Prepared × Prepared

abbrev pub request_beq : Request → Request → Bool
request_beq a b =
    eqb a.id b.id
    && (a.plan == b.plan)
    && prepared_beq a.prepared.0 b.prepared.0
    && prepared_beq a.prepared.1 b.prepared.1

pub request_beq_iff : (a b : Request) → (request_beq a b ≡ true) ↔ (a ≡ b)
request_beq_iff a b =
    let p = plan_beq_iff a.plan b.plan in (λ h. ground (arith, p), λ h. ground (arith, p))

-- One round of the loop in `Request::validate`.
unfoldable pub check_prepared : Plan → Prepared → Id256 → Result (Unit {0})
check_prepared plan p member =
    ensure
      (eqb p.member member && not (eqb p.generation 0) && eqb p.checkpoint plan.baseline.checkpoint)
      "prepared binding mismatch"

-- `Request::validate`
unfoldable pub validate_request : Request → Baseline → Result (Unit {0})
validate_request r baseline = do
  step (new baseline) r.plan authorize
  ensure (not (eqb r.id 0)) "zero decision id"
  check_prepared r.plan r.prepared.0 r.plan.candidate
  check_prepared r.plan r.prepared.1 r.plan.baseline.survivor
  ensure
      (eqb r.prepared.1.generation r.plan.baseline.survivor_generation
        && not (eqb r.prepared.0.generation r.prepared.1.generation))
      "survivor generation mismatch"

pub record Record : Type 0 where
  pub request : Request
  pub token : Bytes
  pub grant_id : Id256
  pub acknowledgements : Bool × Bool
  pub completion : Option Id256

pub record Status : Type 0 where
  pub request : Option Request
  pub acknowledgements : Bool × Bool
  pub completion : Option Id256

pub record CommittedDecision : Type 0 where
  pub request : Request
  pub token_digest : Id256
  pub grant_id : Id256

-- The first and the second time that an operation asks for continuity.
pub data Moment : Type 0 where
  before after : Moment

-- The trait `Policy`, which the management integration implements. The answers of one operation's
-- calls; another operation may meet another value.
pub record Policy : Type 0 where
  pub continuity : Moment → Scope → Result (Unit {0})
  pub context : Scope → Request → Result Context
  pub prepared : Scope → Request → Result (Unit {0})
  pub applied : Scope → CommittedDecision → Prepared → Result (Unit {0})

-- The crates serde_json and sha2: `J` is the type of the texts that serde_json writes, of which the
-- code takes the length and the digest. Writing a value of these types does not fail.
pub record Codec (J : Type 0) : Type 0 where
  pub write_scope : Scope → J
  pub read_scope : J → Result Scope
  pub write_record : Record → J
  pub read_record : J → Result Record
  pub json_len : J → ℕ
  pub json_sha256 : J → Id256
  pub token_sha256 : Bytes → Id256

-- What is written is read back.
pub record IsFaithful {J : Type 0} (c : Codec J) : Type 0 where
  pub scope_back : (s : Scope) → c.read_scope (c.write_scope s) ≡ ok s
  pub record_back : (r : Record) → c.read_record (c.write_record r) ≡ ok r
