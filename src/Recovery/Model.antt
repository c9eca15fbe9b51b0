-- ===== src/Recovery/Model.antt =====
-- replication/recovery/src/model.rs: the recovery plan and the state machine of its events.
-- An `Id` is 32 bytes, read as one number below 2^256, so `[0; 32]` is 0.
pub mod Shape
pub mod Order
pub mod Evidence
pub mod Progress
use terrapi_vault.Common.{
  ltb, leb, eqb, if◌then◌else◌, PartialEq, ◌==◌, option_eq, string_eq, nat_eq, Result, err, ok,
  ensure, ◌>>=◌, ◌>>◌, any, is_blank, Index2, first, second, put_at, both, neither, checked_add, ℕ,
  String, ◌≡◌, ◌↔◌, Bool, true, false, not, ◌&&◌, ◌||◌, Option, none, some, List, [], ◌∷◌, arith,
}

abbrev pub Id256 : Type 0
Id256 = ℕ

pub record Baseline : Type 0 where
  pub scope : String
  pub revision : ℕ
  pub digest : Id256
  pub old_primary : Id256
  pub survivor : Id256
  pub survivor_generation : Id256
  pub checkpoint : Id256

abbrev pub baseline_beq : Baseline → Baseline → Bool
baseline_beq a b =
    (a.scope == b.scope)
    && eqb a.revision b.revision
    && eqb a.digest b.digest
    && eqb a.old_primary b.old_primary
    && eqb a.survivor b.survivor
    && eqb a.survivor_generation b.survivor_generation
    && eqb a.checkpoint b.checkpoint

pub baseline_beq_iff : (a b : Baseline) → (baseline_beq a b ≡ true) ↔ (a ≡ b)
baseline_beq_iff a b = (
  λ h. ground (arith, string_eq.test_iff a.scope b.scope),
  λ h. ground (arith, string_eq.test_iff a.scope b.scope),
)

instance abbrev pub baseline_eq : PartialEq Baseline
baseline_eq = record { test = baseline_beq; test_iff = baseline_beq_iff }

-- `Baseline::validate`
unfoldable pub validate_baseline : Baseline → Result (Unit {0})
validate_baseline b =
    if is_blank b.scope
      || any (λ x. eqb x 0)
          (b.digest ∷ b.old_primary ∷ b.survivor ∷ b.survivor_generation ∷ b.checkpoint ∷ [])
      || eqb b.old_primary b.survivor
    then err "plan does not extend baseline"
    else ok tt

pub record Plan : Type 0 where
  pub recovery_id : Id256
  pub baseline : Baseline
  pub revision : ℕ
  pub candidate : Id256

abbrev pub plan_beq : Plan → Plan → Bool
plan_beq a b =
    eqb a.recovery_id b.recovery_id
    && (a.baseline == b.baseline)
    && eqb a.revision b.revision
    && eqb a.candidate b.candidate

pub plan_beq_iff : (a b : Plan) → (plan_beq a b ≡ true) ↔ (a ≡ b)
plan_beq_iff a b = (
  λ h. ground (arith, baseline_beq_iff a.baseline b.baseline),
  λ h. ground (arith, baseline_beq_iff a.baseline b.baseline),
)

instance abbrev pub plan_eq : PartialEq Plan
plan_eq = record { test = plan_beq; test_iff = plan_beq_iff }

pub data Fence : Type 0 where
  health_failed : Fence
  isolated : Id256 → Fence

pub data Tail : Type 0 where
  quiescent prepared decided corrupt unknown : Tail

pub data Event : Type 0 where
  authorize : Event
  fence : Fence → Event
  seal : Id256 → Tail → Event
  install : Id256 → Event
  prepare : Id256 → Event
  activate : Id256 → Event

pub data Phase : Type 0 where
  restricted fenced source_sealed candidate_installed : Phase

-- The derived order of `Phase`.
abbrev pub rank : Phase → ℕ
rank restricted = 0
rank fenced = 1
rank source_sealed = 2
rank candidate_installed = 3

abbrev pub phase_max : Phase → Phase → Phase
phase_max a b = if leb (rank a) (rank b) then b else a

pub record Model : Type 0 where
  pub baseline : Baseline
  pub plan : Option Plan
  pub phase : Phase
  pub prepared : Bool × Bool
  pub active : Bool × Bool

-- `Model::new`
unfoldable pub new : Baseline → Model
new b = record {
  baseline = b;
  plan = none;
  phase = restricted;
  prepared = neither;
  active = neither;
}

-- What `validate_plan` asks of the plan itself.
unfoldable pub extends : Baseline → Plan → Bool
extends b p =
    (p.baseline == b)
    && (checked_add b.revision 1 == some p.revision)
    && not (eqb p.recovery_id 0)
    && not (eqb p.candidate 0)
    && not (eqb p.candidate b.old_primary)
    && not (eqb p.candidate b.survivor)

-- `self.plan.as_ref().is_some_and(|bound| bound != p)`
abbrev pub bound_to_another : Option Plan → Plan → Bool
bound_to_another none p = false
bound_to_another (some q) p = not (q == p)

-- `Model::validate_plan`
unfoldable pub validate_plan : Model → Plan → Result (Unit {0})
validate_plan m p = do
  validate_baseline m.baseline
  ensure (extends m.baseline p) "plan does not extend baseline"
  ensure (not (bound_to_another m.plan p)) "another plan already bound"

-- `Model::member`
unfoldable pub member : Plan → Id256 → Result Index2
member p id =
    if eqb id p.candidate
    then ok first
    else if eqb id p.baseline.survivor
    then ok second
    else err "not a member of replacement pair"

abbrev pub is_isolated : Fence → Id256 → Bool
is_isolated health_failed id = false
is_isolated (isolated i) id = eqb i id

abbrev pub is_quiescent : Tail → Bool
is_quiescent quiescent = true
is_quiescent _ = false

-- The `match` of `Model::step` below the authorization test.
unfoldable pub advance : Model → Plan → Event → Result Model
unfolding member
advance m p authorize = ok m
advance m p (fence proof) =
    if is_isolated proof p.baseline.old_primary
    then ok (record m { phase = phase_max m.phase fenced })
    else err "health or wrong instance is not fencing"
advance m p (seal checkpoint tail) =
    if ltb (rank m.phase) (rank fenced)
      || not (eqb checkpoint p.baseline.checkpoint)
      || not (is_quiescent tail)
    then err "source not fenced, matching and quiescent"
    else ok (record m { phase = phase_max m.phase source_sealed })
advance m p (install checkpoint) =
    if ltb (rank m.phase) (rank source_sealed) || not (eqb checkpoint p.baseline.checkpoint)
    then err "candidate does not match sealed source"
    else ok (record m { phase = phase_max m.phase candidate_installed })
advance m p (prepare id) = do
  i ← member p id
  if eqb (rank m.phase) (rank candidate_installed)
      then ok (record m { prepared = put_at m.prepared i true })
      else err "installation required"
advance m p (activate id) = do
  i ← member p id
  if both m.prepared
      then ok (record m { active = put_at m.active i true })
      else err "both members must be prepared"

abbrev pub is_authorize : Event → Bool
is_authorize authorize = true
is_authorize _ = false

-- `Model::step`: no branch writes before its last check, so an error leaves the model as it was.
unfoldable pub step : Model → Plan → Event → Result Model
step m p e = do
  validate_plan m p
  if is_authorize e
      then ok (record m { plan = some p })
      else (do ensure (m.plan == some p) "authorization required"; advance m p e)

-- `Model::both_active`
unfoldable pub both_active : Model → Bool
both_active m = both m.active

-- `Model::write_eligible`
unfoldable pub write_eligible : Model → Plan → Id256 → Bool → Bool
unfolding both_active
write_eligible m p id peer_available =
    (m.plan == some p) && eqb id p.candidate && both_active m && peer_available

-- A client that goes on after a refused event.
unfoldable pub attempt : Model → Plan × Event → Model
attempt m (p, e) = elim (step m p e) [ ok m' ↦ m' | err _ ↦ m ]

unfoldable pub run : Model → List (Plan × Event) → Model
unfolding attempt
run m [] = m
run m (x ∷ xs) = run (attempt m x) xs
