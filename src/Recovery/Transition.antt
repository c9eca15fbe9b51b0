-- ===== src/Recovery/Transition.antt =====
-- replication/recovery/src/transition.rs: the values of the transition journal, and their validity.
pub mod Tokens
pub mod Store
pub mod Walk
pub mod Journal
pub mod Closing
pub mod Windows
pub mod AbortTokens
pub mod Decided
pub mod Cancelled
use terrapi_vault.Common.{
  ltb, leb, eqb, if◌then◌else◌, PartialEq, ◌==◌, bool_beq, bool_beq_iff, option_beq_iff, option_eq,
  string_eq, Result, err, ok, is_blank, byte_len, i64_max, values, ℕ, String, ◌≡◌, ◌↔◌, Bool, true,
  false, not, ◌&&◌, ◌||◌, Option, none, some, arith,
}
use terrapi_vault.Recovery.Model.{Id256, attempt}
use terrapi_vault.Recovery.Jws.{Profile, profile_eq, validate_profile}

pub record Checkpoint : Type 0 where
  pub sequence : ℕ
  pub digest : Id256

abbrev pub checkpoint_beq : Checkpoint → Checkpoint → Bool
checkpoint_beq a b = eqb a.sequence b.sequence && eqb a.digest b.digest

pub checkpoint_beq_iff : (a b : Checkpoint) → (checkpoint_beq a b ≡ true) ↔ (a ≡ b)
checkpoint_beq_iff a b = (λ h. ground arith, λ h. ground arith)

instance abbrev pub checkpoint_eq : PartialEq Checkpoint
checkpoint_eq = record { test = checkpoint_beq; test_iff = checkpoint_beq_iff }

pub record Participant : Type 0 where
  pub member : Id256
  pub generation : Id256
  pub old_base : Option Checkpoint
  pub target : Checkpoint
  pub plan : Id256
  pub publication : Id256

abbrev pub participant_beq : Participant → Participant → Bool
participant_beq a b =
    eqb a.member b.member
    && eqb a.generation b.generation
    && (a.old_base == b.old_base)
    && (a.target == b.target)
    && eqb a.plan b.plan
    && eqb a.publication b.publication

pub participant_beq_iff : (a b : Participant) → (participant_beq a b ≡ true) ↔ (a ≡ b)
participant_beq_iff a b =
    let o = option_beq_iff a.old_base b.old_base in
    let t = checkpoint_beq_iff a.target b.target in
    (λ h. ground (arith, o, t), λ h. ground (arith, o, t))

-- Participants are the primary, then the secondary.
pub record Request : Type 0 where
  pub format : ℕ
  pub id : Id256
  pub authority_id : Id256
  pub revision : ℕ
  pub install : String
  pub region : String
  pub scope : Id256
  pub schema : Id256
  pub membership : Id256
  pub source_anchor : Checkpoint
  pub participants : Participant × Participant

abbrev pub request_beq : Request → Request → Bool
request_beq a b =
    eqb a.format b.format
    && eqb a.id b.id
    && eqb a.authority_id b.authority_id
    && eqb a.revision b.revision
    && (a.install == b.install)
    && (a.region == b.region)
    && eqb a.scope b.scope
    && eqb a.schema b.schema
    && eqb a.membership b.membership
    && (a.source_anchor == b.source_anchor)
    && participant_beq a.participants.0 b.participants.0
    && participant_beq a.participants.1 b.participants.1

pub request_beq_iff : (a b : Request) → (request_beq a b ≡ true) ↔ (a ≡ b)
request_beq_iff a b =
    let i = string_eq.test_iff a.install b.install in
    let r = string_eq.test_iff a.region b.region in
    let s = checkpoint_beq_iff a.source_anchor b.source_anchor in
    let p = participant_beq_iff a.participants.0 b.participants.0 in
    let q = participant_beq_iff a.participants.1 b.participants.1 in
    (λ h. ground (arith, i, r, s, p, q), λ h. ground (arith, i, r, s, p, q))

-- A cancellation of an attempt, decided or never decided.
pub record MaintenanceAbort : Type 0 where
  pub format : ℕ
  pub id : Id256
  pub authority_id : Id256
  pub revision : ℕ
  pub install : String
  pub region : String
  pub scope : Id256
  pub schema : Id256
  pub membership : Id256
  pub aborted_request : Id256
  pub aborted_request_id : Id256
  pub aborted_revision : ℕ
  pub decided : Bool
  pub source_anchor : Checkpoint

abbrev pub abort_beq : MaintenanceAbort → MaintenanceAbort → Bool
abort_beq a b =
    eqb a.format b.format
    && eqb a.id b.id
    && eqb a.authority_id b.authority_id
    && eqb a.revision b.revision
    && (a.install == b.install)
    && (a.region == b.region)
    && eqb a.scope b.scope
    && eqb a.schema b.schema
    && eqb a.membership b.membership
    && eqb a.aborted_request b.aborted_request
    && eqb a.aborted_request_id b.aborted_request_id
    && eqb a.aborted_revision b.aborted_revision
    && bool_beq a.decided b.decided
    && (a.source_anchor == b.source_anchor)

pub abort_beq_iff : (a b : MaintenanceAbort) → (abort_beq a b ≡ true) ↔ (a ≡ b)
abort_beq_iff a b =
    let i = string_eq.test_iff a.install b.install in
    let r = string_eq.test_iff a.region b.region in
    let s = checkpoint_beq_iff a.source_anchor b.source_anchor in
    let d = bool_beq_iff a.decided b.decided in
    (λ h. ground (arith, i, r, s, d), λ h. ground (arith, i, r, s, d))

pub record JournalScope : Type 0 where
  pub install : String
  pub region : String
  pub profile : Profile
  pub scope : Id256
  pub schema : Id256
  pub membership : Id256
  pub source_anchor : Checkpoint
  pub authority_id : Id256
  pub initial_revision : ℕ

abbrev pub scope_beq : JournalScope → JournalScope → Bool
scope_beq a b =
    (a.install == b.install)
    && (a.region == b.region)
    && (a.profile == b.profile)
    && eqb a.scope b.scope
    && eqb a.schema b.schema
    && eqb a.membership b.membership
    && (a.source_anchor == b.source_anchor)
    && eqb a.authority_id b.authority_id
    && eqb a.initial_revision b.initial_revision

-- `id == [0; 32]`
abbrev pub is_zero : Id256 → Bool
is_zero id = eqb id 0

unfoldable pub valid_text : String → Bool
valid_text value = not (is_blank value) && leb (byte_len value) 512

unfoldable pub valid_checkpoint : Checkpoint → Bool
valid_checkpoint value = leb value.sequence i64_max && not (is_zero value.digest)

unfoldable pub valid_target : Checkpoint → Bool
unfolding valid_checkpoint
valid_target value = ltb 0 value.sequence && valid_checkpoint value

-- `p.old_base.as_ref().is_some_and(..)`
unfoldable pub bad_base : Option Checkpoint → Checkpoint → Bool
unfolding valid_checkpoint
bad_base none target = false
bad_base (some base) target = not (valid_checkpoint base) || leb target.sequence base.sequence

-- The tests of `Request::validate`: one that holds refuses the request.
unfoldable pub invalid_request : Request → Participant → Participant → Bool
unfolding valid_text valid_checkpoint valid_target bad_base
invalid_request q primary secondary =
    not (eqb q.format 1)
    || is_zero q.id
    || is_zero q.authority_id
    || eqb q.revision 0
    || ltb i64_max q.revision
    || is_zero q.scope
    || is_zero q.schema
    || is_zero q.membership
    || not (valid_text q.install)
    || not (valid_text q.region)
    || not (valid_checkpoint q.source_anchor)
    || is_zero primary.member
    || is_zero secondary.member
    || eqb primary.member secondary.member
    || is_zero primary.generation
    || is_zero secondary.generation
    || eqb primary.generation secondary.generation
    || is_zero primary.plan
    || is_zero secondary.plan
    || not (eqb primary.plan secondary.plan)
    || is_zero primary.publication
    || is_zero secondary.publication
    || not (valid_target primary.target)
    || not (primary.target == secondary.target)
    || leb primary.target.sequence q.source_anchor.sequence
    || bad_base primary.old_base primary.target
    || bad_base secondary.old_base secondary.target

-- `Request::validate`
unfoldable pub validate_request : Request → Result (Unit {0})
unfolding invalid_request
validate_request q =
    if invalid_request q q.participants.0 q.participants.1
    then err "invalid transition request"
    else ok tt

-- `MaintenanceAbort::validate`
unfoldable pub validate_abort : MaintenanceAbort → Result (Unit {0})
unfolding valid_text valid_checkpoint
validate_abort a =
    if not (eqb a.format 2)
      || is_zero a.id
      || is_zero a.authority_id
      || eqb a.revision 0
      || ltb i64_max a.revision
      || not (valid_text a.install)
      || not (valid_text a.region)
      || is_zero a.scope
      || is_zero a.schema
      || is_zero a.membership
      || is_zero a.aborted_request
      || is_zero a.aborted_request_id
      || eqb a.aborted_revision 0
      || ltb i64_max a.aborted_revision
      || not (eqb a.revision a.aborted_revision)
      || not (valid_checkpoint a.source_anchor)
    then err "invalid maintenance abort"
    else ok tt

-- `JournalScope::validate`
unfoldable pub validate_scope : JournalScope → Result (Unit {0})
unfolding valid_text valid_checkpoint
validate_scope s =
    if not (valid_text s.install)
      || not (valid_text s.region)
      || is_zero s.scope
      || is_zero s.schema
      || is_zero s.membership
      || is_zero s.authority_id
      || eqb s.initial_revision 0
      || ltb i64_max s.initial_revision
      || not (valid_checkpoint s.source_anchor)
    then err "invalid transition journal scope"
    else validate_profile s.profile
