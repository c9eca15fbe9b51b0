-- ===== src/Pair/Model.antt =====
-- The data of the fixed pair: identity, batches, journal entries and their states
-- (replication/fixed-pair/src/lib.rs), checkpoints (checkpoint.rs) and receipts (receipts.rs).
-- The schema in an identity is the number of the reference node.
use terrapi_vault.Common.{
  eqb, PartialEq, ◌==◌, bool_eq, list_beq_iff, option_eq, list_eq, string_eq, nat_eq, Bytes, ℕ,
  String, ◌≡◌, ◌↔◌, Bool, true, false, ◌&&◌, List, arith,
}

pub record Identity : Type 0 where
  pub cluster : String
  pub tenant : String
  pub epoch : ℕ
  pub schema : ℕ

abbrev pub identity_beq : Identity → Identity → Bool
identity_beq a b =
    (a.cluster == b.cluster)
    && (a.tenant == b.tenant)
    && eqb a.epoch b.epoch
    && eqb a.schema b.schema

pub identity_beq_iff : (a b : Identity) → (identity_beq a b ≡ true) ↔ (a ≡ b)
identity_beq_iff a b =
    let c = string_eq.test_iff a.cluster b.cluster in
    let t = string_eq.test_iff a.tenant b.tenant in
    (λ h. ground (arith, c, t), λ h. ground (arith, c, t))

instance abbrev pub identity_eq : PartialEq Identity
identity_eq = record { test = identity_beq; test_iff = identity_beq_iff }

pub data Role : Type 0 where
  primary secondary : Role

abbrev pub role_beq : Role → Role → Bool
role_beq primary primary = true
role_beq secondary secondary = true
role_beq _ _ = false

-- `C` is the type of the changes.
pub record Batch (C : Type 0) : Type 0 where
  pub identity : Identity
  pub operation_id : String
  pub changes : List C

pub data State : Type 0 where
  prepared decided applied : State

abbrev pub state_beq : State → State → Bool
state_beq prepared prepared = true
state_beq decided decided = true
state_beq applied applied = true
state_beq _ _ = false

pub state_beq_iff : (a b : State) → (state_beq a b ≡ true) ↔ (a ≡ b)
state_beq_iff a b = ground arith

pub record Entry (C : Type 0) : Type 0 where
  pub batch : Batch C
  pub sequence : ℕ
  pub before : String
  pub after : String
  pub changeset : Bytes
  pub digest : String
  pub state : State

pub record Checkpoint : Type 0 where
  pub format : ℕ
  pub identity : Identity
  pub sequence : ℕ
  pub view_digest : String
  pub journal_digest : String
  pub receipt_digest : String

abbrev pub checkpoint_beq : Checkpoint → Checkpoint → Bool
checkpoint_beq a b =
    eqb a.format b.format
    && (a.identity == b.identity)
    && eqb a.sequence b.sequence
    && (a.view_digest == b.view_digest)
    && (a.journal_digest == b.journal_digest)
    && (a.receipt_digest == b.receipt_digest)

pub checkpoint_beq_iff : (a b : Checkpoint) → (checkpoint_beq a b ≡ true) ↔ (a ≡ b)
checkpoint_beq_iff a b =
    let i = identity_beq_iff a.identity b.identity in
    let v = string_eq.test_iff a.view_digest b.view_digest in
    let j = string_eq.test_iff a.journal_digest b.journal_digest in
    let r = string_eq.test_iff a.receipt_digest b.receipt_digest in
    (λ h. ground (arith, i, v, j, r), λ h. ground (arith, i, v, j, r))

instance abbrev pub checkpoint_eq : PartialEq Checkpoint
checkpoint_eq = record { test = checkpoint_beq; test_iff = checkpoint_beq_iff }

pub record WriteResult : Type 0 where
  pub operation_id : String
  pub sequence : ℕ

pub record OperationReceipt : Type 0 where
  pub fingerprint_version : ℕ
  pub request_digest : String
  pub result_version : ℕ
  pub result : WriteResult

abbrev pub receipt_beq : OperationReceipt → OperationReceipt → Bool
receipt_beq a b =
    eqb a.fingerprint_version b.fingerprint_version
    && (a.request_digest == b.request_digest)
    && eqb a.result_version b.result_version
    && (a.result.operation_id == b.result.operation_id)
    && eqb a.result.sequence b.result.sequence

pub receipt_beq_iff : (a b : OperationReceipt) → (receipt_beq a b ≡ true) ↔ (a ≡ b)
receipt_beq_iff a b =
    let d = string_eq.test_iff a.request_digest b.request_digest in
    let o = string_eq.test_iff a.result.operation_id b.result.operation_id in
    (λ h. ground (arith, d, o), λ h. ground (arith, d, o))

instance abbrev pub receipt_eq : PartialEq OperationReceipt
receipt_eq = record { test = receipt_beq; test_iff = receipt_beq_iff }

module _ {C : Type 0} ⦃change_eq : PartialEq C⦄ where
  abbrev pub batch_beq : Batch C → Batch C → Bool
  batch_beq a b =
      (a.identity == b.identity) && (a.operation_id == b.operation_id) && (a.changes == b.changes)

  pub batch_beq_iff : (a b : Batch C) → (batch_beq a b ≡ true) ↔ (a ≡ b)
  batch_beq_iff a b =
      let i = identity_beq_iff a.identity b.identity in
      let o = string_eq.test_iff a.operation_id b.operation_id in
      let c = list_beq_iff a.changes b.changes in
      (λ h. ground (arith, i, o, c), λ h. ground (arith, i, o, c))

  abbrev pub entry_beq : Entry C → Entry C → Bool
  entry_beq a b =
      batch_beq a.batch b.batch
      && eqb a.sequence b.sequence
      && (a.before == b.before)
      && (a.after == b.after)
      && (a.changeset == b.changeset)
      && (a.digest == b.digest)
      && state_beq a.state b.state

  pub entry_beq_iff : (a b : Entry C) → (entry_beq a b ≡ true) ↔ (a ≡ b)
  entry_beq_iff a b =
      let h1 = batch_beq_iff a.batch b.batch in
      let h2 = string_eq.test_iff a.before b.before in
      let h3 = string_eq.test_iff a.after b.after in
      let h4 = list_beq_iff a.changeset b.changeset in
      let h5 = string_eq.test_iff a.digest b.digest in
      let h6 = state_beq_iff a.state b.state in
      (λ h. ground (arith, h1, h2, h3, h4, h5, h6), λ h. ground (arith, h1, h2, h3, h4, h5, h6))
