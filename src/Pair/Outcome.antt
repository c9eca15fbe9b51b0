-- ===== src/Pair/Outcome.antt =====
-- What a client is told when a write is refused (replication/fixed-pair/src/coordinator.rs).
pub mod Reads
pub mod Steps
pub mod Writes
use terrapi_vault.Common.{
  PartialEq, bool_eq, option_eq, list_eq, string_eq, nat_eq, err, ok, ℕ, String, ◌≡◌, ◌≢◌, ◌⊎◌,
  Bool, true, false, none, some,
}
use terrapi_vault.Pair.Model.{
  Identity, identity_eq, primary, Batch, prepared, Entry, checkpoint_eq, OperationReceipt,
  receipt_eq,
}
use terrapi_vault.Pair.Tables.{Adapter, Node, is_empty, with_operation, receipt_row}
use terrapi_vault.Pair.Store.{matches_request}
use terrapi_vault.Pair.Operations.{prepare, decide, receipt}
use terrapi_vault.Pair.Run.{Fault, World, on_primary}
use terrapi_vault.Pair.Coordinator.{
  not_accepted, unknown, WriteFailure, Coordinator, refused, replied, attempt, invalid, admit,
  write,
}

-- The primary has no decision of the operation in its journal.
abbrev pub Undecided : {C V : Type 0} → String → Node C V → Type 0
Undecided {C} id n =
    (with_operation id n.replication_log ≡ none)
    ⊎ ((e : Entry C) × (with_operation id n.replication_log ≡ some e) × (e.state ≡ prepared))

module _ {C V : Type 0} ⦃change_eq : PartialEq C⦄ (adapter : Adapter C V) (fault : ℕ → Fault)
    (constraint : String → Bool) where
  -- Why a batch is rejected for good, with the primary that is left.
  pub data Rejected (identity : Identity) (batch : Batch C) (d : Coordinator C V) : Type 0 where
    other_identity : batch.identity ≢ identity → Rejected identity batch d
    unnamed : is_empty batch.operation_id ≡ true → Rejected identity batch d
    other_batch :
        (e : Entry C)
        → with_operation batch.operation_id d.copies.first_copy.replication_log ≡ some e
        → e.batch ≢ batch
        → Rejected identity batch d
    other_receipt :
        (r : OperationReceipt)
        → receipt adapter d.copies.first_copy batch.operation_id ≡ ok (some r)
        → ¬ (matches_request adapter r batch ≡ ok tt)
        → Rejected identity batch d
    constraint_violated :
        (w : World C V) (m : String)
        → on_primary fault (prepare adapter batch) w ≡ (d.copies, err m)
        → constraint m ≡ true
        → Rejected identity batch d

  -- What holds after a refusal.
  pub record Told (identity : Identity) (batch : Batch C) (f : WriteFailure) (d : Coordinator C V)
      : Type 0 where
    pub names : f.operation_id ≡ batch.operation_id
    pub has_status : (f.status_code ≡ 503) ⊎ (f ≡ invalid batch.operation_id)
    pub admits_nothing : f.status_code ≡ 503 → d.capabilities.writable ≡ false
    pub is_undecided :
        f.status_code ≡ 503
        → f.outcome ≡ not_accepted
        → Undecided batch.operation_id d.copies.first_copy
          × (receipt_row batch.operation_id d.copies.first_copy.operation_receipts ≡ none)
    pub is_rejected : f.status_code ≡ 400 → Rejected identity batch d

  -- A write that is refused after it reached its decision, whose saving failed, has an unknown outcome.
  pub record Refused (now : ℕ) (batch : Batch C) (c : Coordinator C V) (f : WriteFailure)
      (d : Coordinator C V) : Type 0 where
    pub told : Told c.copies.first_copy.identity batch f d
    pub is_uncertain :
        (w : Coordinator C V) (m : String)
        → admit adapter fault constraint now c.copies.first_copy.identity batch c
          ≡ (w, replied none)
        → (attempt (on_primary fault (decide adapter batch.operation_id)) w).1 ≡ err m
        → f.outcome ≡ unknown
