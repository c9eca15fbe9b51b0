-- ===== src/Pair/Coordinator.antt =====
-- Write admission and the outcome that a client is told (replication/fixed-pair/src/coordinator.rs).
use terrapi_vault.Common.{
  leb, if◌then◌else◌, PartialEq, ◌==◌, bool_eq, option_eq, list_eq, string_eq, nat_eq, Result, err,
  ok, ℕ, ◌-◌, String, Bool, true, false, not, ◌&&◌, ◌||◌, Option, none, some,
}
use terrapi_vault.Pair.Model.{
  Identity, identity_eq, primary, role_beq, Batch, prepared, state_beq, Entry, checkpoint_eq,
  WriteResult, OperationReceipt, receipt_eq, batch_beq,
}
use terrapi_vault.Pair.Tables.{Adapter, is_empty}
use terrapi_vault.Pair.Store.{by_operation, matches_request}
use terrapi_vault.Pair.Operations.{prepare, stage, decide, apply, receipt, completed_result}
use terrapi_vault.Pair.Run.{Fault, World, Run, on_primary, on_secondary, reading, writing}
use terrapi_vault.Pair.Protocol.{recover}

pub record Capabilities : Type 0 where
  pub readable : Bool
  pub writable : Bool
  pub reason : String

pub data Outcome : Type 0 where
  not_accepted unknown : Outcome

pub record WriteFailure : Type 0 where
  pub status_code : ℕ
  pub operation_id : String
  pub outcome : Outcome
  pub retry_same_operation_id : Bool
  pub reason : String

-- `verified_at` is in milliseconds of the clock that `Instant` reads.
pub record Coordinator (C V : Type 0) : Type 0 where
  pub copies : World C V
  pub capabilities : Capabilities
  pub verified_at : Option ℕ

pub data Reply (T : Type 0) : Type 0 where
  refused : (failure : WriteFailure) → Reply T
  replied : (value : T) → Reply T

-- A step of a write: what it leaves, and its reply.
abbrev pub Step : (C V T : Type 0) → Type 0
Step C V T = Coordinator C V → Coordinator C V × Reply T

module _ {C V T U : Type 0} where
  infixl 5 ◌>>=◌ ◌>>◌
  abbrev pub after_reply : (T → Step C V U) → Coordinator C V × Reply T → Coordinator C V × Reply U
  after_reply next (c, refused f) = (c, refused f)
  after_reply next (c, replied t) = next t c

  unfoldable pub ◌>>=◌ : Step C V T → (T → Step C V U) → Step C V U
  (m >>= next) c = after_reply next (m c)

  abbrev pub ◌>>◌ : Step C V T → Step C V U → Step C V U
  m >> next = m >>= (λ _. next)

module _ {C V T : Type 0} where
  abbrev pub reply : T → Step C V T
  reply t c = (c, replied t)

  -- What a run over the copies leaves.
  abbrev pub attempt : Run C V T → Coordinator C V → Coordinator C V × Result T
  attempt m c = (record c { copies = (m c.copies).0 }, (m c.copies).1)

unfoldable pub new_coordinator :
    {C V : Type 0} → World C V → (readable : Bool) → Result (Coordinator C V)
new_coordinator w readable = elim (role_beq w.first_copy.role primary) [
  | false ↦ err "coordinator requires fixed primary"
  | true ↦ ok record {
    copies = w;
    capabilities = record { readable = readable; writable = false; reason = "recovery_required" };
    verified_at = none;
  }
]

-- `capabilities()` at a time: an observation of one second ago or more does not count.
abbrev pub is_stale : (now : ℕ) → Option ℕ → Bool
is_stale now none = true
is_stale now (some t) = leb 1000 (now - t)

unfoldable pub capabilities_at : {C V : Type 0} → (now : ℕ) → Coordinator C V → Capabilities
capabilities_at now c =
    if c.capabilities.writable && is_stale now c.verified_at
    then record c.capabilities { writable = false; reason = "verification_expired" }
    else c.capabilities

abbrev pub unreachable_reason : String
unreachable_reason = "peer_unavailable_or_recovery_required"

abbrev pub invalid : String → WriteFailure
invalid id = record {
  status_code = 400;
  operation_id = id;
  outcome = not_accepted;
  retry_same_operation_id = false;
  reason = "invalid_request_or_idempotency_conflict";
}

-- The outcome in `unavailable`, by what the primary says of the operation.
abbrev pub outcome_of :
    {C : Type 0} → Result (Option (Entry C)) → Result (Option OperationReceipt) → Outcome
outcome_of (ok none) (ok none) = not_accepted
outcome_of (ok (some e)) (ok none) = if state_beq e.state prepared then not_accepted else unknown
outcome_of _ _ = unknown

module _ {C V : Type 0} ⦃change_eq : PartialEq C⦄ (adapter : Adapter C V) (fault : ℕ → Fault)
    (constraint : String → Bool) where
  abbrev pub operation_of : String → Run C V (Option (Entry C))
  operation_of id = on_primary fault (reading (λ n. by_operation adapter n id))

  abbrev pub receipt_for : String → Run C V (Option OperationReceipt)
  receipt_for id = on_primary fault (reading (λ n. receipt adapter n id))

  abbrev pub closed : Coordinator C V → Coordinator C V
  closed c = record c {
    capabilities = record c.capabilities { writable = false; reason = unreachable_reason };
  }

  unfoldable pub unavailable : String → Coordinator C V → Coordinator C V × WriteFailure
  unavailable id c =
      let (c1, e) = attempt (operation_of id) (closed c) in
      let (c2, r) = attempt (receipt_for id) c1 in
      (
        c2,
        record {
          status_code = 503;
          operation_id = id;
          outcome = outcome_of e r;
          retry_same_operation_id = true;
          reason = c2.capabilities.reason;
        },
      )

  -- `return Err(self.unavailable(&id))`
  abbrev pub give_up : {T : Type 0} → String → Step C V T
  give_up id c = ((unavailable id c).0, refused (unavailable id c).1)

  abbrev pub reply_as :
      {T : Type 0} → String → Coordinator C V × Result T → Coordinator C V × Reply T
  reply_as id (c, err m) = give_up id c
  reply_as id (c, ok t) = (c, replied t)

  -- A run whose failure makes the write unavailable.
  unfoldable pub or_unavailable : {T : Type 0} → String → Run C V T → Step C V T
  or_unavailable id m c = reply_as id (attempt m c)

  unfoldable pub reject_if : Bool → String → Step C V (Unit {0})
  reject_if true id c = (c, refused (invalid id))
  reject_if false id c = (c, replied tt)

  abbrev pub prepare_reply :
      String → Coordinator C V × Result (Entry C) → Coordinator C V × Reply (Entry C)
  prepare_reply id (c, ok e) = (c, replied e)
  prepare_reply id (c, err m) = if constraint m then (c, refused (invalid id)) else give_up id c

  unfoldable pub prepare_step : Batch C → Step C V (Entry C)
  prepare_step batch c =
      prepare_reply batch.operation_id (attempt (on_primary fault (prepare adapter batch)) c)

  -- A decision whose saving failed has an uncertain outcome.
  abbrev pub decide_reply :
      String → Coordinator C V × Result (Entry C) → Coordinator C V × Reply (Entry C)
  decide_reply id (c, ok d) = (c, replied d)
  decide_reply id (c, err m) =
      ((unavailable id c).0, refused (record (unavailable id c).1 { outcome = unknown }))

  unfoldable pub decide_step : String → Step C V (Entry C)
  decide_step id c = decide_reply id (attempt (on_primary fault (decide adapter id)) c)

  -- `reconcile`: `readable` is whether the primary can be read.
  abbrev pub reconciled : (now : ℕ) → Coordinator C V × Result ℕ → Coordinator C V × Result ℕ
  reconciled now (c, err m) = (c, err m)
  reconciled now (c, ok completed) = elim c.copies.first_copy.profile.publication_idle [
    | err m ↦ (c, err m)
    | ok _ ↦ (
      record c {
        capabilities = record c.capabilities { writable = true; reason = "replicas_synchronized" };
        verified_at = some now;
      },
      ok completed,
    )
  ]

  abbrev pub result_reply : {T : Type 0} → Result T → Bool
  result_reply (ok _) = true
  result_reply (err _) = false

  unfoldable pub reconcile : (now : ℕ) → Coordinator C V → Coordinator C V × Result ℕ
  reconcile now c =
      let (c1, view) = attempt (on_primary fault (reading (λ n. ok n.view))) c in
      reconciled now (
        attempt (recover adapter fault) (record c1 {
          capabilities = record {
            readable = result_reply view;
            writable = false;
            reason = unreachable_reason;
          };
        }))

  unfoldable pub reconcile_step : (now : ℕ) → String → Step C V ℕ
  reconcile_step now id c = reply_as id (reconcile now c)

  abbrev pub conflicts : Option (Entry C) → Batch C → Bool
  conflicts none batch = false
  conflicts (some e) batch = not (batch_beq e.batch batch)

  abbrev pub mismatches : Option OperationReceipt → Batch C → Bool
  mismatches none batch = false
  mismatches (some r) batch = not (result_reply (matches_request adapter r batch))

  unfoldable pub receipt_reply : String → Option OperationReceipt → Step C V WriteResult
  receipt_reply id none c = give_up id c
  receipt_reply id (some r) c = (c, replied r.result)

  -- The preparation of a batch on both nodes.
  abbrev pub admit_as : Batch C → Option WriteResult → Step C V (Option WriteResult)
  admit_as batch (some result) = reply (some result)
  admit_as batch none = do
    let id = batch.operation_id
    e ← prepare_step batch
    or_unavailable id (on_secondary fault (writing (stage adapter e)))
    reply none

  -- `write` up to its decision: the result of a batch that is durable already, or none when the batch
  -- is prepared on both nodes. `identity` is that of the primary.
  unfoldable pub admit : (now : ℕ) → Identity → Batch C → Step C V (Option WriteResult)
  admit now identity batch = do
    let id = batch.operation_id
    previous ← or_unavailable id (operation_of id)
    reject_if (not (batch.identity == identity) || is_empty id || conflicts previous batch) id
    r ← or_unavailable id (receipt_for id)
    reject_if (mismatches r batch) id
    reconcile_step now id
    result ← or_unavailable id (on_primary fault (reading (λ n. completed_result adapter n batch)))
    admit_as batch result

  -- `write` from its decision on.
  unfoldable pub settle : String → Step C V WriteResult
  settle id = do
    decision ← decide_step id
    or_unavailable id (on_secondary fault (writing (apply adapter decision)))
    or_unavailable id (on_primary fault (writing (apply adapter decision)))
    r ← or_unavailable id (receipt_for id)
    receipt_reply id r

  abbrev pub settle_as : String → Option WriteResult → Step C V WriteResult
  settle_as id none = settle id
  settle_as id (some result) = reply result

  unfoldable pub write : (now : ℕ) → Batch C → Step C V WriteResult
  write now batch c =
      (admit now c.copies.first_copy.identity batch >>= settle_as batch.operation_id) c
