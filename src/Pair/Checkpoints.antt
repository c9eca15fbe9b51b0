-- ===== src/Pair/Checkpoints.antt =====
-- The checkpoint of a node's history, which recovery compares on both copies
-- (replication/fixed-pair/src/checkpoint.rs).
use terrapi_vault.Common.{
  ltb, leb, eqb, if◌then◌else◌, ◌==◌, bool_eq, option_eq, list_eq, string_eq, nat_eq, Result, ok,
  ensure, ◌>>=◌, ◌>>◌, length, byte_len, i64_max, ℕ, suc, String, Bool, true, false, not, ◌&&◌,
  ◌||◌, Option, none, some, List, [], ◌∷◌,
}
use terrapi_vault.Pair.Model.{
  identity_eq, secondary, role_beq, applied, state_beq, Entry, Checkpoint, checkpoint_eq,
  OperationReceipt, receipt_eq,
}
use terrapi_vault.Pair.Tables.{Adapter, Node, is_empty, base_sequence, positive_keys}
use terrapi_vault.Pair.Store.{validate, validate_entry}

-- The rows up to a sequence and above a floor, oldest first (`ORDER BY sequence`).
abbrev pub rows_between :
    {C : Type 0} → (until floor : ℕ) → List (Entry C) → List (Entry C) → List (Entry C)
rows_between until floor [] acc = acc
rows_between until floor (e ∷ log) acc =
    rows_between until floor log
      (if leb e.sequence until && ltb floor e.sequence then e ∷ acc else acc)

abbrev pub receipts_until :
    ℕ → List OperationReceipt → List OperationReceipt → List OperationReceipt
receipts_until until [] acc = acc
receipts_until until (r ∷ rows) acc =
    receipts_until until rows (if leb r.result.sequence until then r ∷ acc else acc)

-- Where the walk over the journal stands: applied entries, pending, journal digest, last view.
pub record Walk : Type 0 where
  pub applied_count : ℕ
  pub pending : Bool
  pub chain : String
  pub previous : String

abbrev pub default {ℓ} : {A : Type ℓ} → A → Option A → A
default a none = a
default a (some b) = b

module _ {C V : Type 0} (adapter : Adapter C V) where
  -- The loop of `receipt_digest_from_for`, with the receipts already counted.
  unfoldable pub check_receipts : ℕ → List OperationReceipt → Result ℕ
  check_receipts count [] = ok count
  check_receipts count (r ∷ rows) = do
    ensure
        (eqb r.result.sequence (suc count)
          && not (is_empty r.result.operation_id)
          && eqb r.fingerprint_version adapter.version
          && eqb r.result_version 1
          && eqb (byte_len r.request_digest) 64)
        "invalid receipt prefix"
    check_receipts (suc count) rows

  -- `receipt_digest_from`
  unfoldable pub receipt_digest_from : Node C V → ℕ → Result String
  receipt_digest_from n until = do
    ensure (ltb 0 adapter.version) "invalid request fingerprint version"
    ensure (leb until i64_max) "receipt prefix outside SQLite range"
    let rows = receipts_until until n.operation_receipts []
    count ← check_receipts 0 rows
    ensure (eqb count until) "incomplete receipt prefix"
    ok (adapter.hash_receipts rows)

  -- The test of the base in `calculate_for`.
  unfoldable pub check_base : Node C V → Option Checkpoint → Result (Unit {0})
  check_base n none = ok tt
  check_base n (some b) = do
    ensure (eqb b.format 1 && (b.identity == n.identity)) "invalid base checkpoint"
    digest ← receipt_digest_from n b.sequence
    ensure (b.receipt_digest == digest) "invalid base checkpoint"

  -- One round of the loop in `calculate_for`.
  unfoldable pub walk_entry : Node C V → Walk → Entry C → Result Walk
  walk_entry n w e = do
    ensure (not w.pending) "invalid journal state ordering"
    ensure (e.batch.identity == n.identity) "identity/epoch/schema mismatch"
    if state_beq e.state applied then ok tt else validate adapter e n.identity
    ensure (not (is_empty e.batch.operation_id)) "journal operation key mismatch"
    validate_entry adapter n e
    ensure (eqb e.sequence (suc w.applied_count) && (e.before == w.previous))
        "checkpoint journal chain mismatch"
    ok (
        if state_beq e.state applied
        then record {
          applied_count = suc w.applied_count;
          pending = false;
          chain = adapter.hash_link w.chain e.digest;
          previous = e.after;
        }
        else record w { pending = true })

  unfoldable pub walk_entries : Node C V → Walk → List (Entry C) → Result Walk
  walk_entries n w [] = ok w
  walk_entries n w (e ∷ rows) = do next ← walk_entry n w e; walk_entries n next rows

  -- The walk before the first row.
  abbrev pub walk_start : Node C V → Option Checkpoint → Walk
  walk_start n none = record {
    applied_count = 0;
    pending = false;
    chain = adapter.hash_seed n.identity;
    previous = adapter.hash_view adapter.empty;
  }
  walk_start n (some b) = record {
    applied_count = b.sequence;
    pending = false;
    chain = b.journal_digest;
    previous = b.view_digest;
  }

  -- `calculate`; without `until` the receipts are counted too.
  abbrev pub prefix_fits : Option ℕ → ℕ → Bool
  prefix_fits none applied_count = true
  prefix_fits (some m) applied_count = leb applied_count m && leb m i64_max

  abbrev pub check_end : Node C V → Option ℕ → ℕ → Result (Unit {0})
  check_end n none applied_count =
      ensure (eqb (length n.operation_receipts) applied_count) "orphan receipt count"
  check_end n (some m) applied_count = ensure (eqb m applied_count) "missing checkpoint prefix"

  unfoldable pub calculate : Node C V → (quiescent : Bool) → Option ℕ → Result Checkpoint
  calculate n quiescent until = do
    ensure (positive_keys n.replication_log) "nonpositive journal sequence"
    check_base n n.replication_base
    ensure (prefix_fits until (base_sequence n.replication_base)) "checkpoint prefix before base"
    w ← walk_entries n (walk_start n n.replication_base) (
        rows_between (default i64_max until) (base_sequence n.replication_base) n.replication_log
          [])
    ensure (not ((quiescent || elim until [ none ↦ false | some _ ↦ true ]) && w.pending))
        "checkpoint requires resolved journal"
    check_end n until w.applied_count
    receipt_digest ← receipt_digest_from n w.applied_count
    ok record {
      format = 1;
      identity = n.identity;
      sequence = w.applied_count;
      view_digest = w.previous;
      journal_digest = w.chain;
      receipt_digest = receipt_digest;
    }

  unfoldable pub current : Node C V → (quiescent : Bool) → Result Checkpoint
  current n quiescent = do
    checkpoint ← calculate n quiescent none
    ensure (adapter.hash_view n.view == checkpoint.view_digest) "checkpoint data/journal mismatch"
    ok checkpoint

  -- `verified_view(...).is_some()`, by the stored readiness.
  unfoldable pub is_verified : Node C V → Option Checkpoint → Result Bool
  is_verified n none = ok false
  is_verified n (some marker) = do actual ← current n false; ok (actual == marker)

  unfoldable pub advance : Node C V → Result (Node C V)
  advance n = do
    checkpoint ← current n false
    ok (record n { replication_readiness = some checkpoint })

  unfoldable pub checkpoint_at : Node C V → ℕ → Result Checkpoint
  checkpoint_at n sequence = calculate n true (some sequence)

  unfoldable pub confirm_checkpoint : Checkpoint → Node C V → Result (Node C V)
  confirm_checkpoint expected n = do
    ensure (role_beq n.role secondary && (expected.identity == n.identity))
        "checkpoint identity/role mismatch"
    n.profile.staging_idle
    actual ← current n true
    ensure (actual == expected) "checkpoint mismatch"
    ok (record n { replication_readiness = some expected })
