-- ===== src/Pair/Store.antt =====
-- The reads and writes of a node's journal and receipts (replication/fixed-pair/src/lib.rs,
-- journal.rs, journal/store.rs and receipts.rs).
use terrapi_vault.Common.{
  ltb, leb, eqb, if◌then◌else◌, ◌==◌, bool_eq, option_eq, list_eq, string_eq, nat_eq, Result, ok,
  ensure, ok_or, ◌>>=◌, ◌>>◌, length, i64_max, checked_add, ℕ, suc, ◌+◌, String, not, ◌&&◌, Option,
  none, some,
}
use terrapi_vault.Pair.Model.{
  Identity, identity_eq, Batch, prepared, applied, state_beq, Entry, checkpoint_eq,
  OperationReceipt, receipt_eq,
}
use terrapi_vault.Pair.Tables.{
  Adapter, Node, max_page_bytes, is_empty, base_sequence, unique_violation, with_operation,
  with_sequence, first_row, upsert, breaks_key, positive_keys, count_above, max_above, receipt_row,
  insert_receipt,
}

module _ {C V : Type 0} (adapter : Adapter C V) where
  unfoldable pub checksum : Entry C → String
  checksum e = adapter.hash_entry e.batch e.sequence e.before e.after e.changeset

  -- `Entry::validate`
  unfoldable pub validate : Entry C → Identity → Result (Unit {0})
  validate e identity = do
    ensure (e.batch.identity == identity) "identity/epoch/schema mismatch"
    ensure (e.digest == checksum e) "changeset checksum mismatch"

  unfoldable pub check_entry_size : Entry C → Result (Unit {0})
  check_entry_size e =
      ensure
        (ltb (adapter.json_len e + (if state_beq e.state prepared then 0 else 1)) max_page_bytes)
        "single entry exceeds page budget"

  -- `journal::store::decode`
  unfoldable pub decode : Entry C → Result (Entry C)
  decode e = do
    ensure (ltb 0 e.sequence && not (is_empty e.batch.operation_id)) "stored journal key mismatch"
    validate e e.batch.identity
    ok e

  abbrev pub decode_row : Option (Entry C) → Result (Option (Entry C))
  decode_row none = ok none
  decode_row (some e) = do entry ← decode e; ok (some entry)

  abbrev pub by_operation : Node C V → String → Result (Option (Entry C))
  by_operation n id = decode_row (with_operation id n.replication_log)

  abbrev pub by_sequence : Node C V → ℕ → Result (Option (Entry C))
  by_sequence n sequence = decode_row (with_sequence sequence n.replication_log)

  abbrev pub tail : Node C V → Result (Option (Entry C))
  tail n = decode_row (first_row n.replication_log)

  -- `journal::store::write`
  unfoldable pub write_entry : Entry C → Node C V → Result (Node C V)
  write_entry e n = do
    ensure (ltb 0 e.sequence && leb e.sequence i64_max && not (is_empty e.batch.operation_id))
        "invalid journal key"
    validate e e.batch.identity
    ensure (not (breaks_key e n.replication_log)) unique_violation
    log ← ok_or (upsert e n.replication_log) "journal sequence belongs to another operation"
    ok (record n { replication_log = log; revision = suc n.revision })

  -- `OperationReceipt::from_applied`
  unfoldable pub from_applied : Entry C → Result OperationReceipt
  from_applied e = do
    ensure (state_beq e.state applied) "receipt requires applied entry"
    ensure (ltb 0 adapter.version) "invalid request fingerprint version"
    ensure (not (is_empty e.batch.operation_id) && ltb 0 e.sequence && leb e.sequence i64_max)
        "invalid receipt key"
    validate e e.batch.identity
    ok record {
      fingerprint_version = adapter.version;
      request_digest = adapter.fingerprint e.batch.changes;
      result_version = 1;
      result = record { operation_id = e.batch.operation_id; sequence = e.sequence };
    }

  -- `OperationReceipt::matches_request`
  unfoldable pub matches_request : OperationReceipt → Batch C → Result (Unit {0})
  matches_request r batch = do
    ensure
        (ltb 0 adapter.version
          && eqb r.fingerprint_version adapter.version
          && eqb r.result_version 1)
        "unsupported receipt version"
    ensure
        (not (is_empty batch.operation_id)
          && ltb 0 r.result.sequence
          && leb r.result.sequence i64_max
          && (r.result.operation_id == batch.operation_id)
          && (r.request_digest == adapter.fingerprint batch.changes))
        "idempotency key reused for different request"

  -- `receipts::get_for`
  unfoldable pub decode_receipt : Option OperationReceipt → Result (Option OperationReceipt)
  decode_receipt none = ok none
  decode_receipt (some r) = do
    ensure
        (ltb 0 r.result.sequence
          && not (is_empty r.result.operation_id)
          && eqb r.fingerprint_version adapter.version
          && eqb r.result_version 1)
        "invalid receipt metadata/version"
    ok (some r)

  unfoldable pub get_receipt : Node C V → String → Result (Option OperationReceipt)
  get_receipt n id = do
    ensure (ltb 0 adapter.version) "invalid request fingerprint version"
    decode_receipt (receipt_row id n.operation_receipts)

  -- The end of `receipts::insert_for`, by what stands in the table.
  unfoldable pub add_receipt :
      OperationReceipt → Node C V → Option OperationReceipt → Result (Node C V)
  add_receipt r n (some old) = ensure (old == r) "receipt conflict" >> ok n
  add_receipt r n none = do
    rows ← insert_receipt r n.operation_receipts
    ok (record n { operation_receipts = rows })

  unfoldable pub insert_for : Entry C → Node C V → Result (Node C V)
  insert_for e n = do
    receipt ← from_applied e
    old ← get_receipt n e.batch.operation_id
    add_receipt receipt n old

  -- `save` of lib.rs
  unfoldable pub save : Entry C → Node C V → Result (Node C V)
  save e n = do
    written ← write_entry e n
    if state_beq e.state applied then insert_for e written else ok written

  -- `receipts::validate_entry_for`
  abbrev pub expected_receipt : Entry C → Result (Option OperationReceipt)
  expected_receipt e =
      if state_beq e.state applied then (from_applied e >>= λ r. ok (some r)) else ok none

  unfoldable pub validate_entry : Node C V → Entry C → Result (Option OperationReceipt)
  validate_entry n e = do
    actual ← get_receipt n e.batch.operation_id
    expected ← expected_receipt e
    ensure (actual == expected) "receipt/journal mismatch"
    ok actual

  -- The length in `journal::head_for`.
  unfoldable pub journal_length : Node C V → Result ℕ
  journal_length n = do
    ensure (positive_keys n.replication_log) "nonpositive journal sequence"
    length ←
        ok_or
          (checked_add (base_sequence n.replication_base)
            (count_above (base_sequence n.replication_base) n.replication_log))
          "journal length overflow"
    let maximum = max_above (base_sequence n.replication_base) n.replication_log
    ensure
        (eqb length (
            if ltb maximum (base_sequence n.replication_base)
            then base_sequence n.replication_base
            else maximum)
          && leb length i64_max)
        "journal sequence gap"
    ok length
