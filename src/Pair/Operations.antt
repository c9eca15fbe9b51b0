-- ===== src/Pair/Operations.antt =====
-- The operations of a node (replication/fixed-pair/src/lib.rs, and `receipt` and `completed_result`
-- of receipts.rs). Each of them is one transaction: it fails and leaves the node as it was, or gives
-- the node that is committed.
use terrapi_vault.Common.{
  leb, eqb, if◌then◌else◌, PartialEq, ◌==◌, bool_eq, option_eq, list_eq, string_eq, nat_eq, Result,
  ok, ensure, ok_or, ◌>>=◌, ◌>>◌, length, Bytes, checked_add, ℕ, suc, String, true, false, not,
  ◌&&◌, ◌||◌, Option, none, some, List,
}
use terrapi_vault.Pair.Model.{
  identity_eq, primary, secondary, role_beq, Batch, State, prepared, decided, applied, state_beq,
  Entry, checkpoint_eq, WriteResult, OperationReceipt, receipt_eq, batch_beq, entry_beq,
}
use terrapi_vault.Pair.Tables.{Adapter, Node, is_empty, without_operation, resolved}
use terrapi_vault.Pair.Store.{
  validate, check_entry_size, by_operation, by_sequence, tail, matches_request, get_receipt, save,
  validate_entry, journal_length,
}
use terrapi_vault.Pair.Checkpoints.{current, is_verified, advance}

module _ {C V : Type 0} ⦃change_eq : PartialEq C⦄ (adapter : Adapter C V) where
  -- `schema::capture`: the changes run in a transaction that is rolled back.
  unfoldable pub capture : V → List C → Result (String × String × Bytes)
  capture v changes = do
    adapter.check_schema v
    after ← adapter.execute v changes
    adapter.foreign_key_check after
    ok (adapter.hash_view v, adapter.hash_view after, adapter.changeset_strm v after)

  -- `schema::replay_data`, for the schema that the data has.
  unfoldable pub replay_data : V → (before after : String) → Bytes → Result V
  replay_data v before after changeset = do
    adapter.check_schema v
    ensure (adapter.hash_view v == before) "base state mismatch"
    (next, rejected) ← adapter.apply_strm v changeset
    ensure (not rejected) "changeset contains undeclared SQL table"
    adapter.foreign_key_check next
    ensure (adapter.hash_view next == after) "post-apply state mismatch"
    ok next

  unfoldable pub apply_changeset : V → Entry C → Result V
  apply_changeset v e = replay_data v e.before e.after e.changeset

  -- The new entry of `prepare`.
  abbrev pub fresh_entry : Batch C → ℕ → String → String → Bytes → Entry C
  fresh_entry batch sequence before after changeset = record {
    batch = batch;
    sequence = sequence;
    before = before;
    after = after;
    changeset = changeset;
    digest = adapter.hash_entry batch sequence before after changeset;
    state = prepared;
  }

  -- The end of `prepare`, with the sequence of the new entry.
  unfoldable pub prepare_entry : Batch C → Node C V → ℕ → Result (Node C V × Entry C)
  prepare_entry batch n sequence = do
    (before, after, changeset) ← capture n.view batch.changes
    let e = fresh_entry batch sequence before after changeset
    check_entry_size adapter e
    saved ← save adapter e n
    ok (saved, e)

  -- `prepare`, by the entry that the operation has already.
  unfoldable pub prepare_as : Batch C → Node C V → Option (Entry C) → Result (Node C V × Entry C)
  prepare_as batch n (some e) = do
    validate_entry adapter n e
    ensure (batch_beq e.batch batch) "idempotency key reused for different request"
    ok (n, e)
  prepare_as batch n none = do
    receipt ← get_receipt adapter n batch.operation_id
    ensure (elim receipt [ none ↦ true | some _ ↦ false ])
        "historical operation requires receipt retry, not prepare"
    length ← journal_length adapter n
    sequence ← ok_or (checked_add length 1) "sequence overflow"
    n.profile.publication_idle
    ensure (resolved n.replication_log) "recovery required"
    prepare_entry batch n sequence

  unfoldable pub prepare : Batch C → Node C V → Result (Node C V × Entry C)
  prepare batch n = do
    ensure (role_beq n.role primary) "only fixed primary may prepare"
    ensure ((batch.identity == n.identity) && not (is_empty batch.operation_id))
        "invalid batch identity"
    n.profile.admission
    old ← by_operation adapter n batch.operation_id
    prepare_as batch n old

  abbrev pub with_state : State → Entry C → Entry C
  with_state s e = record e { state = s }

  -- `stage`, by the entry that stands at the sequence.
  unfoldable pub stage_as : Entry C → Node C V → Option (Entry C) → Result (Node C V)
  stage_as e n (some old) = ensure (old.digest == e.digest) "divergent log" >> ok n
  stage_as e n none = do
    n.profile.publication_idle
    length ← journal_length adapter n
    ensure (eqb e.sequence (suc length) && resolved n.replication_log) "out-of-order stage"
    ensure (adapter.hash_view n.view == e.before) "base state mismatch"
    apply_changeset n.view e
    save adapter (with_state prepared e) n

  unfoldable pub stage : Entry C → Node C V → Result (Node C V)
  stage e n = do
    ensure (role_beq n.role secondary) "only secondary may stage"
    validate adapter e n.identity
    check_entry_size adapter e
    n.profile.admission
    n.profile.staging_idle
    old ← by_sequence adapter n e.sequence
    stage_as e n old

  -- `decide` of the entry that is found.
  unfoldable pub decide_entry : Node C V → Entry C → Result (Node C V × Entry C)
  decide_entry n e =
      if state_beq e.state prepared
      then (save adapter (with_state decided e) n >>= λ saved. ok (saved, with_state decided e))
      else ok (n, e)

  unfoldable pub decide : String → Node C V → Result (Node C V × Entry C)
  decide operation_id n = do
    ensure (role_beq n.role primary) "only primary decides"
    n.profile.admission
    found ← by_operation adapter n operation_id
    e ← ok_or found "unknown operation"
    decide_entry n e

  -- The transaction of `apply`, on an entry that is not yet applied.
  unfoldable pub apply_local : Node C V → Entry C → Result (Node C V)
  apply_local n local = do
    ensure (role_beq n.role secondary || state_beq local.state decided)
        "primary has no durable decision"
    ensure (adapter.hash_view n.view == local.before) "base state mismatch"
    verified ←
        if role_beq n.role secondary
        then is_verified adapter n n.replication_readiness
        else ok false
    view ← apply_changeset n.view local
    saved ← save adapter (with_state applied local) (record n { view = view })
    if verified then advance adapter saved else ok saved

  unfoldable pub apply : Entry C → Node C V → Result (Node C V)
  apply decision n = do
    validate adapter decision n.identity
    ensure (not (state_beq decision.state prepared)) "commit decision required"
    n.profile.admission
    n.profile.staging_idle
    found ← by_sequence adapter n decision.sequence
    local ← ok_or found "not staged"
    ensure (local.digest == decision.digest) "decision mismatch"
    if state_beq local.state applied
        then (validate_entry adapter n local >>= λ _. ok n)
        else apply_local n local

  -- `abort`, by the entry of the operation and the last one.
  unfoldable pub abort_as : String → Node C V → Option (Entry C) → Result (Node C V)
  abort_as operation_id n none = ok n
  abort_as operation_id n (some e) = do
    last ← tail adapter n
    ensure (state_beq e.state prepared && elim last [ none ↦ false | some t ↦ entry_beq t e ])
        "cannot abort committed/non-tail entry"
    ok (record n {
      replication_log = without_operation operation_id n.replication_log;
      revision = suc n.revision;
    })

  unfoldable pub abort : String → Node C V → Result (Node C V)
  abort operation_id n = do
    n.profile.admission
    n.profile.staging_idle
    found ← by_operation adapter n operation_id
    abort_as operation_id n found

  -- The receipt of an operation that has no entry any more.
  unfoldable pub orphan : Node C V → Option OperationReceipt → Result (Option OperationReceipt)
  orphan n none = ok none
  orphan n (some r) = do
    base ← ok_or n.replication_base "orphan receipt"
    ensure (leb r.result.sequence base.sequence) "orphan receipt"
    current adapter n false
    ok (some r)

  unfoldable pub receipt_as :
      Node C V → String → Option (Entry C) → Result (Option OperationReceipt)
  receipt_as n id (some e) = validate_entry adapter n e
  receipt_as n id none = get_receipt adapter n id >>= λ r. orphan n r

  unfoldable pub receipt : Node C V → String → Result (Option OperationReceipt)
  receipt n id = by_operation adapter n id >>= λ found. receipt_as n id found

  unfoldable pub completed_as : Batch C → Option OperationReceipt → Result (Option WriteResult)
  completed_as batch none = ok none
  completed_as batch (some r) = matches_request adapter r batch >> ok (some r.result)

  unfoldable pub completed_result : Node C V → Batch C → Result (Option WriteResult)
  completed_result n batch = do
    ensure ((batch.identity == n.identity) && not (is_empty batch.operation_id))
        "invalid batch identity"
    r ← receipt n batch.operation_id
    completed_as batch r
