-- ===== src/Pair/Tables.antt =====
-- The tables of a node and the statements on them: the journal (replication/fixed-pair/src/lib.rs,
-- journal.rs and journal/store.rs) and the receipts (receipts.rs). Rows stand newest first, that is
-- by falling sequence; the key columns of a row are the keys of its entry.
use terrapi_vault.Common.{
  ltb, eqb, if◌then◌else◌, ◌==◌, bool_eq, option_eq, list_eq, string_eq, nat_eq, Result, err, ok,
  ◌>>=◌, Bytes, byte_len, ℕ, suc, ◌*◌, String, Bool, true, false, ◌&&◌, Option, none, some, List,
  [], ◌∷◌,
}
use terrapi_vault.Pair.Model.{
  Identity, identity_eq, Role, Batch, applied, state_beq, Entry, Checkpoint, checkpoint_eq,
  OperationReceipt, receipt_eq,
}

-- What the code does not define itself: the SQL of an application schema (the traits `Schema` and
-- `RequestSchema` in schema.rs) on application data `V`, the session extension of SQLite, and
-- SHA-256 over what serde_json writes.
pub record Adapter (C V : Type 0) : Type 0 where
  pub version : ℕ
  pub fingerprint : List C → String
  pub empty : V
  pub check_schema : V → Result (Unit {0})
  pub foreign_key_check : V → Result (Unit {0})
  pub execute : V → List C → Result V
  -- `changeset_strm` from a state to another, and `apply_strm`, which also says whether it met a
  -- table that is not declared.
  pub changeset_strm : V → V → Bytes
  pub apply_strm : V → Bytes → Result (V × Bool)
  pub hash_view : V → String
  pub hash_entry : Batch C → ℕ → String → String → Bytes → String
  pub json_len : Entry C → ℕ
  pub hash_seed : Identity → String
  pub hash_link : String → String → String
  pub hash_receipts : List OperationReceipt → String

-- What the other parts of a node answer: recovery/activation.rs, publication.rs and
-- snapshot_staging.rs, and the schema contract and the pragmas of the database.
pub record Profile : Type 0 where
  pub admission : Result (Unit {0})
  pub publication_idle : Result (Unit {0})
  pub staging_idle : Result (Unit {0})
  pub recovery_peer : Result (Option ℕ)
  pub member_identity : Result (Option ℕ)
  pub membership : Result (Option ℕ)
  pub read_generation : ℕ
  pub schema_contract : Result String
  pub cipher_version : String
  pub synchronous : ℕ
  pub journal_mode : String

pub record Node (C V : Type 0) : Type 0 where
  pub role : Role
  pub identity : Identity
  pub profile : Profile
  -- The application tables.
  pub view : V
  pub replication_log : List (Entry C)
  pub operation_receipts : List OperationReceipt
  pub replication_base : Option Checkpoint
  pub replication_readiness : Option Checkpoint
  -- The writes of the journal, each of which draws a new `replication_revision`.
  pub revision : ℕ

abbrev pub max_page_entries : ℕ
max_page_entries = 32

abbrev pub max_page_bytes : ℕ
max_page_bytes = 8 * 1024 * 1024

abbrev pub is_empty : String → Bool
is_empty s = eqb (byte_len s) 0

abbrev pub base_sequence : Option Checkpoint → ℕ
base_sequence none = 0
base_sequence (some b) = b.sequence

-- SQLite refuses a second row with a key.
abbrev pub unique_violation : String
unique_violation = "UNIQUE constraint failed"

module _ {C : Type 0} where
  -- The row with an operation's identifier, and the one with a sequence.
  abbrev pub with_operation : String → List (Entry C) → Option (Entry C)
  with_operation id [] = none
  with_operation id (e ∷ log) = if e.batch.operation_id == id then some e else with_operation id log

  abbrev pub with_sequence : ℕ → List (Entry C) → Option (Entry C)
  with_sequence n [] = none
  with_sequence n (e ∷ log) = if eqb e.sequence n then some e else with_sequence n log

  abbrev pub first_row : List (Entry C) → Option (Entry C)
  first_row [] = none
  first_row (e ∷ log) = some e

  -- `DELETE FROM replication_log WHERE operation_id=?1`
  abbrev pub without_operation : String → List (Entry C) → List (Entry C)
  without_operation id [] = []
  without_operation id (e ∷ log) =
      let rest = without_operation id log in if e.batch.operation_id == id then rest else e ∷ rest

  -- The `INSERT ... ON CONFLICT(sequence) DO UPDATE` of `journal::store::write`, where no other row
  -- holds the operation's identifier; nothing is changed when the sequence belongs to another one.
  abbrev pub upsert : Entry C → List (Entry C) → Option (List (Entry C))
  upsert e [] = some (e ∷ [])
  upsert e (x ∷ log) =
      let rest = upsert e log in
      if ltb x.sequence e.sequence
      then some (e ∷ x ∷ log)
      else if eqb x.sequence e.sequence
      then (if x.batch.operation_id == e.batch.operation_id then some (e ∷ log) else none)
      else elim rest [ none ↦ none | some more ↦ some (x ∷ more) ]

  -- Would a new row break the key on operations? A row of the same sequence is updated instead.
  abbrev pub breaks_key : Entry C → List (Entry C) → Bool
  breaks_key e log = elim (with_sequence e.sequence log) [
    | some x ↦ false
    | none ↦ elim (with_operation e.batch.operation_id log) [ none ↦ false | some x ↦ true ]
  ]

  -- `journal::resolved`
  abbrev pub resolved : List (Entry C) → Bool
  resolved [] = true
  resolved (e ∷ log) = state_beq e.state applied && resolved log

  abbrev pub positive_keys : List (Entry C) → Bool
  positive_keys [] = true
  positive_keys (e ∷ log) = ltb 0 e.sequence && positive_keys log

  -- `count(*)` and `max(sequence)` of the rows above the base.
  abbrev pub count_above : ℕ → List (Entry C) → ℕ
  count_above floor [] = 0
  count_above floor (e ∷ log) =
      let rest = count_above floor log in if ltb floor e.sequence then suc rest else rest

  abbrev pub max_above : ℕ → List (Entry C) → ℕ
  max_above floor [] = 0
  max_above floor (e ∷ log) =
      let rest = max_above floor log in
      if ltb floor e.sequence then (if ltb rest e.sequence then e.sequence else rest) else rest

-- The statements on `operation_receipts`.
abbrev pub receipt_row : String → List OperationReceipt → Option OperationReceipt
receipt_row id [] = none
receipt_row id (r ∷ rows) = if r.result.operation_id == id then some r else receipt_row id rows

-- The sequence is a unique key too.
abbrev pub insert_receipt :
    OperationReceipt → List OperationReceipt → Result (List OperationReceipt)
insert_receipt r [] = ok (r ∷ [])
insert_receipt r (x ∷ rows) =
    let rest = insert_receipt r rows in
    if ltb x.result.sequence r.result.sequence
    then ok (r ∷ x ∷ rows)
    else if eqb x.result.sequence r.result.sequence
    then err unique_violation
    else (rest >>= λ more. ok (x ∷ more))
