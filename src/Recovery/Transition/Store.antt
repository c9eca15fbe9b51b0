-- ===== src/Recovery/Transition/Store.antt =====
-- The tables of the transition journal (replication/recovery/src/transition.rs): their rows, the
-- scope row with the format marker, and the scan of the abort table. The tables of
-- replication/recovery/src/transition/loss.rs are seen through `Loss`.
use terrapi_vault.Common.{
  ltb, leb, eqb, if◌then◌else◌, ◌==◌, bool_eq, option_eq, list_eq, string_eq, nat_eq, Result, err,
  ok, ensure, ok_or, ◌>>=◌, ◌>>◌, length, any, Bytes, ℕ, ◌*◌, Bool, true, false, not, ◌&&◌, ◌||◌,
  Option, none, some, List, [], ◌∷◌, ◌++◌,
}
use terrapi_vault.Recovery.Model.{Id256, baseline_eq, plan_eq}
use terrapi_vault.Recovery.Jws.{profile_eq}
use terrapi_vault.Recovery.Transition.{
  checkpoint_eq, Request, MaintenanceAbort, JournalScope, scope_beq, validate_abort,
}
use terrapi_vault.Recovery.Transition.Tokens.{Trust, Crates, verify_abort_historical}

pub record Record : Type 0 where
  pub request : Request
  pub token : Bytes
  pub acknowledgements : Bool × Bool
  pub completion : Option Id256

pub record AbortRecord : Type 0 where
  pub format : ℕ
  pub abort : MaintenanceAbort
  pub token : Bytes
  pub certificate_id : Id256

-- What the crates serde_json and sha2 do with the texts `J` of the rows. The object of the scope row
-- is its marker, absent or a number or something else, and the rest.
pub record Codec (J : Type 0) : Type 0 where
  pub json_len : J → ℕ
  pub json_chars : J → ℕ
  pub json_sha256 : J → Id256
  pub write_scope : JournalScope → J
  pub parse_object : J → Result (Option (Option ℕ) × J)
  pub parse_scope : J → Result JournalScope
  pub with_marker : J → J
  pub write_record : Record → J
  pub parse_record : J → Result Record
  pub write_abort : AbortRecord → J
  pub parse_abort : J → Result AbortRecord

-- What the journal asks of the tables of transition/loss.rs, which are in a state of type `L`:
-- `validate_successor_parent`, `successor_parent_exists`, `loss_record_exists`, and whether the
-- tables that only format 2 knows hold rows.
pub record Loss (L : Type 0) : Type 0 where
  pub validate_successor_parent : L → Trust → JournalScope → Result (Unit {0})
  pub successor_parent_exists : L → Result Bool
  pub loss_record_exists : L → Trust → Result Bool
  pub format_two_rows : L → Bool

-- A row: revision, record, digest.
abbrev pub Row : (J : Type 0) → Type 0
Row J = ℕ × (J × Id256)

-- The rows of `transition_history` and `transition_abort` in the order of their revisions, which are
-- primary keys; the abort table is created when it is first needed.
pub record Db (J L : Type 0) : Type 0 where
  pub scope_row : J
  pub head_revision : ℕ
  pub history : List (Row J)
  pub aborts : Option (List (Row J))
  pub loss : L

abbrev pub max_record : ℕ
max_record = 256 * 1024

abbrev pub max_abort_rows : ℕ
max_abort_rows = 4096

abbrev pub max_scope : ℕ
max_scope = 64 * 1024

-- The value of `format` in `read_scope`.
abbrev pub marker_format : Option (Option ℕ) → Result ℕ
marker_format none = ok 1
marker_format (some none) = err "transition journal format"
marker_format (some (some f)) = if eqb f 2 then ok 2 else err "transition journal format"

-- `INSERT` of a row, which fails when the revision is taken.
abbrev pub insert_row {ℓ} : {A : Type ℓ} → ℕ → A → List (ℕ × A) → Option (List (ℕ × A))
insert_row revision row [] = some ((revision, row) ∷ [])
insert_row revision row ((r, x) ∷ rows) =
    let rest = insert_row revision row rows in
    if ltb revision r
    then some ((revision, row) ∷ (r, x) ∷ rows)
    else if eqb revision r
    then none
    else elim rest [ none ↦ none | some more ↦ some ((r, x) ∷ more) ]

-- `UPDATE` of the row with this revision.
abbrev pub update_row {ℓ} : {A : Type ℓ} → ℕ → A → List (ℕ × A) → Option (List (ℕ × A))
update_row revision row [] = none
update_row revision row ((r, x) ∷ rows) =
    let rest = update_row revision row rows in
    if eqb revision r
    then some ((r, row) ∷ rows)
    else elim rest [ none ↦ none | some more ↦ some ((r, x) ∷ more) ]

abbrev pub has_id : Id256 → List Id256 → Bool
has_id id ids = any (λ k. eqb k id) ids

-- `aborts.contains_key(&revision)`, and `get`.
abbrev pub lookup_abort {ℓ} : {A : Type ℓ} → ℕ → List (ℕ × A) → Option A
lookup_abort revision [] = none
lookup_abort revision ((r, x) ∷ rows) =
    if eqb r revision then some x else lookup_abort revision rows

abbrev pub is_aborted : {A : Type 0} → ℕ → List (ℕ × A) → Bool
is_aborted revision rows = any (λ x. eqb x.0 revision) rows

-- The fields of the scope that requests and aborts repeat.
unfoldable pub abort_in_scope : JournalScope → MaintenanceAbort → Bool
abort_in_scope scope a =
    (a.install == scope.install)
    && (a.region == scope.region)
    && eqb a.scope scope.scope
    && eqb a.schema scope.schema
    && eqb a.membership scope.membership
    && (a.source_anchor == scope.source_anchor)
    && eqb a.authority_id scope.authority_id

module _ {J L : Type 0} (codec : Codec J) (loss : Loss L) (crates : Crates)
    (scope : JournalScope) where
  -- `read_scope`
  unfoldable pub read_scope : Db J L → Result (JournalScope × ℕ)
  read_scope db = do
    ensure (leb (codec.json_len db.scope_row) max_scope) "transition scope limit"
    (marker, object) ← codec.parse_object db.scope_row
    format ← marker_format marker
    stored ← codec.parse_scope object
    ok (stored, format)

  -- `format_two_state`
  unfoldable pub format_two_state : Db J L → Bool
  format_two_state db =
      (elim db.aborts [ none ↦ false | some [] ↦ false | some (_ ∷ _) ↦ true ])
      || loss.format_two_rows db.loss

  -- `ensure_journal_format`
  unfoldable pub ensure_journal_format : Db J L → Result (Unit {0})
  unfolding read_scope format_two_state
  ensure_journal_format db = do
    (stored, format) ← read_scope db
    ensure (scope_beq stored scope) "transition journal scope mismatch"
    ensure (eqb format 2 || not (format_two_state db))
        "format-2 journal state without format marker"

  -- The tests of one row in `read_aborts`, after those of the rows before.
  unfoldable pub read_abort_row : Trust → List (ℕ × AbortRecord) → Row J → Result AbortRecord
  read_abort_row trust before (revision, (json, digest)) = do
    ensure (leb (codec.json_len json) max_record) "transition abort record limit"
    ensure (eqb digest (codec.json_sha256 json)) "transition abort record integrity"
    r ← codec.parse_abort json
    ensure (eqb r.format 2) "transition abort record format"
    validate_abort r.abort
    ensure (eqb revision r.abort.aborted_revision) "transition abort revision mismatch"
    ensure (abort_in_scope scope r.abort) "maintenance abort scope binding"
    certificate ← verify_abort_historical crates trust r.token r.abort
    ensure (eqb certificate r.certificate_id) "transition abort certificate mismatch"
    ensure
        (not (any (λ x. eqb x.1.abort.id r.abort.id) before)
          && not (any (λ x. eqb x.1.abort.aborted_request_id r.abort.aborted_request_id) before))
        "duplicate maintenance abort"
    ensure (not (is_aborted revision before)) "duplicate maintenance abort"
    ok r

  -- The loop of `read_aborts`.
  unfoldable pub read_abort_rows :
      Trust → List (ℕ × AbortRecord) → List (Row J) → Result (List (ℕ × AbortRecord))
  unfolding read_abort_row
  read_abort_rows trust before [] = ok before
  read_abort_rows trust before (row ∷ rows) = do
    r ← read_abort_row trust before row
    read_abort_rows trust (before ++ (row.0, r) ∷ []) rows

  unfoldable pub read_abort_table : Trust → Option (List (Row J)) → Result (List (ℕ × AbortRecord))
  unfolding read_abort_rows
  read_abort_table trust none = ok []
  read_abort_table trust (some rows) = do
    ensure (leb (length rows) max_abort_rows) "transition abort row limit"
    ensure (not (any (λ row. ltb max_record (codec.json_chars row.1.0)) rows))
        "transition abort record limit"
    read_abort_rows trust [] rows

  -- `read_aborts`
  unfoldable pub read_aborts : Trust → Db J L → Result (List (ℕ × AbortRecord))
  unfolding read_abort_table
  read_aborts trust db = read_abort_table trust db.aborts

  -- `mark_journal_format_two`
  abbrev pub marked : J → Option (Option ℕ) → J
  marked raw none = codec.with_marker raw
  marked raw (some _) = raw

  unfoldable pub mark_journal_format_two : Db J L → Result (Db J L)
  mark_journal_format_two db = do
    ensure (leb (codec.json_len db.scope_row) max_scope) "transition scope limit"
    (marker, _) ← codec.parse_object db.scope_row
    let json = marked db.scope_row marker
    ensure (leb (codec.json_len json) max_scope) "transition scope limit"
    ok (record db { scope_row = json })

  -- `save`
  unfoldable pub save : Db J L → Record → Result (Db J L)
  save db r = do
    let json = codec.write_record r
    ensure (leb (codec.json_len json) max_record) "transition record limit"
    rows ←
        ok_or (insert_row r.request.revision (json, codec.json_sha256 json) db.history)
          "UNIQUE constraint failed"
    ok (record db { history = rows; head_revision = r.request.revision })

  -- `replace`
  unfoldable pub replace : Db J L → Record → Result (Db J L)
  replace db r = do
    let json = codec.write_record r
    ensure (leb (codec.json_len json) max_record) "transition record limit"
    rows ←
        ok_or (update_row r.request.revision (json, codec.json_sha256 json) db.history)
          "transition update failed"
    ok (record db { history = rows })

  abbrev pub abort_rows : Option (List (Row J)) → List (Row J)
  abort_rows none = []
  abort_rows (some rows) = rows

  -- `save_abort`
  unfoldable pub save_abort : Db J L → AbortRecord → Result (Db J L)
  unfolding mark_journal_format_two
  save_abort db r = do
    let json = codec.write_abort r
    ensure (leb (codec.json_len json) max_record) "transition abort record limit"
    after ← mark_journal_format_two db
    rows ←
        ok_or
          (insert_row r.abort.aborted_revision (json, codec.json_sha256 json)
            (abort_rows db.aborts))
          "UNIQUE constraint failed"
    ok (record after { aborts = some rows })
