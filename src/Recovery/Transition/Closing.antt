-- ===== src/Recovery/Transition/Closing.antt =====
-- How a transition ends, and the files of the journal: acknowledgements, completion and abort
-- (replication/recovery/src/transition.rs).
use terrapi_vault.Common.{
  ltb, leb, eqb, if◌then◌else◌, bool_eq, list_beq, option_eq, list_eq, string_eq, nat_eq, Result,
  ok, ensure, ok_or, ◌>>=◌, ◌>>◌, length, Bytes, Index2, first, second, at, put_at, both,
  checked_add, ℕ, ◌-◌, Bool, true, not, ◌&&◌, Option, none, some, List, [], ◌∷◌,
}
use terrapi_vault.Recovery.Model.{Id256, baseline_eq, plan_eq, member}
use terrapi_vault.Recovery.Jws.{profile_eq}
use terrapi_vault.Recovery.Transition.{
  checkpoint_eq, Participant, participant_beq, Request, request_beq, MaintenanceAbort, abort_beq,
  JournalScope, is_zero, validate_abort, validate_scope,
}
use terrapi_vault.Recovery.Transition.Tokens.{
  Trust, Crates, max_token, request_digest, verify_abort_issuance,
}
use terrapi_vault.Recovery.Transition.Store.{
  Record, AbortRecord, Codec, Loss, Db, max_abort_rows, lookup_abort, is_aborted, abort_in_scope,
  replace, save_abort,
}
use terrapi_vault.Recovery.Transition.Walk.{History, none_open, decided_abort, read}
use terrapi_vault.Recovery.Transition.Journal.{
  Committed, CommittedMaintenanceAbort, Moment, before, after, Policy, committed, committed_abort,
}

-- `participants.iter().position(|p| p == member)`
unfoldable pub position : Participant × Participant → Participant → Option Index2
position (a, b) member =
    if participant_beq a member
    then some first
    else if participant_beq b member
    then some second
    else none

module _ {J L : Type 0} (codec : Codec J) (loss : Loss L) (crates : Crates) (scope : JournalScope)
    (trust : Trust) where
  unfoldable pub acknowledge_at :
      Committed → Participant → Policy → Db J L → Record → Index2 → Result (Db J L)
  acknowledge_at decision member policy db r i = if at r.acknowledgements i then ok db else (do
    policy.applied scope decision member
    policy.continuity after scope r.request
    replace codec loss crates scope db
        (record r { acknowledgements = put_at r.acknowledgements i true }))

  -- `Journal::acknowledge`
  unfoldable pub acknowledge : Committed → Participant → Policy → Db J L → Result (Db J L)
  unfolding acknowledge_at position
  acknowledge decision member policy db = do
    h ← read codec loss crates scope trust db
    ensure (not (is_aborted decision.request.revision h.aborts)) "transition revision aborted"
    r ← ok_or h.head "transition missing"
    lost ← loss.loss_record_exists db.loss trust
    ensure (not lost) "transition superseded by participant loss"
    ensure (request_beq r.request decision.request) "transition handle is not current"
    found ← committed codec loss crates scope trust r
    ensure (eqb found.token_digest decision.token_digest) "transition handle is not current"
    policy.continuity before scope r.request
    i ← ok_or (position r.request.participants member) "transition member mismatch"
    acknowledge_at decision member policy db r i

  unfoldable pub complete_on : Id256 → Db J L → Record → Option Id256 → Result (Db J L)
  complete_on id db r none = replace codec loss crates scope db (record r { completion = some id })
  complete_on id db r (some old) = do
    ensure (eqb old id) "immutable transition completion conflict"
    ok db

  -- `Journal::complete`
  unfoldable pub complete : Committed → Id256 → Policy → Db J L → Result (Db J L)
  unfolding complete_on
  complete decision id policy db = do
    ensure (not (is_zero id)) "zero transition completion"
    h ← read codec loss crates scope trust db
    ensure (not (is_aborted decision.request.revision h.aborts)) "transition revision aborted"
    r ← ok_or h.head "transition missing"
    lost ← loss.loss_record_exists db.loss trust
    ensure (not lost) "transition superseded by participant loss"
    ensure (request_beq r.request decision.request) "transition completion evidence missing"
    found ← committed codec loss crates scope trust r
    ensure (eqb found.token_digest decision.token_digest && both r.acknowledgements)
        "transition completion evidence missing"
    policy.continuity before scope r.request
    complete_on id db r r.completion

  -- Continuity is asked for the effective head, if there is one.
  abbrev pub head_continuity : Policy → Moment → Option Record → Result (Unit {0})
  head_continuity policy moment none = ok tt
  head_continuity policy moment (some head) = policy.continuity moment scope head.request

  -- A never-decided abort takes the next revision.
  unfoldable pub next_target : MaintenanceAbort → History → Result (Unit {0})
  next_target a h = do
    expected ← ok_or (checked_add h.last_revision 1) "transition revision overflow"
    ensure (eqb a.aborted_revision expected) "maintenance abort target mismatch"
    ensure (none_open h.head) "decided transition must be aborted first"

  -- The record that the abort cancels, or none.
  unfoldable pub abort_target : MaintenanceAbort → History → Option Record → Result (Unit {0})
  unfolding next_target
  abort_target a h none = do
    ensure (not a.decided) "maintenance abort target mismatch"
    next_target a h
  abort_target a h (some r) =
      if eqb r.request.revision a.aborted_revision
      then decided_abort crates trust a r
      else (do ensure (not a.decided) "maintenance abort target mismatch"; next_target a h)

  unfoldable pub max_revision : ℕ → ℕ → ℕ
  max_revision a b = if leb a b then b else a

  unfoldable pub abort_on :
      MaintenanceAbort
      → Bytes
      → (now : ℕ) → Policy
      → Db J L
      → History
      → Option AbortRecord
      → Result (Db J L × CommittedMaintenanceAbort)
  unfolding abort_target
  abort_on a token now policy db h (some existing) = do
    ensure (abort_beq existing.abort a && list_beq existing.token token)
        "immutable maintenance abort conflict"
    head_continuity policy after h.head
    found ← committed_abort codec loss crates scope trust existing
    ok (db, found)
  abort_on a token now policy db h none = do
    abort_target a h h.head
    ensure (ltb (length h.aborts) max_abort_rows) "transition abort row limit"
    policy.abort_applicable scope a
    certificate ← verify_abort_issuance crates trust token a now
    head_continuity policy after h.head
    let r : AbortRecord = record {
      format = 2;
      abort = a;
      token = token;
      certificate_id = certificate;
    }
    saved ← save_abort codec loss crates scope db r
    found ← committed_abort codec loss crates scope trust r
    ok (record saved { head_revision = max_revision h.last_revision a.aborted_revision }, found)

  -- `Journal::abort`
  unfoldable pub abort :
      MaintenanceAbort
      → Bytes
      → (now : ℕ) → Policy
      → Db J L
      → Result (Db J L × CommittedMaintenanceAbort)
  unfolding abort_on
  abort a token now policy db = do
    validate_abort a
    ensure (leb (length token) max_token) "token limit"
    h ← read codec loss crates scope trust db
    succeeded ← loss.successor_parent_exists db.loss
    ensure (not succeeded) "maintenance abort is not available in a successor journal"
    lost ← loss.loss_record_exists db.loss trust
    ensure (not lost) "maintenance abort superseded by participant loss"
    ensure (abort_in_scope scope a) "maintenance abort scope binding"
    head_continuity policy before h.head
    abort_on a token now policy db h (lookup_abort a.aborted_revision h.aborts)

  -- `values().find(..)` of `fetch_abort`
  unfoldable pub find_abort : Id256 → Id256 → List (ℕ × AbortRecord) → Option AbortRecord
  find_abort digest id [] = none
  find_abort digest id ((_, r) ∷ rows) =
      if eqb r.abort.aborted_request digest && eqb r.abort.aborted_request_id id
      then some r
      else find_abort digest id rows

  -- `Journal::fetch_abort`
  unfoldable pub fetch_abort : Request → Policy → Db J L → Result CommittedMaintenanceAbort
  unfolding find_abort
  fetch_abort q policy db = do
    digest ← request_digest crates trust q
    h ← read codec loss crates scope trust db
    r ← ok_or (find_abort digest q.id h.aborts) "maintenance abort missing"
    head_continuity policy before h.head
    committed_abort codec loss crates scope trust r

  -- `Journal::create`: `absent` says that there is no file yet, `empty` are the tables of
  -- transition/loss.rs in a new file, and `created` is the outcome of `Vesta::create`.
  unfoldable pub create :
      (absent blank_passphrase : Bool) (created : Result (Unit {0})) (empty : L) → Result (Db J L)
  create absent blank_passphrase created empty = do
    validate_scope scope
    ensure (absent && not blank_passphrase) "invalid transition journal initialization"
    created
    ok (record {
      scope_row = codec.write_scope scope;
      head_revision = scope.initial_revision - 1;
      history = [];
      aborts = none;
      loss = empty;
    })

  -- `Journal::open`, for the tables in the file that is opened.
  unfoldable pub reopen :
      (is_file blank_passphrase : Bool) (opened : Result (Db J L)) → Result (Db J L)
  reopen is_file blank_passphrase opened = do
    validate_scope scope
    ensure (is_file && not blank_passphrase) "transition journal absent"
    db ← opened
    read codec loss crates scope trust db
    ok db
