-- ===== src/Recovery/Transition/Journal.antt =====
-- The operations of the transition journal (replication/recovery/src/transition.rs). Each runs in one
-- transaction: it returns the tables that it commits, with its answer.
use terrapi_vault.Common.{
  leb, eqb, if◌then◌else◌, bool_eq, list_beq, option_eq, list_eq, string_eq, nat_eq, Result, ok,
  ensure, ok_or, ◌>>=◌, ◌>>◌, length, any, Bytes, both, neither, ℕ, Bool, true, false, not, ◌&&◌,
  Option, none, some,
}
use terrapi_vault.Recovery.Model.{Id256, baseline_eq, plan_eq}
use terrapi_vault.Recovery.Jws.{profile_eq}
use terrapi_vault.Recovery.Transition.{
  checkpoint_eq, Participant, Request, request_beq, MaintenanceAbort, JournalScope,
  validate_request,
}
use terrapi_vault.Recovery.Transition.Tokens.{
  Trust, Crates, max_token, verify_issuance, verify_historical, verify_abort_historical,
}
use terrapi_vault.Recovery.Transition.Store.{
  Record, AbortRecord, Codec, Loss, Db, has_id, is_aborted, save,
}
use terrapi_vault.Recovery.Transition.Walk.{History, chain, read_with_revision, read}

-- `CommittedTransition`
pub record Committed : Type 0 where
  pub request : Request
  pub token : Bytes
  pub token_digest : Id256
  pub certificate_id : Id256
  pub acknowledgements : Bool × Bool
  pub completion : Option Id256

pub record CompletedTransition : Type 0 where
  pub committed : Committed
  pub completion : Id256

pub record HistoricalCompletedTransition : Type 0 where
  pub request : Request
  pub token : Bytes
  pub token_digest : Id256
  pub certificate_id : Id256
  pub completion : Id256

pub record CommittedMaintenanceAbort : Type 0 where
  pub abort : MaintenanceAbort
  pub token : Bytes
  pub token_digest : Id256
  pub certificate_id : Id256

pub record Status : Type 0 where
  pub request : Option Request
  pub acknowledgements : Bool × Bool
  pub completion : Option Id256
  pub last_revision : ℕ
  pub aborted : ℕ

-- The first and the second time that an operation asks for continuity.
pub data Moment : Type 0 where
  before after : Moment

-- The trait `Policy`: the answers that one operation gets.
pub record Policy : Type 0 where
  pub continuity : Moment → JournalScope → Request → Result (Unit {0})
  pub prepared : JournalScope → Request → Participant → Result (Unit {0})
  pub applied : JournalScope → Committed → Participant → Result (Unit {0})
  pub historical_completion : JournalScope → (historical current_head : Request) → Result (Unit {0})
  pub abort_applicable : JournalScope → MaintenanceAbort → Result (Unit {0})

abbrev pub is_some {ℓ} : {A : Type ℓ} → Option A → Bool
is_some none = false
is_some (some a) = true

module _ {J L : Type 0} (codec : Codec J) (loss : Loss L) (crates : Crates) (scope : JournalScope)
    (trust : Trust) where
  -- `committed`
  unfoldable pub committed : Record → Result Committed
  committed r = do
    v ← verify_historical crates trust r.token r.request
    ok (record {
      request = r.request;
      token = r.token;
      token_digest = v.token_digest;
      certificate_id = v.certificate_id;
      acknowledgements = r.acknowledgements;
      completion = r.completion;
    })

  -- `committed_abort`
  unfoldable pub committed_abort : AbortRecord → Result CommittedMaintenanceAbort
  committed_abort r = do
    certificate ← verify_abort_historical crates trust r.token r.abort
    ensure (eqb certificate r.certificate_id) "transition abort certificate mismatch"
    ok (record {
      abort = r.abort;
      token = r.token;
      token_digest = crates.token_sha256 r.token;
      certificate_id = certificate;
    })

  abbrev pub fresh_record : Request → Bytes → Record
  fresh_record q token = record {
    request = q;
    token = token;
    acknowledgements = neither;
    completion = none;
  }

  -- The part of `decide` for a request that is not the head's.
  unfoldable pub decide_next :
      Request → Bytes → (now : ℕ) → Policy → Db J L → History → Result (Db J L × Committed)
  unfolding chain
  decide_next q token now policy db h = do
    ensure (not (is_aborted q.revision h.aborts)) "transition revision aborted"
    ensure
        (not (has_id q.id h.ids) && not (any (λ x. eqb x.1.abort.aborted_request_id q.id) h.aborts))
        "duplicate transition request id"
    chain scope h.head h.consumed q
    v ← verify_issuance crates trust token q now
    policy.prepared scope q q.participants.0
    policy.prepared scope q q.participants.1
    policy.continuity after scope q
    let r = fresh_record q token
    saved ← save codec loss crates scope db r
    ok (
      saved,
      record {
        request = q;
        token = token;
        token_digest = v.token_digest;
        certificate_id = v.certificate_id;
        acknowledgements = neither;
        completion = none;
      },
    )

  unfoldable pub decide_on :
      Request
      → Bytes
      → (now : ℕ) → Policy
      → Db J L
      → History
      → Option Record
      → Result (Db J L × Committed)
  unfolding decide_next committed
  decide_on q token now policy db h none = decide_next q token now policy db h
  decide_on q token now policy db h (some r) =
      if request_beq r.request q
      then (do
        ensure (list_beq r.token token) "immutable transition conflict"
        found ← committed r
        ok (db, found))
      else decide_next q token now policy db h

  -- `old.head.is_some() || !successor_parent_exists(&tx)?`
  abbrev pub in_sequence : Option Record → L → Result Bool
  in_sequence (some r) l = ok true
  in_sequence none l = loss.successor_parent_exists l >>= λ succeeded. ok (not succeeded)

  -- `Journal::decide`
  unfoldable pub decide :
      Request → Bytes → (now : ℕ) → Policy → Db J L → Result (Db J L × Committed)
  unfolding decide_on
  decide q token now policy db = do
    validate_request q
    ensure (leb (length token) max_token) "token limit"
    old ← read codec loss crates scope trust db
    lost ← loss.loss_record_exists db.loss trust
    ensure (not lost) "transition superseded by participant loss"
    has_place ← in_sequence old.head db.loss
    ensure has_place "replacement transition requires loss sequencing"
    policy.continuity before scope q
    decide_on q token now policy db old old.head

  -- `Journal::fetch`
  unfoldable pub fetch : Request → Policy → Db J L → Result Committed
  unfolding committed
  fetch q policy db = do
    h ← read codec loss crates scope trust db
    lost ← loss.loss_record_exists db.loss trust
    ensure (not lost) "transition superseded by participant loss"
    r ← ok_or h.head "transition missing"
    ensure (request_beq r.request q) "transition unavailable"
    policy.continuity before scope q
    committed r

  -- `Journal::fetch_completed`
  unfoldable pub fetch_completed : Request → Policy → Db J L → Result CompletedTransition
  unfolding fetch
  fetch_completed q policy db = do
    found ← fetch q policy db
    ensure (both found.acknowledgements) "transition acknowledgements incomplete"
    completion ← ok_or found.completion "transition completion missing"
    ok (record { committed = found; completion = completion })

  -- `Journal::fetch_completed_revision`
  unfoldable pub fetch_completed_revision :
      Request → Policy → Db J L → Result HistoricalCompletedTransition
  fetch_completed_revision q policy db = do
    validate_request q
    (h, selected) ← read_with_revision codec loss crates scope trust db (some q.revision)
    ensure (not (is_aborted q.revision h.aborts)) "transition revision aborted"
    head ← ok_or h.head "transition missing"
    r ← ok_or selected "transition revision unavailable"
    ensure (request_beq r.request q) "transition request mismatch"
    ensure (both r.acknowledgements) "transition acknowledgements incomplete"
    completion ← ok_or r.completion "transition completion missing"
    policy.continuity before scope head.request
    policy.historical_completion scope r.request head.request
    v ← verify_historical crates trust r.token r.request
    ok (record {
      request = r.request;
      token = r.token;
      token_digest = v.token_digest;
      certificate_id = v.certificate_id;
      completion = completion;
    })

  abbrev pub status_of : Option Record → ℕ → ℕ → Status
  status_of none last_revision count = record {
    request = none;
    acknowledgements = neither;
    completion = none;
    last_revision = last_revision;
    aborted = count;
  }
  status_of (some r) last_revision count = record {
    request = some r.request;
    acknowledgements = r.acknowledgements;
    completion = r.completion;
    last_revision = last_revision;
    aborted = count;
  }

  -- `Journal::status`
  unfoldable pub status : Db J L → Result Status
  status db = do
    h ← read codec loss crates scope trust db
    ok (status_of h.head h.last_revision (length h.aborts))
