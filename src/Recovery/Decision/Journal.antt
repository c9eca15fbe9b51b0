-- ===== src/Recovery/Decision/Journal.antt =====
-- The operations of the decision journal (replication/recovery/src/decision.rs). Each runs in one
-- transaction: it returns the tables that are committed, and an error commits nothing.
pub mod Decide
pub mod Moves
pub mod Refine
pub mod Kept
pub mod Explain
use terrapi_vault.Common.{
  leb, eqb, if◌then◌else◌, ◌==◌, option_beq, list_beq, string_eq, nat_eq, Result, ok, ensure, ok_or,
  ◌>>=◌, ◌>>◌, length, Bytes, Index2, first, second, at, put_at, both, neither, ◌*◌, String, Bool,
  true, not, ◌&&◌, Option, none, some,
}
use terrapi_vault.Recovery.Model.{Id256, plan_eq, prepared, install, member}
use terrapi_vault.Recovery.Jws.{Jws, profile_beq}
use terrapi_vault.Recovery.Grant.{Claims, verify}
use terrapi_vault.Recovery.Decision.{
  Scope, validate_scope, Prepared, prepared_beq, Request, request_beq, validate_request, Record,
  Status, CommittedDecision, before, after, Policy, Codec,
}
use terrapi_vault.Recovery.Decision.Store.{max_record, Db, read, save}

-- `Journal::create`: `exists` is `path.exists()`, and `made` the outcome of `Vesta::create`.
unfoldable pub create :
    {J : Type 0} → Codec J → Scope → Bool → String → Result (Unit {0}) → Result (Db J)
create c scope exists passphrase made = do
  validate_scope scope
  ensure (not exists && not (passphrase == "")) "invalid decision journal initialization"
  ensure (leb (c.json_len (c.write_scope scope)) max_record) "scope limit"
  made
  ok (record { format = 2; scope_json = c.write_scope scope; row = none })

-- `record.request.prepared.iter().position(|p| p == member)`
unfoldable pub position : Prepared × Prepared → Prepared → Option Index2
position (p, q) m =
    if prepared_beq p m then some first else if prepared_beq q m then some second else none

abbrev pub request_of : Option Record → Option Request
request_of none = none
request_of (some r) = some r.request

abbrev pub acknowledgements_of : Option Record → Bool × Bool
acknowledgements_of none = neither
acknowledgements_of (some r) = r.acknowledgements

abbrev pub completion_of : Option Record → Option Id256
completion_of none = none
completion_of (some r) = r.completion

-- The decision as `decide` first records it.
unfoldable pub first_record : Request → Bytes → Id256 → Record
first_record request token grant_id = record {
  request = request;
  token = token;
  grant_id = grant_id;
  acknowledgements = neither;
  completion = none;
}

module _ {J : Type 0} (c : Codec J) (scope : Scope) where
  -- `Journal::open`: `is_file` is `path.is_file()`, and `opened` the outcome of `Vesta::open`.
  unfoldable pub reopen : Bool → String → Result (Db J) → Result (Db J)
  reopen is_file passphrase opened = do
    validate_scope scope
    ensure (is_file && not (passphrase == "")) "decision journal absent"
    db ← opened
    read c scope db
    ok db

  -- `Journal::status`
  unfoldable pub status : Db J → Result Status
  status db = do
    r ← read c scope db
    ok (record {
      request = request_of r;
      acknowledgements = acknowledgements_of r;
      completion = completion_of r;
    })

  -- `Journal::fetch`
  unfoldable pub fetch : Request → Policy → Db J → Result CommittedDecision
  fetch request policy db = do
    policy.continuity before scope
    found ← read c scope db
    r ← ok_or found "decision missing"
    ensure (request_beq r.request request && option_beq r.completion none)
        "decision unavailable for delivery"
    ok (record {
      request = r.request;
      token_digest = c.token_sha256 r.token;
      grant_id = r.grant_id;
    })

  unfoldable pub acknowledge_at :
      CommittedDecision → Prepared → Policy → Db J → Record → Index2 → Result (Db J)
  acknowledge_at decision member policy db r i = if at r.acknowledgements i then ok db else (do
    policy.applied scope decision member
    policy.continuity after scope
    save c scope db (record r { acknowledgements = put_at r.acknowledgements i true }))

  -- `Journal::acknowledge`
  unfoldable pub acknowledge : CommittedDecision → Prepared → Policy → Db J → Result (Db J)
  unfolding acknowledge_at
  acknowledge decision member policy db = do
    policy.continuity before scope
    found ← read c scope db
    r ← ok_or found "decision missing"
    ensure
        (request_beq r.request decision.request
          && eqb r.grant_id decision.grant_id
          && eqb (c.token_sha256 r.token) decision.token_digest)
        "ack decision mismatch"
    i ← ok_or (position r.request.prepared member) "ack member mismatch"
    acknowledge_at decision member policy db r i

  unfoldable pub complete_on : Id256 → Db J → Record → Option Id256 → Result (Db J)
  complete_on id db r none = save c scope db (record r { completion = some id })
  complete_on id db r (some previous) = do
    ensure (eqb previous id) "immutable completion conflict"
    ok db

  -- `Journal::complete`
  unfoldable pub complete : Request → Id256 → Policy → Db J → Result (Db J)
  unfolding complete_on
  complete request id policy db = do
    ensure (not (eqb id 0)) "zero completion id"
    policy.continuity before scope
    found ← read c scope db
    r ← ok_or found "decision missing"
    ensure (request_beq r.request request && both r.acknowledgements) "completion evidence missing"
    complete_on id db r r.completion

  module _ (j : Jws) (parse_claims : Bytes → Option Claims) where
    -- The part of `decide` that an empty journal reaches.
    unfoldable pub decide_first : Request → Bytes → Policy → Db J → Result (Db J)
    decide_first request token policy db = do
      ctx ← policy.context scope request
      ensure
          ((ctx.install_id == scope.install)
            && (ctx.region == scope.region)
            && profile_beq ctx.profile scope.profile)
          "policy scope mismatch"
      grant ← verify j parse_claims ctx token
      ensure (grant.plan == request.plan) "decision/grant mismatch"
      policy.prepared scope request
      policy.continuity after scope
      save c scope db (first_record request token grant.grant_id)

    -- The part that finds a decision recorded.
    unfoldable pub decide_on : Request → Bytes → Policy → Db J → Option Record → Result (Db J)
    unfolding decide_first
    decide_on request token policy db none = decide_first request token policy db
    decide_on request token policy db (some r) = do
      ensure (request_beq r.request request && list_beq r.token token) "immutable decision conflict"
      ok db

    -- `Journal::decide`
    unfoldable pub decide : Request → Bytes → Policy → Db J → Result (Db J)
    unfolding decide_on
    decide request token policy db = do
      validate_request request scope.baseline
      ensure (leb (length token) (16 * 1024)) "token limit"
      policy.continuity before scope
      found ← read c scope db
      decide_on request token policy db found
