-- ===== src/Recovery/Decision/Journal/Moves.antt =====
-- What the decision journal promises (replication/recovery/src/decision.rs): a relation on the
-- decision that it shows, and sequences of calls by callers that go on after an error.
use terrapi_vault.Common.{
  bool_eq, option_eq, list_eq, string_eq, nat_eq, Result, err, ok, Bytes, Index2, at, put_at, both,
  ◌≡◌, ◌≢◌, true, false, Option, none, some, List, [], ◌∷◌,
}
use terrapi_vault.Recovery.Model.{Id256, baseline_eq, plan_eq, member}
use terrapi_vault.Recovery.Jws.{Jws, profile_eq}
use terrapi_vault.Recovery.Grant.{Claims}
use terrapi_vault.Recovery.Decision.{
  Scope, Prepared, Request, Record, CommittedDecision, Policy, Codec,
}
use terrapi_vault.Recovery.Decision.Store.{Db}
use terrapi_vault.Recovery.Decision.Journal.{first_record, acknowledge, complete, decide}
use terrapi_vault.Recovery.Decision.Journal.Decide.{Authorized}

pub data Call : Type 0 where
  deciding : Request → Bytes → Policy → Call
  acknowledging : CommittedDecision → Prepared → Policy → Call
  completing : Request → Id256 → Policy → Call

module _ {J : Type 0} (c : Codec J) (scope : Scope) (j : Jws)
    (parse_claims : Bytes → Option Claims) where
  unfoldable pub perform : Call → Db J → Result (Db J)
  perform (deciding request token policy) = decide c scope j parse_claims request token policy
  perform (acknowledging decision member policy) = acknowledge c scope decision member policy
  perform (completing request id policy) = complete c scope request id policy

  -- A call that fails leaves the tables as they were.
  unfoldable pub attempt : Db J → Call → Db J
  attempt db x = elim (perform x db) [ ok db' ↦ db' | err _ ↦ db ]

  unfoldable pub run : Db J → List Call → Db J
  run db [] = db
  run db (x ∷ xs) = run (attempt db x) xs

  -- What an acknowledgement has to name in the recorded decision: the member `i` of its request.
  pub record Names (decision : CommittedDecision) (member : Prepared) (r : Record) (i : Index2)
      : Type 0 where
    pub same_request : decision.request ≡ r.request
    pub same_grant : decision.grant_id ≡ r.grant_id
    pub same_token : decision.token_digest ≡ c.token_sha256 r.token
    pub same_member : at r.request.prepared i ≡ member

  -- What one call that succeeds may do to the decision that the journal shows. A call that leaves the
  -- decision as it is repeats what is recorded there.
  pub data Move (x : Call) (o o' : Option Record) : Type 0 where
    decided_again :
        (r : Record) (policy : Policy)
        → x ≡ deciding r.request r.token policy
        → o ≡ some r
        → o' ≡ o
        → Move x o o'
    acknowledged_again :
        (r : Record) (decision : CommittedDecision) (member : Prepared) (policy : Policy)
        (i : Index2)
        → x ≡ acknowledging decision member policy
        → o ≡ some r
        → Names decision member r i
        → at r.acknowledgements i ≡ true
        → o' ≡ o
        → Move x o o'
    completed_again :
        (r : Record) (id : Id256) (policy : Policy)
        → x ≡ completing r.request id policy
        → o ≡ some r
        → both r.acknowledgements ≡ true
        → r.completion ≡ some id
        → id ≢ 0
        → o' ≡ o
        → Move x o o'
    decided :
        (request : Request) (token : Bytes) (policy : Policy) (g : Id256)
        → x ≡ deciding request token policy
        → Authorized c scope j parse_claims request token policy g
        → o ≡ none
        → o' ≡ some (first_record request token g)
        → Move x o o'
    acknowledged :
        (r : Record) (decision : CommittedDecision) (member : Prepared) (policy : Policy)
        (i : Index2)
        → x ≡ acknowledging decision member policy
        → o ≡ some r
        → Names decision member r i
        → policy.applied scope decision member ≡ ok tt
        → at r.acknowledgements i ≡ false
        → o' ≡ some (record r { acknowledgements = put_at r.acknowledgements i true })
        → Move x o o'
    completed :
        (r : Record) (id : Id256) (policy : Policy)
        → x ≡ completing r.request id policy
        → o ≡ some r
        → both r.acknowledgements ≡ true
        → r.completion ≡ none
        → id ≢ 0
        → o' ≡ some (record r { completion = some id })
        → Move x o o'
