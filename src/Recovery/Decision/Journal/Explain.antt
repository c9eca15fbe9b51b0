-- ===== src/Recovery/Decision/Journal/Explain.antt =====
-- What it took for the journal to show a decision (replication/recovery/src/decision.rs).
use mathlib.Core.List.{Memᴰ}
use terrapi_vault.Common.{
  bool_eq, option_eq, list_eq, string_eq, nat_eq, ok, Bytes, Index2, first, second, at, put_at,
  both, neither, ◌≡◌, refl, sym, subst, ◌≢◌, ◌⊎◌, inl, inr, Bool, true, Option, none, some, List,
  [], ◌∷◌, arith,
}
use terrapi_vault.Recovery.Model.{Id256, baseline_eq, plan_eq}
use terrapi_vault.Recovery.Jws.{Jws, profile_eq}
use terrapi_vault.Recovery.Grant.{Claims}
use terrapi_vault.Recovery.Decision.{
  Scope, Prepared, Request, Record, CommittedDecision, Policy, Codec, IsFaithful,
}
use terrapi_vault.Recovery.Decision.Store.{Db, read}
use terrapi_vault.Recovery.Decision.Journal.{first_record}
use terrapi_vault.Recovery.Decision.Journal.Decide.{Authorized}
use terrapi_vault.Recovery.Decision.Journal.Moves.{
  Call, deciding, acknowledging, completing, attempt, run, Move, decided_again, acknowledged_again,
  completed_again, decided, acknowledged, completed,
}
use terrapi_vault.Recovery.Decision.Journal.Refine.{attempt-Move}

acknowledged_before :
    (acks : Bool × Bool) (i k : Index2)
    → at (put_at acks i true) k ≡ true
    → (i ≡ k) ⊎ (at acks k ≡ true)
acknowledged_before acks i k h = ground arith

still_both : (acks : Bool × Bool) (i : Index2) → both acks ≡ true → both (put_at acks i true) ≡ true
still_both acks i h = ground arith

module _ {J : Type 0} (c : Codec J) (scope : Scope) (j : Jws)
    (parse_claims : Bytes → Option Claims) where
  -- An authenticated acknowledgement of the member `m` for `request`, among the calls of `P`.
  pub record Applied (P : Call → Type 0) (request : Request) (m : Prepared) : Type 0 where
    pub decision : CommittedDecision
    pub policy : Policy
    pub was_called : P (acknowledging decision m policy)
    pub for_request : decision.request ≡ request
    pub evidence : policy.applied scope decision m ≡ ok tt

  -- Why the journal shows `r`, with the calls taken from those that `P` holds of.
  pub record Explained (P : Call → Type 0) (r : Record) : Type 0 where
    pub policy : Policy
    pub was_decided : P (deciding r.request r.token policy)
    pub authorized : Authorized c scope j parse_claims r.request r.token policy r.grant_id
    pub was_acknowledged :
        (i : Index2)
        → at r.acknowledgements i ≡ true
        → Applied P r.request (at r.request.prepared i)
    pub was_completed :
        (id : Id256)
        → r.completion ≡ some id
        → (p : Policy) × (both r.acknowledgements ≡ true) × P (completing r.request id p)

  abbrev ExplainedOption : (Call → Type 0) → Option Record → Type 0
  ExplainedOption P none = Unit
  ExplainedOption P (some r) = Explained P r

  module _ (P : Call → Type 0) where
    decided-Explained :
        (request : Request) (token : Bytes) (policy : Policy) (g : Id256)
        → P (deciding request token policy)
        → Authorized c scope j parse_claims request token policy g
        → Explained P (first_record request token g)
    unfolding first_record
    decided-Explained request token policy g p a = record {
      policy = policy;
      was_decided = p;
      authorized = a;
      was_acknowledged = λ i h. absurd (unacknowledged i h);
      was_completed = λ id h. absurd (cc);
    }
      where
        unacknowledged : (i : Index2) → at neither i ≢ true
        unacknowledged first h = cc
        unacknowledged second h = cc

    acknowledged-Explained :
        (r : Record) (i : Index2)
        → Explained P r
        → Applied P r.request (at r.request.prepared i)
        → Explained P (record r { acknowledgements = put_at r.acknowledgements i true })
    acknowledged-Explained r i h a = record {
      policy = h.policy;
      was_decided = h.was_decided;
      authorized = h.authorized;
      was_acknowledged = λ k t. elim (acknowledged_before r.acknowledgements i k t) [
        | inl e ↦ subst (λ y. Applied P r.request (at r.request.prepared y)) e a
        | inr t' ↦ h.was_acknowledged k t'
      ];
      was_completed =
          λ id t. let (p, b, q) = h.was_completed id t in (p, still_both r.acknowledgements i b, q);
    }

    completed-Explained :
        (r : Record) (id : Id256) (p : Policy)
        → Explained P r
        → both r.acknowledgements ≡ true
        → P (completing r.request id p)
        → Explained P (record r { completion = some id })
    completed-Explained r id p h b q = record {
      policy = h.policy;
      was_decided = h.was_decided;
      authorized = h.authorized;
      was_acknowledged = h.was_acknowledged;
      was_completed =
          λ k t. let e : id ≡ k = cc in (p, b, subst (λ y. P (completing r.request y p)) e q);
    }

    Move-Explained :
        (x : Call) (o o' : Option Record)
        → P x
        → ExplainedOption P o
        → Move c scope j parse_claims x o o'
        → ExplainedOption P o'
    Move-Explained x o o' p h (decided_again _ _ _ _ w) = subst (ExplainedOption P) (sym w) h
    Move-Explained x o o' p h (acknowledged_again _ _ _ _ _ _ _ _ _ w) =
        subst (ExplainedOption P) (sym w) h
    Move-Explained x o o' p h (completed_again _ _ _ _ _ _ _ _ w) =
        subst (ExplainedOption P) (sym w) h
    Move-Explained x o o' p h (decided request token policy g e a n w) =
        subst (ExplainedOption P) (sym w) (decided-Explained request token policy g (subst P e p) a)
    Move-Explained x o o' p h (acknowledged r d m policy i e q names a n w) =
        let there : Applied P r.request m = record {
          decision = d;
          policy = policy;
          was_called = subst P e p;
          for_request = names.same_request;
          evidence = a;
        } in
        subst (ExplainedOption P) (sym w) (
          acknowledged-Explained r i (subst (ExplainedOption P) q h)
            (subst (Applied P r.request) (sym names.same_member) there))
    Move-Explained x o o' p h (completed r id policy e q b n z w) =
        subst (ExplainedOption P) (sym w)
          (completed-Explained r id policy (subst (ExplainedOption P) q h) b (subst P e p))

    run-ExplainedOption :
        IsFaithful c
        → (db : Db J) (xs : List Call) (o : Option Record) → read c scope db ≡ ok o
        → ExplainedOption P o
        → ((x : Call) → Memᴰ x xs → P x)
        → (o' : Option Record) × (read c scope (run c scope j parse_claims db xs) ≡ ok o')
          × ExplainedOption P o'
    unfolding run
    run-ExplainedOption f db [] o h k p = (o, h, k)
    run-ExplainedOption f db (x ∷ xs) o h k p =
        let (o', e, m) = attempt-Move c scope f j parse_claims db x o h in
        run-ExplainedOption f (attempt c scope j parse_claims db x) xs o' e
          (elim m [
            | inl n ↦ Move-Explained x o o' (p x (Memᴰ.head refl)) k n
            | inr n ↦ subst (ExplainedOption P) (sym n) k
          ])
          (λ y q. p y (Memᴰ.tail q))

  -- A decision that an empty journal shows after any calls was decided by one of them, with a grant
  -- that verified for its plan in the journal's scope; each member that is marked acknowledged was
  -- acknowledged by one of them, with evidence that its policy accepted; and a completion came from
  -- one of them, when both members were acknowledged.
  pub run-Explained :
      IsFaithful c
      → (db : Db J) (xs : List Call) (r : Record) → read c scope db ≡ ok none
      → read c scope (run c scope j parse_claims db xs) ≡ ok (some r)
      → Explained (λ x. Memᴰ x xs) r
  run-Explained f db xs r h s =
      let (o, e, k) = run-ExplainedOption (λ x. Memᴰ x xs) f db xs none h tt (λ x m. m) in
      let q : o ≡ some r = cc in subst (ExplainedOption (λ x. Memᴰ x xs)) q k
