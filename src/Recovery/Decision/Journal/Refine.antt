-- ===== src/Recovery/Decision/Journal/Refine.antt =====
-- The operations of replication/recovery/src/decision.rs make no other moves than those of `Move`.
use terrapi_vault.Common.{
  leb, eqb, leb→le, eqb_iff, Bool-cases, &&_iff, bool_eq, list_beq, list_beq_iff, option_eq,
  list_eq, string_eq, nat_eq, Result, err, ok, bind-eq-ok, ok_or-eq-ok, ensure-eq-ok, check-eq-ok,
  length, Bytes, Index2, at, put_at, both, ◌*◌, ◌≤◌, ◌≡◌, refl, sym, ap, subst, ◌∙◌, ◌≢◌, ◌⊎◌, inl,
  inr, true, not, ◌&&◌, Option, none, some, arith,
}
use terrapi_vault.Recovery.Model.{Id256, baseline_eq, plan_eq}
use terrapi_vault.Recovery.Jws.{Jws, profile_eq}
use terrapi_vault.Recovery.Grant.{Claims}
use terrapi_vault.Recovery.Decision.{
  Scope, Prepared, prepared_beq_iff, Request, request_beq, request_beq_iff, validate_request,
  Record, CommittedDecision, before, after, Policy, Codec, IsFaithful,
}
use terrapi_vault.Recovery.Decision.Store.{Db, is_history, read, IsRecord, read-IsRecord, read-save}
use terrapi_vault.Recovery.Decision.Journal.{
  position, first_record, acknowledge_at, acknowledge, complete_on, complete, decide_on, decide,
}
use terrapi_vault.Recovery.Decision.Journal.Decide.{decide_first-Authorized, Authorized-history}
use terrapi_vault.Recovery.Decision.Journal.Moves.{
  Call, deciding, acknowledging, completing, perform, attempt, Names, Move,
}

position-at :
    (ps : Prepared × Prepared) (m : Prepared) (i : Index2) → position ps m ≡ some i → at ps i ≡ m
unfolding position
position-at (p, q) m i h = ground (arith, prepared_beq_iff p m, prepared_beq_iff q m)

acknowledged_history :
    (r : Record) (i : Index2)
    → is_history r ≡ true
    → is_history (record r { acknowledgements = put_at r.acknowledgements i true }) ≡ true
unfolding is_history
acknowledged_history r i h = ground arith

completed_history :
    (r : Record) (id : Id256)
    → is_history r ≡ true
    → both r.acknowledgements ≡ true
    → id ≢ 0
    → is_history (record r { completion = some id }) ≡ true
unfolding is_history
completed_history r id h b n = ground arith

module _ {J : Type 0} (c : Codec J) (scope : Scope) (f : IsFaithful c) where
  module _ (j : Jws) (parse_claims : Bytes → Option Claims) where
    -- A call that succeeds where the journal shows `o`.
    abbrev pub Refines : Call → Option Record → Db J → Type 0
    Refines x o db' =
        (o' : Option Record) × (read c scope db' ≡ ok o') × Move c scope j parse_claims x o o'

    decide_on-Move :
        (request : Request) (token : Bytes) (policy : Policy) (db db' : Db J) (o : Option Record)
        → validate_request request scope.baseline ≡ ok tt
        → length token ≤ 16 * 1024
        → read c scope db ≡ ok o
        → decide_on c scope j parse_claims request token policy db o ≡ ok db'
        → Refines (deciding request token policy) o db'
    unfolding decide_on
    decide_on-Move request token policy db db' none v l s h =
        let (g, a, k) =
          decide_first-Authorized c scope j parse_claims request token policy db db' h in
        let r = first_record request token g in
        let i : IsRecord c scope r = record {
          request_valid = unfold first_record in v;
          history = Authorized-history c scope j parse_claims request token policy g a l;
        } in
        (
          some r,
          read-save c scope f db db' none r s i k,
          Move.decided request token policy g refl a refl refl,
        )
    decide_on-Move request token policy db db' (some r) v l s h =
        let (t, e) = ensure-eq-ok (request_beq r.request request && list_beq r.token token) _ _ h in
        let (t1, t2) = (&&_iff (request_beq r.request request) (list_beq r.token token)).0 t in
        let asked : r.request ≡ request = (request_beq_iff r.request request).0 t1 in
        let signed : r.token ≡ token = (list_beq_iff r.token token).0 t2 in
        let k : db ≡ db' = cc in
        (
          some r,
          subst (λ x. read c scope x ≡ ok (some r)) k s,
          Move.decided_again r policy (rw (asked, signed) refl) refl refl,
        )

    decide-Move :
        (request : Request) (token : Bytes) (policy : Policy) (db db' : Db J) (o : Option Record)
        → read c scope db ≡ ok o
        → decide c scope j parse_claims request token policy db ≡ ok db'
        → Refines (deciding request token policy) o db'
    unfolding decide
    decide-Move request token policy db db' o s h =
        let (v, h1) = check-eq-ok (validate_request request scope.baseline) _ h in
        let (l, h2) = ensure-eq-ok (leb (length token) (16 * 1024)) _ _ h1 in
        let (_, h3) = check-eq-ok (policy.continuity before scope) _ h2 in
        let (q, e, h4) = bind-eq-ok (read c scope db) _ h3 in
        let same_o : q ≡ o = cc in
        decide_on-Move request token policy db db' o v (leb→le (length token) (16 * 1024) l) s (
          subst (λ x. decide_on c scope j parse_claims request token policy db x ≡ ok db') same_o
            h4)

    acknowledge_at-Move :
        (d : CommittedDecision) (m : Prepared) (policy : Policy) (db db' : Db J) (r : Record)
        (i : Index2)
        → read c scope db ≡ ok (some r)
        → Names c scope j parse_claims d m r i
        → acknowledge_at c scope d m policy db r i ≡ ok db'
        → Refines (acknowledging d m policy) (some r) db'
    unfolding acknowledge_at
    acknowledge_at-Move d m policy db db' r i s names h =
        elim (Bool-cases (at r.acknowledgements i)) [
          | inl t ↦
              let k : db ≡ db' = ground arith in
              (
                some r,
                subst (λ x. read c scope x ≡ ok (some r)) k s,
                Move.acknowledged_again r d m policy i refl refl names t refl,
              )
          | inr n ↦
              let (a, h1) = check-eq-ok (policy.applied scope d m) _ (rw n at h) in
              let (_, h2) = check-eq-ok (policy.continuity after scope) _ h1 in
              let r' = record r { acknowledgements = put_at r.acknowledgements i true } in
              let v = read-IsRecord c scope db r s in
              let k : IsRecord c scope r' = record {
                request_valid = v.request_valid;
                history = acknowledged_history r i v.history;
              } in
              (
                some r',
                read-save c scope f db db' (some r) r' s k h2,
                Move.acknowledged r d m policy i refl refl names a n refl,
              )
        ]

    acknowledge-Move :
        (d : CommittedDecision) (m : Prepared) (policy : Policy) (db db' : Db J) (o : Option Record)
        → read c scope db ≡ ok o
        → acknowledge c scope d m policy db ≡ ok db'
        → Refines (acknowledging d m policy) o db'
    unfolding acknowledge
    acknowledge-Move d m policy db db' o s h =
        let (_, h1) = check-eq-ok (policy.continuity before scope) _ h in
        let (q, e, h2) = bind-eq-ok (read c scope db) _ h1 in
        let (r, k, h3) = ok_or-eq-ok q _ _ h2 in
        let shown : some r ≡ o = cc in
        let test = request_beq r.request d.request && eqb r.grant_id d.grant_id in
        let (t, h4) = ensure-eq-ok (test && eqb (c.token_sha256 r.token) d.token_digest) _ _ h3 in
        let (i, p, h5) = ok_or-eq-ok (position r.request.prepared m) _ _ h4 in
        let t1 = (&&_iff test (eqb (c.token_sha256 r.token) d.token_digest)).0 t in
        let t2 = (&&_iff (request_beq r.request d.request) (eqb r.grant_id d.grant_id)).0 t1.0 in
        subst (λ x. Refines (acknowledging d m policy) x db') shown
          (acknowledge_at-Move d m policy db db' r i (s ∙ ap ok (sym shown))
            (record {
              same_request = sym ((request_beq_iff r.request d.request).0 t2.0);
              same_grant = sym ((eqb_iff r.grant_id d.grant_id).0 t2.1);
              same_token = sym ((eqb_iff (c.token_sha256 r.token) d.token_digest).0 t1.1);
              same_member = position-at r.request.prepared m i p;
            })
            h5)

    complete_on-Move :
        (request : Request) (id : Id256) (policy : Policy) (db db' : Db J) (r : Record)
        (previous : Option Id256)
        → read c scope db ≡ ok (some r)
        → r.completion ≡ previous
        → request ≡ r.request
        → both r.acknowledgements ≡ true
        → id ≢ 0
        → complete_on c scope id db r previous ≡ ok db'
        → Refines (completing request id policy) (some r) db'
    unfolding complete_on
    complete_on-Move request id policy db db' r none s e q b n h =
        let r' = record r { completion = some id } in
        let v = read-IsRecord c scope db r s in
        let k : IsRecord c scope r' = record {
          request_valid = v.request_valid;
          history = completed_history r id v.history b n;
        } in
        (
          some r',
          read-save c scope f db db' (some r) r' s k h,
          Move.completed r id policy (rw q) refl b e n refl,
        )
    complete_on-Move request id policy db db' r (some p) s e q b n h =
        let (t, h1) = ensure-eq-ok (eqb p id) _ _ h in
        let known : r.completion ≡ some id = e ∙ ap some ((eqb_iff p id).0 t) in
        let k : db ≡ db' = cc in
        (
          some r,
          subst (λ x. read c scope x ≡ ok (some r)) k s,
          Move.completed_again r id policy (rw q) refl b known n refl,
        )

    complete-Move :
        (request : Request) (id : Id256) (policy : Policy) (db db' : Db J) (o : Option Record)
        → read c scope db ≡ ok o
        → complete c scope request id policy db ≡ ok db'
        → Refines (completing request id policy) o db'
    unfolding complete
    complete-Move request id policy db db' o s h =
        let (n, h1) = ensure-eq-ok (not (eqb id 0)) _ _ h in
        let (_, h2) = check-eq-ok (policy.continuity before scope) _ h1 in
        let (q, e, h3) = bind-eq-ok (read c scope db) _ h2 in
        let (r, k, h4) = ok_or-eq-ok q _ _ h3 in
        let shown : some r ≡ o = cc in
        let (t, h5) =
          ensure-eq-ok (request_beq r.request request && both r.acknowledgements) _ _ h4 in
        let t1 = (&&_iff (request_beq r.request request) (both r.acknowledgements)).0 t in
        subst (λ x. Refines (completing request id policy) x db') shown
          (complete_on-Move request id policy db db' r r.completion (s ∙ ap ok (sym shown)) refl
            (sym ((request_beq_iff r.request request).0 t1.0)) t1.1 (ground arith) h5)

    -- A call that succeeds on tables that show the decision `o` leaves tables that show a decision
    -- to which one move of this call leads from `o`: it records the first decision, marks the member
    -- that it names or records the completion, each under its conditions, or it repeats exactly what
    -- is recorded already and changes nothing.
    pub perform-Move :
        (x : Call) (db db' : Db J) (o : Option Record)
        → read c scope db ≡ ok o
        → perform c scope j parse_claims x db ≡ ok db'
        → Refines x o db'
    unfolding perform
    perform-Move (deciding request token policy) = decide-Move request token policy
    perform-Move (acknowledging d m policy) = acknowledge-Move d m policy
    perform-Move (completing request id policy) = complete-Move request id policy

    -- A call that fails leaves what the journal shows.
    pub attempt-Move :
        (db : Db J) (x : Call) (o : Option Record)
        → read c scope db ≡ ok o
        → (o' : Option Record) × (read c scope (attempt c scope j parse_claims db x) ≡ ok o')
          × (Move c scope j parse_claims x o o' ⊎ (o' ≡ o))
    unfolding attempt
    attempt-Move db x o s = go (perform c scope j parse_claims x db) refl
      where
        go :
            (r : Result (Db J))
            → perform c scope j parse_claims x db ≡ r
            → (o' : Option Record) × (read c scope (elim r [ ok db' ↦ db' | err _ ↦ db ]) ≡ ok o')
              × (Move c scope j parse_claims x o o' ⊎ (o' ≡ o))
        go (ok db') e = let (o', k, m) = perform-Move x db db' o s e in (o', k, inl m)
        go (err _) e = (o, s, inr refl)
