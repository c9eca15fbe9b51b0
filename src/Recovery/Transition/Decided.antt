-- ===== src/Recovery/Transition/Decided.antt =====
-- What `decide` has checked when it succeeds (replication/recovery/src/transition.rs).
use terrapi_vault.Common.{
  leb, eqb, if-cases, bool_eq, option_beq_iff, list_beq, list_beq_iff, option_eq, list_eq,
  string_eq, nat_eq, Result, ok, bind-eq-ok, ensure-eq-ok, check-eq-ok, length, any, Bytes, ℕ, ◌≡◌,
  refl, ap, ◌∙◌, ◌⊎◌, inl, inr, true, false, not, ◌&&◌, Option, none, some, arith,
}
use terrapi_vault.Recovery.Model.{baseline_eq, plan_eq}
use terrapi_vault.Recovery.Jws.{profile_eq}
use terrapi_vault.Recovery.Transition.{
  checkpoint_eq, Request, request_beq, request_beq_iff, JournalScope, validate_request,
}
use terrapi_vault.Recovery.Transition.Tokens.{Trust, Crates, max_token, Verified, verify_issuance}
use terrapi_vault.Recovery.Transition.Store.{Record, Codec, Loss, Db, has_id, is_aborted, save}
use terrapi_vault.Recovery.Transition.Walk.{
  History, is_completed, chains_to, same_members, chain_to, next_revision, request_in_scope, chain,
  read,
}
use terrapi_vault.Recovery.Transition.Journal.{
  Committed, before, after, Policy, committed, fresh_record, decide_next, decide_on, in_sequence,
  decide,
}
use terrapi_vault.Recovery.Transition.Windows.{Issued, verify_issuance-Issued}
use terrapi_vault.Recovery.Transition.Walk.Consumed.{following, next_revision-following}

-- The request continues the effective head: completed, with the same members, and with the
-- checkpoint that it left as both members' old base.
abbrev pub Continues : Option Record → Request → Type 0
Continues none q = Unit
Continues (some p) q =
    (is_completed p ≡ true)
    × (q.participants.0.old_base ≡ some p.request.participants.0.target)
    × (q.participants.1.old_base ≡ some p.request.participants.0.target)
    × (same_members q p.request ≡ true)
    × (eqb q.id p.request.id ≡ false)

chain_to-Continues :
    (o : Option Record) (q : Request) (n : ℕ)
    → chain_to o q n ≡ ok tt
    → (q.revision ≡ n) × Continues o q
unfolding chain_to chains_to
chain_to-Continues none q n h = (ground arith, tt)
chain_to-Continues (some p) q n h =
    let (a, h1) =
      ensure-eq-ok (is_completed p && eqb q.revision n && chains_to q p.request) _ _ h in
    let i = option_beq_iff q.participants.0.old_base (some p.request.participants.0.target) in
    let j = option_beq_iff q.participants.1.old_base (some p.request.participants.0.target) in
    (ground arith, (ground arith, ground (arith, i), ground (arith, j), ground arith, ground arith))

chain-Continues :
    (scope : JournalScope) (head : Option Record) (consumed : Option ℕ) (q : Request)
    → chain scope head consumed q ≡ ok tt
    → (request_in_scope scope q ≡ true) × (q.revision ≡ following scope consumed) × Continues head q
unfolding chain
chain-Continues scope head consumed q h =
    let (s, h1) = ensure-eq-ok (request_in_scope scope q) _ _ h in
    let (n, e, h2) = bind-eq-ok (next_revision scope consumed) _ h1 in
    let (r, k) = chain_to-Continues head q n h2 in
    (s, r ∙ next_revision-following scope consumed n e, k)

module _ {J L : Type 0} (codec : Codec J) (loss : Loss L) (crates : Crates) (scope : JournalScope)
    (trust : Trust) where
  -- The request is new to the journal, continues it, and has its evidence.
  pub record First (q : Request) (token : Bytes) (now : ℕ) (policy : Policy) (h : History)
      (db db' : Db J L) : Type 0 where
    pub not_aborted : is_aborted q.revision h.aborts ≡ false
    pub new_id : has_id q.id h.ids ≡ false
    pub id_not_aborted : any (λ x. eqb x.1.abort.aborted_request_id q.id) h.aborts ≡ false
    pub in_scope : request_in_scope scope q ≡ true
    pub next : q.revision ≡ following scope h.consumed
    pub continues : Continues h.head q
    pub evidence : Verified
    pub issued : Issued crates trust token q now evidence
    pub primary_prepared : policy.prepared scope q q.participants.0 ≡ ok tt
    pub secondary_prepared : policy.prepared scope q q.participants.1 ≡ ok tt
    pub authority_continues : policy.continuity after scope q ≡ ok tt
    pub saved :
        save codec loss crates scope db (fresh_record codec loss crates scope trust q token)
        ≡ ok db'

  -- The same request as the effective head's, with the same token.
  pub record Retried (q : Request) (token : Bytes) (h : History) (db db' : Db J L) : Type 0 where
    pub found : Record
    pub is_head : h.head ≡ some found
    pub same_request : found.request ≡ q
    pub same_token : found.token ≡ token
    pub unchanged : db' ≡ db

  pub record Decided (q : Request) (token : Bytes) (now : ℕ) (policy : Policy) (db db' : Db J L)
      : Type 0 where
    pub history : History
    pub was_read : read codec loss crates scope trust db ≡ ok history
    pub request_valid : validate_request q ≡ ok tt
    pub no_loss : loss.loss_record_exists db.loss trust ≡ ok false
    pub authority : policy.continuity before scope q ≡ ok tt
    pub outcome : First q token now policy history db db' ⊎ Retried q token history db db'

  decide_next-First :
      (q : Request) (token : Bytes) (now : ℕ) (policy : Policy) (db : Db J L) (h : History)
      (db' : Db J L) (found : Committed)
      → decide_next codec loss crates scope trust q token now policy db h ≡ ok (db', found)
      → First q token now policy h db db'
  unfolding decide_next
  decide_next-First q token now policy db h db' found e =
      let ids =
        not (has_id q.id h.ids)
        && not (any (λ x. eqb x.1.abort.aborted_request_id q.id) h.aborts) in
      let (e1, k1) = ensure-eq-ok (not (is_aborted q.revision h.aborts)) _ _ e in
      let (e2, k2) = ensure-eq-ok ids _ _ k1 in
      let (e3, k3) = check-eq-ok (chain scope h.head h.consumed q) _ k2 in
      let (v, e4, k4) = bind-eq-ok (verify_issuance crates trust token q now) _ k3 in
      let (e5, k5) = check-eq-ok (policy.prepared scope q q.participants.0) _ k4 in
      let (e6, k6) = check-eq-ok (policy.prepared scope q q.participants.1) _ k5 in
      let (e7, k7) = check-eq-ok (policy.continuity after scope q) _ k6 in
      let (saved, e8, k8) = bind-eq-ok (save codec loss crates scope db _) _ k7 in
      let same : saved ≡ db' = cc in
      let (s, r, c) = chain-Continues scope h.head h.consumed q e3 in
      record {
        not_aborted = ground arith;
        new_id = ground arith;
        id_not_aborted = ground arith;
        in_scope = s;
        next = r;
        continues = c;
        evidence = v;
        issued = verify_issuance-Issued crates trust token q now v e4;
        primary_prepared = e5;
        secondary_prepared = e6;
        authority_continues = e7;
        saved = e8 ∙ ap ok same;
      }

  decide_on-outcome :
      (q : Request) (token : Bytes) (now : ℕ) (policy : Policy) (db : Db J L) (h : History)
      (o : Option Record) (db' : Db J L) (found : Committed)
      → h.head ≡ o
      → decide_on codec loss crates scope trust q token now policy db h o ≡ ok (db', found)
      → First q token now policy h db db' ⊎ Retried q token h db db'
  unfolding decide_on
  decide_on-outcome q token now policy db h none db' found g =
      λ e. inl (decide_next-First q token now policy db h db' found e)
  decide_on-outcome q token now policy db h (some r) db' found g =
      if-cases
        (λ (x : Result (Db J L × Committed)).
          x ≡ ok (db', found) → First q token now policy h db db' ⊎ Retried q token h db db')
        (request_beq r.request q)
        (λ same. λ e.
          let (t, k) = ensure-eq-ok (list_beq r.token token) _ _ e in
          let (c, _, k1) = bind-eq-ok (committed codec loss crates scope trust r) _ k in
          inr (record {
            found = r;
            is_head = g;
            same_request = (request_beq_iff r.request q).0 same;
            same_token = (list_beq_iff r.token token).0 t;
            unchanged = cc;
          }))
        (λ _. λ e. inl (decide_next-First q token now policy db h db' found e))

  decide-Decided_lem :
      (q : Request) (token : Bytes) (now : ℕ) (policy : Policy) (db db' : Db J L)
      (found : Committed)
      → decide codec loss crates scope trust q token now policy db ≡ ok (db', found)
      → Decided q token now policy db db'
  unfolding decide
  decide-Decided_lem q token now policy db db' found e =
      let (e1, k1) = check-eq-ok (validate_request q) _ e in
      let (_, k2) = ensure-eq-ok (leb (length token) max_token) _ _ k1 in
      let (h, e3, k3) = bind-eq-ok (read codec loss crates scope trust db) _ k2 in
      let (lost, e4, k4) = bind-eq-ok (loss.loss_record_exists db.loss trust) _ k3 in
      let (e5, k5) = ensure-eq-ok (not lost) _ _ k4 in
      let (place, _, k5') =
        bind-eq-ok (in_sequence codec loss crates scope trust h.head db.loss) _ k5 in
      let (_, k6) = ensure-eq-ok place _ _ k5' in
      let (e7, k7) = check-eq-ok (policy.continuity before scope q) _ k6 in
      let none_lost : lost ≡ false = ground arith in
      record {
        history = h;
        was_read = e3;
        request_valid = e1;
        no_loss = e4 ∙ ap ok none_lost;
        authority = e7;
        outcome = decide_on-outcome q token now policy db h h.head db' found refl k7;
      }

-- When `decide` succeeds, the journal reads as one history without a participant loss, and either
-- the request is the effective head's with the same token and nothing is written, or it takes the
-- next free revision under an id that no record and no abort has, continues a completed effective
-- head, has a token that is valid now and the preparation of both members, and is saved.
pub decide-Decided :
    {J L : Type 0} (codec : Codec J) (loss : Loss L) (crates : Crates) (scope : JournalScope)
    (trust : Trust) (q : Request) (token : Bytes) (now : ℕ) (policy : Policy) (db db' : Db J L)
    (found : Committed)
    → decide codec loss crates scope trust q token now policy db ≡ ok (db', found)
    → Decided codec loss crates scope trust q token now policy db db'
decide-Decided codec loss crates scope trust = decide-Decided_lem codec loss crates scope trust
