-- ===== src/Recovery/Transition/Cancelled.antt =====
-- What `abort` has checked when it succeeds (replication/recovery/src/transition.rs).
use terrapi_vault.Common.{
  ltb, leb, eqb, if-cases, &&_iff, bool_eq, list_beq, list_beq_iff, option_eq, list_eq, string_eq,
  nat_eq, Result, ok, bind-eq-ok, ok_or-eq-ok, ensure-eq-ok, check-eq-ok, ok_injective, length,
  Bytes, both, checked_add, ℕ, ◌+◌, ◌≡◌, refl, sym, ap, subst, ◌∙◌, ◌⊎◌, inl, inr, true, false, not,
  ◌&&◌, Option, none, some, arith,
}
use terrapi_vault.Recovery.Model.{Id256, baseline_eq, plan_eq}
use terrapi_vault.Recovery.Jws.{profile_eq}
use terrapi_vault.Recovery.Transition.{
  checkpoint_eq, MaintenanceAbort, abort_beq, abort_beq_iff, JournalScope, validate_request,
  validate_abort,
}
use terrapi_vault.Recovery.Transition.Tokens.{
  Trust, Crates, max_token, request_digest, verify_abort_issuance,
}
use terrapi_vault.Recovery.Transition.Store.{
  Record, AbortRecord, Codec, Loss, Db, max_abort_rows, lookup_abort, abort_in_scope, save_abort,
}
use terrapi_vault.Recovery.Transition.Walk.{History, is_completed, none_open, decided_abort, read}
use terrapi_vault.Recovery.Transition.Journal.{
  CommittedMaintenanceAbort, before, after, Policy, committed_abort,
}
use terrapi_vault.Recovery.Transition.Closing.{
  head_continuity, next_target, abort_target, max_revision, abort_on, abort,
}
use terrapi_vault.Recovery.Transition.AbortTokens.{
  AbortIssued, verify_abort_issuance-AbortIssued, Saved, save_abort-Saved,
}

-- The decided transition at the revision, neither completed nor acknowledged by both members.
pub record Unfinished (crates : Crates) (a : MaintenanceAbort) (r : Record) : Type 0 where
  pub is_decided : a.decided ≡ true
  pub not_completed : is_completed r ≡ false
  pub not_acknowledged : both r.acknowledgements ≡ false
  pub same_revision : a.aborted_revision ≡ r.request.revision
  pub same_id : a.aborted_request_id ≡ r.request.id
  pub same_digest : a.aborted_request ≡ crates.request_sha256 r.request

-- The next free revision, with no decided transition open.
pub record NeverDecided (a : MaintenanceAbort) (h : History) : Type 0 where
  pub not_decided : a.decided ≡ false
  pub next : a.aborted_revision ≡ h.last_revision + 1
  pub nothing_open : none_open h.head ≡ true

module _ (crates : Crates) (trust : Trust) where
  decided_abort-Unfinished :
      (a : MaintenanceAbort) (r : Record)
      → decided_abort crates trust a r ≡ ok tt
      → Unfinished crates a r
  unfolding decided_abort request_digest
  decided_abort-Unfinished a r h =
      let all =
        a.decided
        && not (is_completed r)
        && not (both r.acknowledgements)
        && eqb a.aborted_revision r.request.revision
        && eqb a.aborted_request_id r.request.id in
      let (t, h1) = ensure-eq-ok all _ _ h in
      let (digest, e, h2) = bind-eq-ok (request_digest crates trust r.request) _ h1 in
      let (_, sha) = check-eq-ok (validate_request r.request) _ e in
      let same = ok_injective (crates.request_sha256 r.request) digest sha in
      let is_digest : a.aborted_request ≡ digest = ground arith in
      record {
        is_decided = ground arith;
        not_completed = ground arith;
        not_acknowledged = ground arith;
        same_revision = ground arith;
        same_id = ground arith;
        same_digest = is_digest ∙ sym same;
      }

module _ {J L : Type 0} (codec : Codec J) (loss : Loss L) (crates : Crates) (scope : JournalScope)
    (trust : Trust) where
  -- What the abort cancels.
  abbrev pub Target : MaintenanceAbort → History → Type 0
  Target a h = ((r : Record) × (h.head ≡ some r) × Unfinished crates a r) ⊎ NeverDecided a h

  next_target-Target :
      (a : MaintenanceAbort) (h : History)
      → a.decided ≡ false
      → next_target codec loss crates scope trust a h ≡ ok tt
      → NeverDecided a h
  unfolding next_target checked_add
  next_target-Target a h d e =
      let (n, e1, k1) = ok_or-eq-ok (checked_add h.last_revision 1) _ _ e in
      let (t, k2) = ensure-eq-ok (eqb a.aborted_revision n) _ _ k1 in
      record { not_decided = d; next = ground arith; nothing_open = ground arith }

  abort_target-Target :
      (a : MaintenanceAbort) (h : History) (o : Option Record)
      → h.head ≡ o
      → abort_target codec loss crates scope trust a h o ≡ ok tt
      → Target a h
  unfolding abort_target
  abort_target-Target a h none g = λ e.
      let (d, k) = ensure-eq-ok (not a.decided) _ _ e in
      inr (next_target-Target a h (ground arith) k)
  abort_target-Target a h (some r) g =
      if-cases (λ (x : Result (Unit {0})). x ≡ ok tt → Target a h)
        (eqb r.request.revision a.aborted_revision)
        (λ _. λ e. inl (r, g, decided_abort-Unfinished crates trust a r e))
        (λ _. λ e.
          (let (d, k) = ensure-eq-ok (not a.decided) _ _ e in
            inr (next_target-Target a h (ground arith) k)))

  pub record Recorded (a : MaintenanceAbort) (token : Bytes) (now : ℕ) (policy : Policy)
      (h : History) (db db' : Db J L) : Type 0 where
    pub new_revision : lookup_abort a.aborted_revision h.aborts ≡ none
    pub target : Target a h
    pub nothing_applied : policy.abort_applicable scope a ≡ ok tt
    pub certificate : Id256
    pub valid_now : AbortIssued crates trust token a now certificate
    pub saved :
        Saved codec loss crates scope
          (record { format = 2; abort = a; token = token; certificate_id = certificate })
          db
          db'
    pub head_moved :
        db'.head_revision
        ≡ max_revision codec loss crates scope trust h.last_revision a.aborted_revision

  pub record Repeated (a : MaintenanceAbort) (token : Bytes) (h : History) (db db' : Db J L)
      : Type 0 where
    pub existing : AbortRecord
    pub was_recorded : lookup_abort a.aborted_revision h.aborts ≡ some existing
    pub same_abort : existing.abort ≡ a
    pub same_token : existing.token ≡ token
    pub unchanged : db' ≡ db

  pub record Cancelled (a : MaintenanceAbort) (token : Bytes) (now : ℕ) (policy : Policy)
      (db db' : Db J L) : Type 0 where
    pub history : History
    pub was_read : read codec loss crates scope trust db ≡ ok history
    pub abort_valid : validate_abort a ≡ ok tt
    pub no_successor : loss.successor_parent_exists db.loss ≡ ok false
    pub no_loss : loss.loss_record_exists db.loss trust ≡ ok false
    pub in_scope : abort_in_scope scope a ≡ true
    pub outcome : Recorded a token now policy history db db' ⊎ Repeated a token history db db'

  abort_on-outcome :
      (a : MaintenanceAbort) (token : Bytes) (now : ℕ) (policy : Policy) (db : Db J L) (h : History)
      (o : Option AbortRecord) (db' : Db J L) (found : CommittedMaintenanceAbort)
      → lookup_abort a.aborted_revision h.aborts ≡ o
      → abort_on codec loss crates scope trust a token now policy db h o ≡ ok (db', found)
      → Recorded a token now policy h db db' ⊎ Repeated a token h db db'
  unfolding abort_on
  abort_on-outcome a token now policy db h (some x) db' found g e =
      let (t, k1) = ensure-eq-ok (abort_beq x.abort a && list_beq x.token token) _ _ e in
      let (_, k2) =
        check-eq-ok (head_continuity codec loss crates scope trust policy after h.head) _ k1 in
      let (c, _, k3) = bind-eq-ok (committed_abort codec loss crates scope trust x) _ k2 in
      let (s, u) = (&&_iff (abort_beq x.abort a) (list_beq x.token token)).0 t in
      inr (record {
        existing = x;
        was_recorded = g;
        same_abort = (abort_beq_iff x.abort a).0 s;
        same_token = (list_beq_iff x.token token).0 u;
        unchanged = ap (λ y. y.0) (sym (ok_injective (db, c) (db', found) k3));
      })
  abort_on-outcome a token now policy db h none db' found g e =
      let (t, k1) = check-eq-ok (abort_target codec loss crates scope trust a h h.head) _ e in
      let (_, k2) = ensure-eq-ok (ltb (length h.aborts) max_abort_rows) _ _ k1 in
      let (p, k3) = check-eq-ok (policy.abort_applicable scope a) _ k2 in
      let (certificate, v, k4) = bind-eq-ok (verify_abort_issuance crates trust token a now) _ k3 in
      let (_, k5) =
        check-eq-ok (head_continuity codec loss crates scope trust policy after h.head) _ k4 in
      let (written, sv, k6) = bind-eq-ok (save_abort codec loss crates scope db _) _ k5 in
      let (c, _, k7) = bind-eq-ok (committed_abort codec loss crates scope trust _) _ k6 in
      inl (record {
        new_revision = g;
        target = abort_target-Target a h h.head refl t;
        nothing_applied = p;
        certificate = certificate;
        valid_now = verify_abort_issuance-AbortIssued crates trust token a now certificate v;
        saved =
            subst (Saved codec loss crates scope _ db)
              (ap (λ y. y.0) (ok_injective _ (db', found) k7))
              (let kept = save_abort-Saved codec loss crates scope _ db written sv in
                record { row_written = kept.row_written; same_history = kept.same_history });
        head_moved = ap (λ y. y.0.head_revision) (sym (ok_injective _ (db', found) k7));
      })

  abort-Cancelled_lem :
      (a : MaintenanceAbort) (token : Bytes) (now : ℕ) (policy : Policy) (db db' : Db J L)
      (found : CommittedMaintenanceAbort)
      → abort codec loss crates scope trust a token now policy db ≡ ok (db', found)
      → Cancelled a token now policy db db'
  unfolding abort
  abort-Cancelled_lem a token now policy db db' found e =
      let (e1, k1) = check-eq-ok (validate_abort a) _ e in
      let (_, k2) = ensure-eq-ok (leb (length token) max_token) _ _ k1 in
      let (h, e3, k3) = bind-eq-ok (read codec loss crates scope trust db) _ k2 in
      let (succeeded, g4, k3') = bind-eq-ok (loss.successor_parent_exists db.loss) _ k3 in
      let (e4, k4) = ensure-eq-ok (not succeeded) _ _ k3' in
      let first_one : succeeded ≡ false = ground arith in
      let (lost, e5, k5) = bind-eq-ok (loss.loss_record_exists db.loss trust) _ k4 in
      let (e6, k6) = ensure-eq-ok (not lost) _ _ k5 in
      let (e7, k7) = ensure-eq-ok (abort_in_scope scope a) _ _ k6 in
      let (_, k8) =
        check-eq-ok (head_continuity codec loss crates scope trust policy before h.head) _ k7 in
      let none_lost : lost ≡ false = ground arith in
      record {
        history = h;
        was_read = e3;
        abort_valid = e1;
        no_successor = g4 ∙ ap ok first_one;
        no_loss = e5 ∙ ap ok none_lost;
        in_scope = e7;
        outcome =
            abort_on-outcome a token now policy db h (lookup_abort a.aborted_revision h.aborts) db'
              found refl k8;
      }

-- When `abort` succeeds, outside a successor journal and without a participant loss, either the same
-- abort with the same token is recorded already and nothing is written, or its revision has no abort
-- yet, it cancels a decided transition that is neither completed nor acknowledged by both members,
-- or takes the next free revision while no decision is open, the policy has accepted the evidence
-- that nothing was applied, the token is signed by a trusted key for exactly this abort in a window
-- that contains the present time, and the abort is written with its token and certificate in the row
-- of its revision, with every other row and the history as before.
pub abort-Cancelled :
    {J L : Type 0} (codec : Codec J) (loss : Loss L) (crates : Crates) (scope : JournalScope)
    (trust : Trust) (a : MaintenanceAbort) (token : Bytes) (now : ℕ) (policy : Policy)
    (db db' : Db J L) (found : CommittedMaintenanceAbort)
    → abort codec loss crates scope trust a token now policy db ≡ ok (db', found)
    → Cancelled codec loss crates scope trust a token now policy db db'
abort-Cancelled codec loss crates scope trust = abort-Cancelled_lem codec loss crates scope trust
