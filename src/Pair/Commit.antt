-- ===== src/Pair/Commit.antt =====
-- What commit and recovery promise (`recover` and `commit` of replication/fixed-pair/src/lib.rs).
-- A fault sequence says of every call whether it is delivered, lost, or loses its reply.
use terrapi_vault.Common.{
  ltb, leb, eqb, Option-cases, &&_iff, PartialEq, ◌==◌, eq→≡, bool_eq, option_eq, list_eq,
  string_eq, nat_eq, ok, ensure, bind-eq-ok, ensure-eq-ok, check-eq-ok, ok_injective, at, i64_max,
  ℕ, ◌≡◌, refl, sym, ap, subst, ◌∙◌, inl, inr, false, not, ◌&&◌, Option, none, some, List,
}
use terrapi_vault.Pair.Model.{
  Identity, identity_eq, Batch, prepared, decided, applied, state_beq, Entry, checkpoint_eq,
  WriteResult, OperationReceipt, receipt_eq,
}
use terrapi_vault.Pair.Tables.{Adapter, Node, is_empty}
use terrapi_vault.Pair.Store.{matches_request}
use terrapi_vault.Pair.Operations.{with_state, receipt, completed_as, completed_result}
use terrapi_vault.Pair.Run.{Fault, World, return}
use terrapi_vault.Pair.Protocol.{recover, commit_as, commit}
use terrapi_vault.Pair.History.{some_injective, In}
use terrapi_vault.Pair.Agreement.{Agreed, Paired, agreed, offered, staged, half_applied}
use terrapi_vault.Pair.Tails.{ensure-ok}
use terrapi_vault.Pair.Receipts.{receipt-Copy}
use terrapi_vault.Pair.Hoare.{After, Triple, Sound, return-Triple, weaken-Triple, bind-Triple}
use terrapi_vault.Pair.Safety.Calls.{read_primary-Triple}
use terrapi_vault.Pair.Safety.Commit.{commit_new-Triple}
use terrapi_vault.Pair.Safety.Recover.{Settled, recover-Triple}
use terrapi_vault.Pair.Safety.Fresh.{Committed}

module _ {C V : Type 0} ⦃change_eq : PartialEq C⦄ (adapter : Adapter C V) (identity : Identity)
    (fault : ℕ → Fault) (w : World C V) where
  -- Recovery of paired copies leaves them paired, whichever of its calls are lost and whether it
  -- succeeds or not.
  pub recover-Paired :
      Paired adapter identity w.first_copy w.second_copy
      → Paired adapter identity
          (recover adapter fault w).0.first_copy
          (recover adapter fault w).0.second_copy
  recover-Paired h = ((recover-Triple adapter identity fault).run_from w h).0

  -- A recovery of paired copies that succeeds leaves one applied history in both, with the same
  -- application data and receipts, and no entry above it.
  pub recover-Settled :
      (completed : ℕ)
      → Paired adapter identity w.first_copy w.second_copy
      → (recover adapter fault w).1 ≡ ok completed
      → Settled adapter identity fault
          (recover adapter fault w).0.first_copy
          (recover adapter fault w).0.second_copy
  recover-Settled completed h r =
      ((recover-Triple adapter identity fault).run_from w h).1 completed r

module _ {C V : Type 0} ⦃change_eq : PartialEq C⦄ (adapter : Adapter C V) (identity : Identity)
    (fault : ℕ → Fault) (batch : Batch C) where
  -- An operation that has its result already.
  completed-Committed :
      (log : List (Entry C)) (view : V) (receipts : List OperationReceipt) (p s : Node C V)
      → (result : WriteResult) → Agreed adapter identity log view receipts p s
      → completed_result adapter p batch ≡ ok (some result)
      → Committed adapter identity batch result p s
  unfolding completed_result completed_as matches_request
  completed-Committed log view receipts p s result h q =
      let (_, q1) =
        ensure-eq-ok ((batch.identity == p.identity) && not (is_empty batch.operation_id)) _ _ q in
      let (o, q2, q3) = bind-eq-ok (receipt adapter p batch.operation_id) _ q1 in
      elim (Option-cases o) [
        | inl a ↦
            let clash : ok none ≡ ok (some result) =
              subst (λ x. completed_as adapter batch x ≡ ok (some result)) a q3 in
            cc
        | inr (r, a) ↦
            let k : completed_as adapter batch (some r) ≡ ok (some result) =
              subst (λ x. completed_as adapter batch x ≡ ok (some result)) a q3 in
            let (m, k1) = check-eq-ok (matches_request adapter r batch) _ k in
            let (_, m1) =
              ensure-eq-ok
                (ltb 0 adapter.version
                  && eqb r.fingerprint_version adapter.version
                  && eqb r.result_version 1)
                _ _ m in
            let (e, member, op, made) =
              receipt-Copy adapter identity p batch.operation_id r h.here h.history
                (q2 ∙ ap ok a) in
            record {
              log = log;
              view = view;
              receipts = receipts;
              agreement = h;
              entry = e;
              member = member;
              same_operation = op;
              same_request =
                  ap (λ (y : OperationReceipt). y.request_digest) (sym made) ∙ digest_is r m1;
              is_result =
                  sym
                    (some_injective r.result result (ok_injective (some r.result) (some result) k1))
                  ∙ ap (λ (y : OperationReceipt). y.result) made;
            }
      ]
    where
      digest_is :
          (r : OperationReceipt)
          → ensure
              (not (is_empty batch.operation_id)
                && ltb 0 r.result.sequence
                && leb r.result.sequence i64_max
                && (r.result.operation_id == batch.operation_id)
                && (r.request_digest == adapter.fingerprint batch.changes))
              "idempotency key reused for different request"
            ≡ ok tt
          → r.request_digest ≡ adapter.fingerprint batch.changes
      digest_is r m =
          let all =
            ensure-ok
              (not (is_empty batch.operation_id)
                && ltb 0 r.result.sequence
                && leb r.result.sequence i64_max
                && (r.result.operation_id == batch.operation_id)
                && (r.request_digest == adapter.fingerprint batch.changes))
              "idempotency key reused for different request" m in
          let (_, d) =
            (&&_iff
                (not (is_empty batch.operation_id)
                  && ltb 0 r.result.sequence
                  && leb r.result.sequence i64_max
                  && (r.result.operation_id == batch.operation_id))
                (r.request_digest == adapter.fingerprint batch.changes)).0
              all in
          eq→≡ r.request_digest (adapter.fingerprint batch.changes) d

  commit_rest :
      (result : Option WriteResult) (w : World C V)
      → Settled adapter identity fault w.first_copy w.second_copy
      → completed_result adapter w.first_copy batch ≡ ok result
      → After adapter identity
          (Committed adapter identity batch)
          (commit_as adapter fault batch result w)
  commit_rest none w (log, view, receipts, h) q =
      (commit_new-Triple adapter identity fault batch log view receipts).run_from w h
  commit_rest (some result) w (log, view, receipts, h) q =
      (weaken-Triple adapter identity (Committed adapter identity batch result) (return result)
          (λ u p s. (u ≡ result) × Committed adapter identity batch result p s)
          (Committed adapter identity batch)
          (return-Triple adapter identity (Committed adapter identity batch result) result
            (λ p s k. agreed k.log k.view k.receipts k.agreement))
          (λ t p s k. subst (λ x. Committed adapter identity batch x p s) (sym k.0) k.1)).run_from
        w (completed-Committed log view receipts w.first_copy w.second_copy result h q)

  commit-Triple :
      Triple adapter identity
        (Paired adapter identity)
        (commit adapter fault batch)
        (Committed adapter identity batch)
  unfolding commit
  commit-Triple =
      let sound : Sound adapter identity (Settled adapter identity fault) =
        λ p s (log, view, receipts, h). agreed log view receipts h in
      bind-Triple adapter identity (recover-Triple adapter identity fault) (λ _.
        bind-Triple adapter identity
          (read_primary-Triple adapter identity fault (Settled adapter identity fault)
            (λ n. completed_result adapter n batch) sound)
          (λ result. record { run_from = λ w h. commit_rest result w h.1 h.0 }))

  -- A commit on paired copies leaves them paired, whichever of its calls are lost and whether it
  -- succeeds or not.
  pub commit-Paired :
      (w : World C V)
      → Paired adapter identity w.first_copy w.second_copy
      → Paired adapter identity
          (commit adapter fault batch w).0.first_copy
          (commit adapter fault batch w).0.second_copy
  commit-Paired w h = (commit-Triple.run_from w h).0

  -- A commit on paired copies that succeeds has made the operation durable: an applied entry with its
  -- identifier and the fingerprint of its changes stands in one history that both copies share, with
  -- the same application data, and the result names that entry's sequence.
  pub commit-Committed :
      (w : World C V) (result : WriteResult)
      → Paired adapter identity w.first_copy w.second_copy
      → (commit adapter fault batch w).1 ≡ ok result
      → Committed adapter identity batch result
          (commit adapter fault batch w).0.first_copy
          (commit adapter fault batch w).0.second_copy
  commit-Committed w result h r = (commit-Triple.run_from w h).1 result r

module _ {C V : Type 0} ⦃change_eq : PartialEq C⦄ (adapter : Adapter C V)
    (identity : Identity) where
  -- The primary holds this entry with its decision, applied or not.
  abbrev pub Decided : Entry C → Node C V → Type 0
  Decided e p =
      (d : Entry C) × In d p.replication_log
      × (d ≡ with_state adapter d.state e)
      × (state_beq d.state prepared ≡ false)

  Paired-Decided :
      (p s : Node C V) (e : Entry C)
      → Paired adapter identity p s
      → In e s.replication_log
      → e.state ≡ applied
      → Decided e p
  Paired-Decided p s e (agreed log view receipts h) m a = (
    e,
    subst (In e) (sym h.here.logs) (subst (In e) h.there.logs m),
    refl,
    ap (λ x. state_beq x prepared) a,
  )
  Paired-Decided p s e (offered log view receipts x h) m a = (
    e,
    subst (In e) (sym h.here.logs) (inr (subst (In e) h.there.logs m)),
    refl,
    ap (λ x. state_beq x prepared) a,
  )
  Paired-Decided p s e (staged log view receipts at x h) m a = elim (subst (In e) h.there.logs m) [
    | inl same ↦ let clash : prepared ≡ applied = ap (λ (y : Entry C). y.state) (sym same) ∙ a in cc
    | inr older ↦
        (e, subst (In e) (sym h.here.logs) (inr older), refl, ap (λ x. state_beq x prepared) a)
  ]
  Paired-Decided p s e (half_applied log view receipts x next h) m a =
      elim (subst (In e) h.there.logs m) [
        | inl same ↦ (
          with_state adapter decided x,
          subst (In (with_state adapter decided x)) (sym h.here.logs) (inl refl),
          ap (with_state adapter decided) (sym same),
          refl,
        )
        | inr older ↦
            (e, subst (In e) (sym h.here.logs) (inr older), refl, ap (λ x. state_beq x prepared) a)
      ]

  -- After a commit on paired copies, whichever of its calls are lost and whether it succeeds or not,
  -- an entry that the secondary has applied stands in the journal of the primary, the same in all but
  -- its state, and it is decided there or applied too.
  pub commit-Decided :
      (fault : ℕ → Fault) (batch : Batch C) (w : World C V) (e : Entry C)
      → Paired adapter identity w.first_copy w.second_copy
      → In e (commit adapter fault batch w).0.second_copy.replication_log
      → e.state ≡ applied
      → Decided e (commit adapter fault batch w).0.first_copy
  commit-Decided fault batch w e h =
      Paired-Decided (commit adapter fault batch w).0.first_copy
        (commit adapter fault batch w).0.second_copy e
        (commit-Paired adapter identity fault batch w h)
