-- ===== src/Pair/Outcome/Writes.antt =====
-- A refused write: what its reason is, and when its outcome is unknown
-- (replication/fixed-pair/src/coordinator.rs).
use terrapi_vault.Common.{
  PartialEq, ◌==◌, bool_eq, option_eq, list_eq, string_eq, nat_eq, Result, err, ok, ℕ, String, ◌≡◌,
  refl, sym, ap, ◌∙◌, ◌⊎◌, inl, inr, Bool, true, false, not, ◌||◌, Option, none, some, arith,
}
use terrapi_vault.Pair.Model.{
  Identity, identity_eq, Batch, Entry, checkpoint_eq, OperationReceipt, receipt_eq, batch_beq_iff,
}
use terrapi_vault.Pair.Tables.{Adapter, is_empty, with_operation}
use terrapi_vault.Pair.Store.{by_operation}
use terrapi_vault.Pair.Operations.{decide, receipt, completed_result}
use terrapi_vault.Pair.Run.{Fault, on_primary, reading}
use terrapi_vault.Pair.Effects.{decode_row_lem}
use terrapi_vault.Pair.Coordinator.{
  unknown, WriteFailure, Coordinator, refused, attempt, operation_of, receipt_for, or_unavailable,
  decide_reply, decide_step, conflicts, mismatches, admit, settle, settle_as, write,
}
use terrapi_vault.Pair.Outcome.{Rejected, Refused}
use terrapi_vault.Pair.Outcome.Reads.{failure_is, bind_refused, bind_replied}
use terrapi_vault.Pair.Outcome.Steps.{
  Honest, bind-HonestAt, bind-Honest, or_unavailable-Honest, reading_reply, reject_if-HonestAt,
  reconcile_step-Honest, settle_as-Honest, admit_as-Honest,
}

module _ {C V : Type 0} ⦃change_eq : PartialEq C⦄ (adapter : Adapter C V) (fault : ℕ → Fault)
    (constraint : String → Bool) (identity : Identity) (batch : Batch C) where
  -- The first rejection: the test is on what the primary says of the operation.
  first-Rejected :
      (previous : Option (Entry C)) (d : Coordinator C V)
      → by_operation adapter d.copies.first_copy batch.operation_id ≡ ok previous
      → (not (batch.identity == identity)
          || is_empty batch.operation_id
          || conflicts adapter fault constraint previous batch)
        ≡ true
      → Rejected adapter fault constraint identity batch d
  first-Rejected previous d h t =
      elim (one_of (not (batch.identity == identity)) (is_empty batch.operation_id) _ t) [
        | inl a ↦
            Rejected.other_identity
              (λ e. let same = (identity_eq.test_iff batch.identity identity).1 e in ground arith)
        | inr (inl a) ↦ Rejected.unnamed a
        | inr (inr a) ↦ of_entry previous h a
      ]
    where
      one_of : (a b c : Bool) → (a || b || c) ≡ true → (a ≡ true) ⊎ (b ≡ true) ⊎ (c ≡ true)
      one_of true b c k = inl refl
      one_of false true c k = inr (inl refl)
      one_of false false c k = inr (inr k)

      of_entry :
          (o : Option (Entry C))
          → by_operation adapter d.copies.first_copy batch.operation_id ≡ ok o
          → conflicts adapter fault constraint o batch ≡ true
          → Rejected adapter fault constraint identity batch d
      of_entry none k q = cc
      of_entry (some e) k q =
          Rejected.other_batch e
            (decode_row_lem adapter
              (with_operation batch.operation_id d.copies.first_copy.replication_log) (some e) k)
            (λ same. let equal = (batch_beq_iff e.batch batch).1 same in ground arith)

  second-Rejected :
      (o : Option OperationReceipt) (d : Coordinator C V)
      → receipt adapter d.copies.first_copy batch.operation_id ≡ ok o
      → mismatches adapter fault constraint o batch ≡ true
      → Rejected adapter fault constraint identity batch d
  second-Rejected none d h t = cc
  second-Rejected (some r) d h t =
      Rejected.other_receipt r h (λ e. let clash : not true ≡ true = rw e at t in cc)

  admit-Honest :
      (now : ℕ)
      → Honest adapter fault constraint identity batch
          (admit adapter fault constraint now identity batch)
  unfolding admit
  admit-Honest now c =
      let id = batch.operation_id in
      bind-HonestAt adapter fault constraint identity batch _ _ c
        (or_unavailable-Honest adapter fault constraint identity batch
          (operation_of adapter fault constraint id) c)
        (λ previous said.
          let d =
            (or_unavailable adapter fault constraint id (operation_of adapter fault constraint id)
              c).0 in
          bind-HonestAt adapter fault constraint identity batch _ _ d
            (reject_if-HonestAt adapter fault constraint identity batch _ d (
              first-Rejected previous d (
                reading_reply adapter fault constraint identity batch
                  (λ n. by_operation adapter n id) c previous said)))
            (λ _ _.
              bind-HonestAt adapter fault constraint identity batch _ _ _
                (or_unavailable-Honest adapter fault constraint identity batch
                  (receipt_for adapter fault constraint id) _)
                (λ r answered.
                  bind-HonestAt adapter fault constraint identity batch _ _ _
                    (reject_if-HonestAt adapter fault constraint identity batch _ _ (
                      second-Rejected r _ (
                        reading_reply adapter fault constraint identity batch
                          (λ n. receipt adapter n id) _ r answered)))
                    (λ _ _.
                      bind-Honest adapter fault constraint identity batch _ _
                        (reconcile_step-Honest adapter fault constraint identity batch now)
                        (λ _.
                          bind-Honest adapter fault constraint identity batch _ _
                            (or_unavailable-Honest adapter fault constraint identity batch
                              (on_primary fault (reading (λ n. completed_result adapter n batch))))
                            (admit_as-Honest adapter fault constraint identity batch))
                        _))))

  -- A decision whose saving failed has an unknown outcome.
  decide_fails :
      (w : Coordinator C V) (m : String)
      → (attempt (on_primary fault (decide adapter batch.operation_id)) w).1 ≡ err m
      → (f : WriteFailure) → (settle adapter fault constraint batch.operation_id w).1 ≡ refused f
      → f.outcome ≡ unknown
  unfolding settle decide_step
  decide_fails w m h f e =
      let (g, q, u) =
        decide_refused (attempt (on_primary fault (decide adapter batch.operation_id)) w) h in
      let same : g ≡ f = failure_is g f (sym (bind_refused _ _ w g q) ∙ e) in
      ap (λ x. x.outcome) (sym same) ∙ u
    where
      decide_refused :
          (r : Coordinator C V × Result (Entry C))
          → r.1 ≡ err m
          → (g : WriteFailure) × ((decide_reply adapter fault constraint batch.operation_id r).1
              ≡ refused g)
            × (g.outcome ≡ unknown)
      decide_refused (d, ok x) k = cc
      decide_refused (d, err _) k = (_, refl, refl)

module _ {C V : Type 0} ⦃change_eq : PartialEq C⦄ (adapter : Adapter C V) (fault : ℕ → Fault)
    (constraint : String → Bool) where
  -- A write that is refused names its operation, with status 503 or as an invalid request. With 503 the
  -- coordinator admits no write any more, and it says "not accepted" only while the primary has no
  -- receipt of the operation, and in its journal no entry of it or a prepared one without decision.
  -- When saving the decision failed, the outcome is unknown. With 400 the batch has another identity,
  -- no name, or the name of another batch in the journal or the receipts, or its preparation has
  -- violated a constraint.
  pub write-Refused :
      (now : ℕ) (batch : Batch C) (c : Coordinator C V) (f : WriteFailure)
      → (write adapter fault constraint now batch c).1 ≡ refused f
      → Refused adapter fault constraint now batch c f
          (write adapter fault constraint now batch c).0
  unfolding write
  write-Refused now batch c f e =
      let identity = c.copies.first_copy.identity in
      let id = batch.operation_id in
      record {
        told =
            bind-Honest adapter fault constraint identity batch
              (admit adapter fault constraint now identity batch)
              (settle_as adapter fault constraint id)
              (admit-Honest adapter fault constraint identity batch now)
              (settle_as-Honest adapter fault constraint identity batch) c f e;
        is_uncertain = λ w m reached h.
            let next =
              bind_replied (admit adapter fault constraint now identity batch)
                (settle_as adapter fault constraint id) c w none reached in
            decide_fails adapter fault constraint identity batch w m h f
              (sym (ap (λ r. r.1) next) ∙ e);
      }
