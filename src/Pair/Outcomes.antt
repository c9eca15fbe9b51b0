-- ===== src/Pair/Outcomes.antt =====
-- The outcomes of the operations of a node that succeed, by what they found
-- (replication/fixed-pair/src/lib.rs).
pub mod Apply
pub mod Prepare
use terrapi_vault.Common.{
  eqb, eqb_iff, if-split, Option-cases, &&_iff, PartialEq, ◌==◌, eq→≡, bool_eq, option_eq, list_eq,
  string_eq, nat_eq, ok, bind-eq-ok, then-eq-ok, ensure-eq-ok, check-eq-ok, ok_injective, ℕ, suc,
  ◌≡◌, refl, sym, subst, ◌∙◌, ◌⊎◌, inl, inr, true, false, ◌&&◌, none, some, List,
}
use terrapi_vault.Pair.Model.{
  identity_eq, secondary, role_beq, prepared, applied, state_beq, Entry, checkpoint_eq,
  OperationReceipt, receipt_eq,
}
use terrapi_vault.Pair.Tables.{Adapter, Node, with_sequence, resolved, receipt_row, insert_receipt}
use terrapi_vault.Pair.Store.{
  validate, check_entry_size, by_sequence, write_entry, from_applied, get_receipt, add_receipt,
  insert_for, save, journal_length,
}
use terrapi_vault.Pair.Operations.{apply_changeset, with_state, stage_as, stage, receipt}
use terrapi_vault.Pair.Effects.{decode_row_lem, receipt_of, from_applied_lem, get_receipt_lem}

module _ {C V : Type 0} (adapter : Adapter C V) where
  pub save_unapplied :
      (e : Entry C) (n n' : Node C V)
      → state_beq e.state applied ≡ false
      → save adapter e n ≡ ok n'
      → write_entry adapter e n ≡ ok n'
  unfolding save
  save_unapplied e n n' f h =
      let (written, w, h1) = bind-eq-ok (write_entry adapter e n) _ h in
      elim (if-split (state_beq e.state applied) (insert_for adapter e written) (ok written) h1) [
        | inl (t, _) ↦ cc
        | inr (_, same) ↦ w ∙ same
      ]

  pub save_applied :
      (e : Entry C) (n n' : Node C V)
      → state_beq e.state applied ≡ true
      → save adapter e n ≡ ok n'
      → (written : Node C V) × (write_entry adapter e n ≡ ok written)
        × (insert_for adapter e written ≡ ok n')
  unfolding save
  save_applied e n n' f h =
      let (written, w, h1) = bind-eq-ok (write_entry adapter e n) _ h in
      elim (if-split (state_beq e.state applied) (insert_for adapter e written) (ok written) h1) [
        | inl (_, i) ↦ (written, w, i)
        | inr (t, _) ↦ cc
      ]

  -- A new receipt is entered when the operation has none.
  pub insert_for_lem :
      (e : Entry C) (n n' : Node C V)
      → insert_for adapter e n ≡ ok n'
      → receipt_row e.batch.operation_id n.operation_receipts ≡ none
      → (rows : List OperationReceipt) × (insert_receipt (receipt_of adapter e) n.operation_receipts
          ≡ ok rows)
        × (n' ≡ record n { operation_receipts = rows })
  unfolding insert_for add_receipt
  insert_for_lem e n n' h fresh =
      let (r, f, h1) = bind-eq-ok (from_applied adapter e) _ h in
      let (old, g, h2) = bind-eq-ok (get_receipt adapter n e.batch.operation_id) _ h1 in
      let absent : old ≡ none = get_receipt_lem adapter n e.batch.operation_id old g ∙ fresh in
      let h3 : add_receipt adapter r n none ≡ ok n' =
        subst (λ o. add_receipt adapter r n o ≡ ok n') absent h2 in
      let (rows, i, h4) = bind-eq-ok (insert_receipt r n.operation_receipts) _ h3 in
      (
        rows,
        subst (λ x. insert_receipt x n.operation_receipts ≡ ok rows)
            (from_applied_lem adapter e r f) i,
        sym (ok_injective _ n' h4),
      )

module _ {C V : Type 0} ⦃change_eq : PartialEq C⦄ (adapter : Adapter C V) where
  -- An entry that the secondary takes over: what it has checked.
  pub record NewlyStaged (e : Entry C) (n n' : Node C V) : Type 0 where
    pub absent : with_sequence e.sequence n.replication_log ≡ none
    pub follows : (m : ℕ) × (journal_length adapter n ≡ ok m) × (e.sequence ≡ suc m)
    pub replays : (v : V) × (apply_changeset adapter n.view e ≡ ok v)
    pub based : adapter.hash_view n.view ≡ e.before
    pub written : write_entry adapter (with_state adapter prepared e) n ≡ ok n'

  abbrev pub AlreadyThere : Entry C → Node C V → Node C V → Type 0
  AlreadyThere e n n' =
      (old : Entry C) × (with_sequence e.sequence n.replication_log ≡ some old)
      × (old.digest ≡ e.digest)
      × (n' ≡ n)

  pub stage_lem :
      (e : Entry C) (n n' : Node C V)
      → stage adapter e n ≡ ok n'
      → AlreadyThere e n n' ⊎ NewlyStaged e n n'
  unfolding stage stage_as
  stage_lem e n n' h =
      let (_, h1) = ensure-eq-ok (role_beq n.role secondary) _ _ h in
      let (_, h2) = check-eq-ok (validate adapter e n.identity) _ h1 in
      let (_, h3) = check-eq-ok (check_entry_size adapter e) _ h2 in
      let (_, h4) = check-eq-ok n.profile.admission _ h3 in
      let (_, h5) = check-eq-ok n.profile.staging_idle _ h4 in
      let (old, f, h6) = bind-eq-ok (by_sequence adapter n e.sequence) _ h5 in
      let found : with_sequence e.sequence n.replication_log ≡ old =
        decode_row_lem adapter (with_sequence e.sequence n.replication_log) old f in
      elim (Option-cases old) [
        | inl a ↦
            let g : stage_as adapter e n none ≡ ok n' =
              subst (λ o. stage_as adapter e n o ≡ ok n') a h6 in
            let (_, g1) = check-eq-ok n.profile.publication_idle _ g in
            let (m, l, g2) = bind-eq-ok (journal_length adapter n) _ g1 in
            let (c, g3) =
              ensure-eq-ok (eqb e.sequence (suc m) && resolved n.replication_log) _ _ g2 in
            let (b, g4) = ensure-eq-ok (adapter.hash_view n.view == e.before) _ _ g3 in
            let (v, r, g5) = then-eq-ok (apply_changeset adapter n.view e) _ g4 in
            let (numbered, _) =
              (&&_iff (eqb e.sequence (suc m)) (resolved n.replication_log)).0 c in
            inr (record {
              absent = found ∙ a;
              follows = (m, l, (eqb_iff e.sequence (suc m)).0 numbered);
              replays = (v, r);
              based = eq→≡ (adapter.hash_view n.view) e.before b;
              written = save_unapplied adapter (with_state adapter prepared e) n n' refl g5;
            })
        | inr (x, a) ↦
            let g : stage_as adapter e n (some x) ≡ ok n' =
              subst (λ o. stage_as adapter e n o ≡ ok n') a h6 in
            let (d, g1) = ensure-eq-ok (x.digest == e.digest) _ _ g in
            inl (x, found ∙ a, eq→≡ x.digest e.digest d, sym (ok_injective n n' g1))
      ]
