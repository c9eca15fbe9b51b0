-- ===== src/Pair/Tails.antt =====
-- Opening, deciding and taking back the last entry of a copy (replication/fixed-pair/src/lib.rs).
use terrapi_vault.Common.{
  PartialEq, ◌==◌, ≡→eq, bool_eq, option_eq, list_eq, string_eq, nat_eq, ok, ensure, ensure-eq-ok,
  at, suc, String, ◌≡◌, refl, sym, ap, subst, ◌∙◌, ◌⊎◌, inl, inr, Bool, true, false, none, some,
  List, ◌∷◌,
}
use terrapi_vault.Common.Lists.{length}
use terrapi_vault.Pair.Model.{
  Identity, identity_eq, Role, Batch, State, prepared, decided, applied, state_beq, Entry,
  checkpoint_eq, OperationReceipt, receipt_eq,
}
use terrapi_vault.Pair.Tables.{Adapter, Node, with_operation, without_operation}
use terrapi_vault.Pair.Store.{checksum, validate, write_entry}
use terrapi_vault.Pair.Operations.{prepare, with_state, decide, abort}
use terrapi_vault.Pair.Effects.{write_entry_lem}
use terrapi_vault.Pair.History.{
  some_injective, Numbered, In, upsert-Numbered, without_operation_lem, In-with_operation,
}
use terrapi_vault.Pair.Outcomes.Apply.{decide_lem}
use terrapi_vault.Pair.Outcomes.Prepare.{prepare_lem, prepare_owned, abort_lem}
use terrapi_vault.Pair.Agreement.{Pending, Copy}
use terrapi_vault.Pair.Copies.{journal_length-Copy, write_entry-Copy, rewrite-Copy}

pub ensure-ok : (b : Bool) (message : String) → ensure b message ≡ ok tt → b ≡ true
ensure-ok true message h = refl
ensure-ok false message h = cc

only_decided :
    (s : State) → state_beq s applied ≡ false → state_beq s prepared ≡ false → s ≡ decided
only_decided prepared a b = cc
only_decided decided a b = refl
only_decided applied a b = cc

module _ {C V : Type 0} ⦃change_eq : PartialEq C⦄ (adapter : Adapter C V) (identity : Identity)
    {role : Role} {log : List (Entry C)} {view : V} {receipts : List OperationReceipt} where
  pub abort_tail :
      (e : Entry C) (n n' : Node C V)
      → Copy adapter identity role (with_state adapter prepared e ∷ log) view receipts n
      → Pending adapter identity log e
      → abort adapter e.batch.operation_id n ≡ ok n'
      → Copy adapter identity role log view receipts n'
  abort_tail e n n' c p r = elim (abort_lem adapter e.batch.operation_id n n' r) [
    | inl (absent, _) ↦
        let here : with_operation e.batch.operation_id n.replication_log
            ≡ some (with_state adapter prepared e) =
          ap (with_operation e.batch.operation_id) c.logs
          ∙ rw (≡→eq e.batch.operation_id e.batch.operation_id refl) refl in
        let clash : some (with_state adapter prepared e) ≡ none = sym here ∙ absent in cc
    | inr (_, _, _, _, left) ↦
        let cut : without_operation e.batch.operation_id n.replication_log ≡ log =
          ap (without_operation e.batch.operation_id) c.logs
          ∙ rw (≡→eq e.batch.operation_id e.batch.operation_id refl)
              (without_operation_lem e.batch.operation_id log p.fresh) in
        subst (Copy adapter identity role log view receipts) (sym left) record {
          plays = c.plays;
          serves = c.serves;
          baseless = c.baseless;
          logs = cut;
          views = c.views;
          keeps = c.keeps;
        }
  ]

  pub abort_absent :
      (id : String) (n n' : Node C V)
      → Copy adapter identity role log view receipts n
      → with_operation id log ≡ none
      → abort adapter id n ≡ ok n'
      → n' ≡ n
  abort_absent id n n' c f r = elim (abort_lem adapter id n n' r) [
    | inl (_, same) ↦ same
    | inr (e, found, _, _, _) ↦
        let clash : some e ≡ none = sym found ∙ ap (with_operation id) c.logs ∙ f in cc
  ]

  pub decide_tail :
      (at : State) (e d : Entry C) (n n' : Node C V)
      → Copy adapter identity role (with_state adapter at e ∷ log) view receipts n
      → state_beq at applied ≡ false
      → decide adapter e.batch.operation_id n ≡ ok (n', d)
      → (d ≡ with_state adapter decided e)
        × Copy adapter identity role (with_state adapter decided e ∷ log) view receipts n'
  decide_tail at e d n n' c o r =
      let (x, found, rest) = decide_lem adapter e.batch.operation_id n n' d r in
      let here : with_operation e.batch.operation_id n.replication_log
          ≡ some (with_state adapter at e) =
        ap (with_operation e.batch.operation_id) c.logs
        ∙ rw (≡→eq e.batch.operation_id e.batch.operation_id refl) refl in
      let same : x ≡ with_state adapter at e =
        some_injective x (with_state adapter at e) (sym found ∙ here) in
      elim rest [
        | inl (_, decision, written) ↦
            let is : d ≡ with_state adapter decided e =
              decision ∙ ap (with_state adapter decided) same in
            (
              is,
              rewrite-Copy adapter identity at decided e log n n' refl c
                  (subst (λ y. write_entry adapter y n ≡ ok n') is written),
            )
        | inr (late, decision, left) ↦
            let now : at ≡ decided =
              only_decided at o
                (sym (ap (λ (y : Entry C). state_beq y.state prepared) same) ∙ late) in
            (
              decision ∙ same ∙ ap (λ s. with_state adapter s e) now,
              subst
                  (λ s. Copy adapter identity role (with_state adapter s e ∷ log) view receipts n')
                  now
                  (subst (Copy adapter identity role (with_state adapter at e ∷ log) view receipts)
                    (sym left) c),
            )
      ]

  pub decide_known :
      (x d : Entry C) (n n' : Node C V)
      → Copy adapter identity role log view receipts n
      → with_operation x.batch.operation_id log ≡ some x
      → x.state ≡ applied
      → decide adapter x.batch.operation_id n ≡ ok (n', d)
      → (d ≡ x) × (n' ≡ n)
  decide_known x d n n' c f a r =
      let (y, found, rest) = decide_lem adapter x.batch.operation_id n n' d r in
      let same : y ≡ x =
        some_injective y x (sym found ∙ ap (with_operation x.batch.operation_id) c.logs ∙ f) in
      elim rest [
        | inl (p, _, _) ↦
            let clash : prepared ≡ applied = sym p ∙ ap (λ (z : Entry C). z.state) same ∙ a in cc
        | inr (_, decision, left) ↦ (decision ∙ same, left)
      ]

  -- Preparing finds the operation, or opens a new entry for it.
  pub prepare-Copy :
      (batch : Batch C) (e : Entry C) (n n' : Node C V)
      → Copy adapter identity role log view receipts n
      → Numbered log
      → prepare adapter batch n ≡ ok (n', e)
      → (e.batch ≡ batch)
        × ((In e log × (n' ≡ n))
            ⊎ (Pending adapter identity log e
                × (e.state ≡ prepared)
                × Copy adapter identity role
                    (with_state adapter prepared e ∷ log)
                    view
                    receipts
                    n'))
  unfolding validate
  prepare-Copy batch e n n' c h r = elim (prepare_lem adapter batch n n' e r) [
    | inl (found, requested, same) ↦ (
      requested,
      inl (
        (In-with_operation batch.operation_id log e
            (ap (with_operation batch.operation_id) (sym c.logs) ∙ found)).0,
        same,
      ),
    )
    | inr new ↦
        let (m, counted, s) = new.follows in
        let numbered : e.sequence ≡ suc (length log) =
          s ∙ ap suc (journal_length-Copy adapter identity n m c h counted) in
        let (_, _, _, bounded, named, valid) = write_entry_lem adapter e n n' new.written in
        let (_, v) = ensure-eq-ok (e.batch.identity == e.batch.identity) _ _ valid in
        let op = ap (λ (b : Batch C). b.operation_id) new.requested in
        let shape : e ≡ with_state adapter prepared e =
          ap (λ s. with_state adapter s e) new.open_state in
        (
          new.requested,
          inr (
            record {
              owned =
                  ap (λ (b : Batch C). b.identity) new.requested
                  ∙ prepare_owned adapter batch n n' e r
                  ∙ c.serves;
              named = named;
              numbered = numbered;
              bounded = bounded;
              sealed = ensure-ok (e.digest == checksum adapter e) _ v;
              fresh =
                  ap (λ id. with_operation id log) op
                  ∙ ap (with_operation batch.operation_id) (sym c.logs)
                  ∙ new.absent;
            },
            new.open_state,
            write_entry-Copy adapter identity (with_state adapter prepared e) n n'
                (with_state adapter prepared e ∷ log) c
                (upsert-Numbered (with_state adapter prepared e) log h numbered)
                (subst (λ x. write_entry adapter x n ≡ ok n') shape new.written),
          ),
        )
  ]
