-- ===== src/Pair/Receipts.antt =====
-- The receipts that a node gives for its operations (replication/fixed-pair/src/receipts.rs).
use terrapi_vault.Common.{
  if◌then◌else◌, Option-cases, PartialEq, ◌==◌, eq→≡, bool_eq, option_eq, list_eq, string_eq,
  nat_eq, ok, ◌>>=◌, bind-eq-ok, ok_or-eq-ok, ensure-eq-ok, ok_injective, String, ◌≡◌, sym, ap,
  subst, ◌∙◌, inl, inr, true, none, some, List,
}
use terrapi_vault.Pair.Model.{
  Identity, identity_eq, Role, applied, state_beq, state_beq_iff, Entry, checkpoint_eq,
  OperationReceipt, receipt_eq,
}
use terrapi_vault.Pair.Tables.{Adapter, Node, with_operation}
use terrapi_vault.Pair.Store.{
  by_operation, from_applied, get_receipt, expected_receipt, validate_entry,
}
use terrapi_vault.Pair.Operations.{orphan, receipt_as, receipt}
use terrapi_vault.Pair.Effects.{decode_row_lem, receipt_of, from_applied_lem}
use terrapi_vault.Pair.History.{some_injective, In, In-with_operation}
use terrapi_vault.Pair.Agreement.{History, Copy, applied-History}

module _ {C V : Type 0} ⦃change_eq : PartialEq C⦄ (adapter : Adapter C V) where
  -- The receipt of an applied entry is made from it.
  pub validate_entry_lem :
      (n : Node C V) (e : Entry C) (r : OperationReceipt)
      → state_beq e.state applied ≡ true
      → validate_entry adapter n e ≡ ok (some r)
      → r ≡ receipt_of adapter e
  unfolding validate_entry
  validate_entry_lem n e r a h =
      let (actual, _, h1) = bind-eq-ok (get_receipt adapter n e.batch.operation_id) _ h in
      let (expected, x, h2) = bind-eq-ok (expected_receipt adapter e) _ h1 in
      let (same, h3) = ensure-eq-ok (actual == expected) _ _ h2 in
      let x1 : (from_applied adapter e >>= λ t. ok (some t)) ≡ ok expected =
        sym (ap (λ b. if b then (from_applied adapter e >>= λ t. ok (some t)) else ok none) a)
        ∙ x in
      let (made, y, z) = bind-eq-ok (from_applied adapter e) _ x1 in
      let all : some r ≡ some made =
        sym (ok_injective actual (some r) h3)
        ∙ eq→≡ actual expected same
        ∙ sym (ok_injective (some made) expected z) in
      some_injective r made all ∙ from_applied_lem adapter e made y

module _ {C V : Type 0} ⦃change_eq : PartialEq C⦄ (adapter : Adapter C V) (identity : Identity)
    {role : Role} {log : List (Entry C)} {view : V} {receipts : List OperationReceipt} where
  -- Without a base, a receipt that a node gives is that of an entry of its journal.
  pub receipt-Copy :
      (n : Node C V) (id : String) (r : OperationReceipt)
      → Copy adapter identity role log view receipts n
      → History adapter identity log view receipts
      → receipt adapter n id ≡ ok (some r)
      → (e : Entry C) × In e log × (e.batch.operation_id ≡ id) × (r ≡ receipt_of adapter e)
  unfolding receipt receipt_as orphan
  receipt-Copy n id r c h q =
      let (found, f, q1) = bind-eq-ok (by_operation adapter n id) _ q in
      let there : with_operation id log ≡ found =
        ap (with_operation id) (sym c.logs)
        ∙ decode_row_lem adapter (with_operation id n.replication_log) found f in
      elim (Option-cases found) [
        | inr (e, a) ↦
            let (m, o) = In-with_operation id log e (there ∙ a) in
            let applied_now =
              (state_beq_iff e.state applied).1
                (applied-History adapter identity log view receipts e h m) in
            let v : validate_entry adapter n e ≡ ok (some r) =
              subst (λ x. receipt_as adapter n id x ≡ ok (some r)) a q1 in
            (e, m, o, validate_entry_lem adapter n e r applied_now v)
        | inl a ↦
            let g : (get_receipt adapter n id >>= λ x. orphan adapter n x) ≡ ok (some r) =
              subst (λ x. receipt_as adapter n id x ≡ ok (some r)) a q1 in
            let (o, _, g1) = bind-eq-ok (get_receipt adapter n id) _ g in
            elim (Option-cases o) [
              | inl b ↦
                  let k : ok none ≡ ok (some r) =
                    subst (λ x. orphan adapter n x ≡ ok (some r)) b g1 in
                  cc
              | inr (x, b) ↦
                  let k : orphan adapter n (some x) ≡ ok (some r) =
                    subst (λ y. orphan adapter n y ≡ ok (some r)) b g1 in
                  let (base, z, _) = ok_or-eq-ok n.replication_base _ _ k in
                  let clash : none ≡ some base = sym c.baseless ∙ z in cc
            ]
      ]
