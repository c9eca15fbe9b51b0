-- ===== src/Pair/Effects.antt =====
-- What the operations of a node leave behind when they succeed
-- (replication/fixed-pair/src/lib.rs and journal/store.rs).
use terrapi_vault.Common.{
  ltb, leb, Option-cases, &&_iff, bool_eq, option_eq, list_eq, string_eq, nat_eq, ok, bind-eq-ok,
  ok_or-eq-ok, ensure-eq-ok, check-eq-ok, ok_injective, i64_max, suc, String, ◌≡◌, sym, ap, subst,
  ◌∙◌, inl, inr, Bool, true, false, not, ◌&&◌, Option, none, some, List, arith,
}
use terrapi_vault.Pair.Model.{
  identity_eq, applied, state_beq, Entry, checkpoint_eq, OperationReceipt, receipt_eq,
}
use terrapi_vault.Pair.Tables.{Adapter, Node, is_empty, upsert, breaks_key, receipt_row}
use terrapi_vault.Pair.Store.{
  validate, decode, decode_row, write_entry, from_applied, decode_receipt, get_receipt,
}

not-eq-true : (b : Bool) → not b ≡ true → b ≡ false
not-eq-true b h = ground arith

module _ {C V : Type 0} (adapter : Adapter C V) where
  -- A row that can be decoded is read as it is.
  pub decode_row_lem : (o found : Option (Entry C)) → decode_row adapter o ≡ ok found → o ≡ found
  unfolding decode
  decode_row_lem none found h = ok_injective none found h
  decode_row_lem (some e) found h =
      let (e', d, h') = bind-eq-ok (decode adapter e) _ h in
      let (_, d1) = ensure-eq-ok _ _ _ d in
      let (_, d2) = check-eq-ok (validate adapter e e.batch.identity) _ d1 in
      let same : e ≡ e' = ok_injective e e' d2 in ap some same ∙ ok_injective (some e') found h'

  pub write_entry_lem :
      (e : Entry C) (n n' : Node C V)
      → write_entry adapter e n ≡ ok n'
      → (log : List (Entry C)) × (upsert e n.replication_log ≡ some log)
        × (n' ≡ record n { replication_log = log; revision = suc n.revision })
        × (leb e.sequence i64_max ≡ true)
        × (is_empty e.batch.operation_id ≡ false)
        × (validate adapter e e.batch.identity ≡ ok tt)
  unfolding write_entry
  write_entry_lem e n n' h =
      let (c, h1) =
        ensure-eq-ok
          (ltb 0 e.sequence && leb e.sequence i64_max && not (is_empty e.batch.operation_id)) _ _
          h in
      let (v, h2) = check-eq-ok (validate adapter e e.batch.identity) _ h1 in
      let (_, h3) = ensure-eq-ok (not (breaks_key e n.replication_log)) _ _ h2 in
      let (log, u, h4) = ok_or-eq-ok (upsert e n.replication_log) _ _ h3 in
      let (c1, o) =
        (&&_iff (ltb 0 e.sequence && leb e.sequence i64_max)
            (not (is_empty e.batch.operation_id))).0
          c in
      let (_, b) = (&&_iff (ltb 0 e.sequence) (leb e.sequence i64_max)).0 c1 in
      (log, u, sym (ok_injective _ n' h4), b, not-eq-true (is_empty e.batch.operation_id) o, v)

  -- The contents of the receipt of an entry.
  abbrev pub receipt_of : Entry C → OperationReceipt
  receipt_of e = record {
    fingerprint_version = adapter.version;
    request_digest = adapter.fingerprint e.batch.changes;
    result_version = 1;
    result = record { operation_id = e.batch.operation_id; sequence = e.sequence };
  }

  pub from_applied_lem :
      (e : Entry C) (r : OperationReceipt) → from_applied adapter e ≡ ok r → r ≡ receipt_of e
  unfolding from_applied
  from_applied_lem e r h =
      let (_, h1) = ensure-eq-ok (state_beq e.state applied) _ _ h in
      let (_, h2) = ensure-eq-ok (ltb 0 adapter.version) _ _ h1 in
      let (_, h3) =
        ensure-eq-ok
          (not (is_empty e.batch.operation_id) && ltb 0 e.sequence && leb e.sequence i64_max) _ _
          h2 in
      let (_, h4) = check-eq-ok (validate adapter e e.batch.identity) _ h3 in
      sym (ok_injective _ r h4)

  pub get_receipt_lem :
      (n : Node C V) (id : String) (o : Option OperationReceipt)
      → get_receipt adapter n id ≡ ok o
      → o ≡ receipt_row id n.operation_receipts
  unfolding get_receipt decode_receipt
  get_receipt_lem n id o h =
      let (_, h1) =
        ensure-eq-ok (ltb 0 adapter.version) _
          (decode_receipt adapter (receipt_row id n.operation_receipts)) h in
      elim (Option-cases (receipt_row id n.operation_receipts)) [
        | inl e ↦
            sym (ok_injective none o (subst (λ x. decode_receipt adapter x ≡ ok o) e h1)) ∙ sym e
        | inr (r, e) ↦
            let h2 : decode_receipt adapter (some r) ≡ ok o =
              subst (λ x. decode_receipt adapter x ≡ ok o) e h1 in
            let (_, h3) = ensure-eq-ok _ _ _ h2 in sym (ok_injective (some r) o h3) ∙ sym e
      ]
