-- ===== src/Pair/Outcome/Reads.antt =====
-- Sequences of steps of a write, and what reads of the primary tell
-- (replication/fixed-pair/src/coordinator.rs).
use terrapi_vault.Common.{
  leb, if-split, PartialEq, ◌==◌, bool_eq, option_eq, list_eq, string_eq, nat_eq, Result, err, ok,
  bind-eq-ok, then-eq-ok, ok_or-eq-ok, ensure-eq-ok, ok_injective, ℕ, suc, String, ◌≡◌, refl, sym,
  ap, subst, ◌∙◌, inl, inr, Bool, false, Option, none, some,
}
use terrapi_vault.Pair.Model.{
  identity_eq, prepared, state_beq, state_beq_iff, Entry, checkpoint_eq, OperationReceipt,
  receipt_eq,
}
use terrapi_vault.Pair.Tables.{Adapter, Node, with_operation, receipt_row}
use terrapi_vault.Pair.Store.{by_operation, get_receipt, expected_receipt, validate_entry}
use terrapi_vault.Pair.Operations.{orphan, receipt_as, receipt}
use terrapi_vault.Pair.Run.{
  Fault, delivered, lost_request, lost_reply, World, deliver, on_primary, reading,
}
use terrapi_vault.Pair.Effects.{decode_row_lem, get_receipt_lem}
use terrapi_vault.Pair.Coordinator.{
  not_accepted, unknown, WriteFailure, Coordinator, Reply, refused, replied, Step, after_reply,
  ◌>>=◌, outcome_of,
}
use terrapi_vault.Pair.Checkpoints.{current}
use terrapi_vault.Pair.History.{In-with_operation}
use terrapi_vault.Pair.Outcome.{Undecided}

pub failure_is :
    {T : Type 0} (f g : WriteFailure) → ◌≡◌ {A = Reply T} (refused f) (refused g) → f ≡ g
failure_is f g h = cc

module _ {C V T U : Type 0} (m : Step C V T) (next : T → Step C V U) (c : Coordinator C V) where
  pub bind_refused : (g : WriteFailure) → (m c).1 ≡ refused g → ((m >>= next) c).1 ≡ refused g
  unfolding ◌>>=◌
  bind_refused g h = cases (m c) h
    where
      cases : (r : Coordinator C V × Reply T) → r.1 ≡ refused g → (after_reply next r).1 ≡ refused g
      cases (d, refused f) k = ap refused (failure_is f g k)
      cases (d, replied t) k = cc

  pub bind_replied :
      (d : Coordinator C V) (t : T) → m c ≡ (d, replied t) → (m >>= next) c ≡ next t d
  unfolding ◌>>=◌
  bind_replied d t h = ap (after_reply next) h

module _ {C V T : Type 0} (fault : ℕ → Fault) (f : Node C V → Result T) where
  -- A read of the primary answers truly or not at all, and leaves the primary as it is.
  pub read_lem :
      (w : World C V)
      → ((on_primary fault (reading f) w).0.first_copy ≡ w.first_copy)
        × ((t : T) → (on_primary fault (reading f) w).1 ≡ ok t → f w.first_copy ≡ ok t)
  unfolding on_primary
  read_lem w = answer (fault w.calls) (f w.first_copy) refl
    where
      answer :
          (x : Fault) (r : Result T)
          → f w.first_copy ≡ r
          → ((deliver x
                (λ n. record w { calls = suc w.calls; first_copy = n })
                (record w { calls = suc w.calls })
                (elim r [ err m ↦ err m | ok t ↦ ok (w.first_copy, t) ])).0.first_copy
              ≡ w.first_copy)
            × ((t : T)
                → (deliver x
                    (λ n. record w { calls = suc w.calls; first_copy = n })
                    (record w { calls = suc w.calls })
                    (elim r [ err m ↦ err m | ok t ↦ ok (w.first_copy, t) ])).1
                  ≡ ok t
                → f w.first_copy ≡ ok t)
      answer delivered (ok u) e = (refl, λ t k. e ∙ k)
      answer delivered (err m) e = (refl, λ t k. cc)
      answer lost_reply (ok u) e = (refl, λ t k. cc)
      answer lost_reply (err m) e = (refl, λ t k. cc)
      answer lost_request r e = (refl, λ t k. cc)

module _ {C V : Type 0} ⦃change_eq : PartialEq C⦄ (adapter : Adapter C V) (fault : ℕ → Fault)
    (constraint : String → Bool) where
  no_receipt_of :
      (n : Node C V) (e : Entry C)
      → validate_entry adapter n e ≡ ok none
      → receipt_row e.batch.operation_id n.operation_receipts ≡ none
  unfolding validate_entry
  no_receipt_of n e h =
      let (actual, g, h1) = bind-eq-ok (get_receipt adapter n e.batch.operation_id) _ h in
      let (expected, _, h2) = bind-eq-ok (expected_receipt adapter e) _ h1 in
      let (_, h3) = ensure-eq-ok (actual == expected) _ _ h2 in
      sym (get_receipt_lem adapter n e.batch.operation_id actual g) ∙ ok_injective actual none h3

  -- A primary that says that there is no receipt has none in its table.
  no_receipt :
      (id : String) (n : Node C V)
      → receipt adapter n id ≡ ok none
      → receipt_row id n.operation_receipts ≡ none
  unfolding receipt receipt_as validate_entry orphan
  no_receipt id n h =
      let (found, row, h1) = bind-eq-ok (by_operation adapter n id) _ h in
      cases found (decode_row_lem adapter (with_operation id n.replication_log) found row) h1
    where
      cases :
          (found : Option (Entry C))
          → with_operation id n.replication_log ≡ found
          → receipt_as adapter n id found ≡ ok none
          → receipt_row id n.operation_receipts ≡ none
      cases none q k =
          let (o, g, k1) = bind-eq-ok (get_receipt adapter n id) _ k in
          let absent : o ≡ none = of_orphan o k1 in sym (get_receipt_lem adapter n id o g) ∙ absent
        where
          of_orphan : (o : Option OperationReceipt) → orphan adapter n o ≡ ok none → o ≡ none
          of_orphan none q = refl
          of_orphan (some r) q =
              let (base, _, q1) = ok_or-eq-ok n.replication_base _ _ q in
              let (_, q2) = ensure-eq-ok (leb r.result.sequence base.sequence) _ _ q1 in
              let (_, _, q3) = then-eq-ok (current adapter n false) _ q2 in cc
      cases (some e) q k =
          subst (λ i. receipt_row i n.operation_receipts ≡ none)
            (In-with_operation id n.replication_log e q).1 (no_receipt_of n e k)

  pub not_accepted_lem :
      (id : String) (n : Node C V) (e : Result (Option (Entry C)))
      (r : Result (Option OperationReceipt))
      → ((o : Option (Entry C)) → e ≡ ok o → by_operation adapter n id ≡ ok o)
      → ((o : Option OperationReceipt) → r ≡ ok o → receipt adapter n id ≡ ok o)
      → outcome_of e r ≡ not_accepted
      → Undecided id n × (receipt_row id n.operation_receipts ≡ none)
  not_accepted_lem id n (ok none) (ok none) h g k = (
    inl (decode_row_lem adapter (with_operation id n.replication_log) none (h none refl)),
    no_receipt id n (g none refl),
  )
  not_accepted_lem id n (ok (some e)) (ok none) h g k =
      elim (if-split (state_beq e.state prepared) not_accepted unknown k) [
        | inl (t, _) ↦ (
          inr (
            e,
            decode_row_lem adapter (with_operation id n.replication_log) (some e) (h (some e) refl),
            (state_beq_iff e.state prepared).0 t,
          ),
          no_receipt id n (g none refl),
        )
        | inr (_, clash) ↦ cc
      ]
  not_accepted_lem id n (ok none) (ok (some r)) h g k = cc
  not_accepted_lem id n (ok (some e)) (ok (some r)) h g k = cc
  not_accepted_lem id n (err m) r h g k = cc
  not_accepted_lem id n (ok none) (err m) h g k = cc
  not_accepted_lem id n (ok (some e)) (err m) h g k = cc
