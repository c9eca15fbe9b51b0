-- ===== src/Pair/Safety/Fresh.antt =====
-- The commit of a new entry (`commit` of replication/fixed-pair/src/lib.rs).
use terrapi_vault.Common.{
  PartialEq, bool_eq, option_eq, list_eq, string_eq, nat_eq, ok, ok_or, ok_injective, ℕ, ◌≡◌, refl,
  sym, ap, subst, ◌∙◌, inl, Option, none, some, List, ◌∷◌,
}
use terrapi_vault.Pair.Model.{
  Identity, identity_eq, Batch, prepared, decided, applied, Entry, checkpoint_eq, WriteResult,
  OperationReceipt, receipt_eq,
}
use terrapi_vault.Pair.Tables.{Adapter, Node, with_operation}
use terrapi_vault.Pair.Operations.{with_state, stage, decide, apply, receipt}
use terrapi_vault.Pair.Run.{Fault, return, lift, on_primary, reading, ◌>>=◌}
use terrapi_vault.Pair.Protocol.{commit_entry}
use terrapi_vault.Pair.Effects.{receipt_of}
use terrapi_vault.Pair.History.{some_injective, In, with_operation-In}
use terrapi_vault.Pair.Agreement.{
  Agreed, Offered, Staged, HalfApplied, agreed, staged, half_applied, Distinct-History,
}
use terrapi_vault.Pair.Receipts.{receipt-Copy}
use terrapi_vault.Pair.Hoare.{
  Assertion, Triple, Sound, return-Triple, lift-Triple, weaken-Triple, bind-Triple,
  on_primary-Triple,
}
use terrapi_vault.Pair.Safety.Calls.{
  read_primary-Triple, write_primary-Triple, write_secondary-Triple, Sound-Offered, Sound-Staged,
  Extended, Sound-Extended, stage-Offered, decide-Staged, apply-Staged, apply-HalfApplied,
}

module _ {C V : Type 0} ⦃change_eq : PartialEq C⦄ (adapter : Adapter C V)
    (identity : Identity) where
  -- An operation stands applied in both copies, with the same application data, and this is its
  -- result. The request is known by its identifier and its fingerprint.
  pub record Committed (batch : Batch C) (result : WriteResult) (p s : Node C V) : Type 0 where
    pub log : List (Entry C)
    pub view : V
    pub receipts : List OperationReceipt
    pub agreement : Agreed adapter identity log view receipts p s
    pub entry : Entry C
    pub member : In entry log
    pub same_operation : entry.batch.operation_id ≡ batch.operation_id
    pub same_request : adapter.fingerprint entry.batch.changes ≡ adapter.fingerprint batch.changes
    pub is_result :
        result ≡ record { operation_id = entry.batch.operation_id; sequence = entry.sequence }

module _ {C V : Type 0} ⦃change_eq : PartialEq C⦄ (adapter : Adapter C V) (identity : Identity)
    (fault : ℕ → Fault) (log : List (Entry C)) (view : V) (receipts : List OperationReceipt)
    (batch : Batch C) (e : Entry C) where
  -- The last steps of a commit: the receipt of an entry that both copies have applied.
  pub read_back-Triple :
      (P : Assertion adapter identity)
      → ((p s : Node C V)
          → P p s
          → (rows : List (Entry C)) × (v : V) × (rs : List OperationReceipt) × Agreed adapter
              identity rows v rs p s
            × In (with_state adapter applied e) rows)
      → e.batch ≡ batch
      → Triple adapter identity P
          (on_primary fault (reading (λ n. receipt adapter n e.batch.operation_id)) >>= λ r.
            lift (ok_or r "missing committed receipt") >>= λ written. return written.result)
          (Committed adapter identity batch)
  read_back-Triple P known b =
      let sound : Sound adapter identity P =
        λ p s h. let (rows, v, rs, a, _) = known p s h in agreed rows v rs a in
      let read : Option OperationReceipt → Assertion adapter identity =
        λ r p s. (receipt adapter p e.batch.operation_id ≡ ok r) × P p s in
      let taken : Option OperationReceipt → OperationReceipt → Assertion adapter identity =
        λ r written p s. (ok_or r "missing committed receipt" ≡ ok written) × read r p s in
      bind-Triple adapter identity
        (read_primary-Triple adapter identity fault P (λ n. receipt adapter n e.batch.operation_id)
          sound)
        (λ r.
          bind-Triple adapter identity
            (lift-Triple adapter identity (read r) (ok_or r "missing committed receipt")
              (λ p s h. sound p s h.1))
            (λ written.
              weaken-Triple adapter identity (taken r written) (return written.result)
                (λ u p s. (u ≡ written.result) × taken r written p s)
                (Committed adapter identity batch)
                (return-Triple adapter identity (taken r written) written.result
                  (λ p s h. sound p s h.1.1))
                (λ result p s h. answer r written result p s h.0 h.1.0 h.1.1.0 h.1.1.1)))
    where
      answer :
          (r : Option OperationReceipt) (written : OperationReceipt) (result : WriteResult)
          → (p s : Node C V) → result ≡ written.result
          → ok_or r "missing committed receipt" ≡ ok written
          → receipt adapter p e.batch.operation_id ≡ ok r
          → P p s
          → Committed adapter identity batch result p s
      answer none written result p s same o q h = cc
      answer (some x) written result p s same o q h =
          let (rows, v, rs, a, m) = known p s h in
          let (found, member, op, made) =
            receipt-Copy adapter identity p e.batch.operation_id x a.here a.history q in
          let distinct = Distinct-History adapter identity rows v rs a.history in
          let there : found ≡ with_state adapter applied e =
            some_injective found (with_state adapter applied e) (
              sym (with_operation-In found rows distinct member)
              ∙ ap (λ id. with_operation id rows) op
              ∙ with_operation-In (with_state adapter applied e) rows distinct m) in
          record {
            log = rows;
            view = v;
            receipts = rs;
            agreement = a;
            entry = with_state adapter applied e;
            member = m;
            same_operation = ap (λ (y : Batch C). y.operation_id) b;
            same_request = ap (λ (y : Batch C). adapter.fingerprint y.changes) b;
            is_result =
                same
                ∙ ap (λ (y : OperationReceipt). y.result)
                    (sym (ok_injective x written o) ∙ made ∙ ap (receipt_of adapter) there);
          }

  -- From the entry that `prepare` opened to its receipt.
  pub new_entry-Triple :
      e.batch ≡ batch
      → e.state ≡ prepared
      → Triple adapter identity
          (Offered adapter identity log view receipts e)
          (commit_entry adapter fault e)
          (Committed adapter identity batch)
  unfolding commit_entry
  new_entry-Triple b open_state =
      let shape : e ≡ with_state adapter prepared e = ap (λ s. with_state adapter s e) open_state in
      bind-Triple adapter identity
        (write_secondary-Triple adapter identity fault
          (Offered adapter identity log view receipts e)
          (Staged adapter identity log view receipts prepared e) (stage adapter e)
          (Sound-Offered adapter identity log view receipts e)
          (Sound-Staged adapter identity log view receipts prepared e)
          (λ p s s' h r.
            stage-Offered adapter identity log view receipts prepared e p s s' h
              (subst (λ x. stage adapter x s ≡ ok s') shape r)))
        (λ _.
          bind-Triple adapter identity
            (on_primary-Triple adapter identity fault
              (Staged adapter identity log view receipts prepared e)
              (λ d p s.
                (d ≡ with_state adapter decided e)
                × Staged adapter identity log view receipts decided e p s)
              (decide adapter e.batch.operation_id)
              (Sound-Staged adapter identity log view receipts prepared e)
              (λ p p' s d h r.
                let q = decide-Staged adapter identity log view receipts prepared e d p p' s h r in
                (staged log view receipts decided e q.1, q)))
            (λ d.
              bind-Triple adapter identity
                (write_secondary-Triple adapter identity fault
                  (λ p s.
                    (d ≡ with_state adapter decided e)
                    × Staged adapter identity log view receipts decided e p s)
                  (λ p s.
                    (d ≡ with_state adapter decided e)
                    × ((next : V) × HalfApplied adapter identity log view receipts e next p s))
                  (apply adapter d) (λ p s h. staged log view receipts decided e h.1)
                  (λ p s h. half_applied log view receipts e h.1.0 h.1.1)
                  (λ p s s' h r. (
                    h.0,
                    apply-Staged adapter identity log view receipts d e p s s' h.1
                        (ap (λ (y : Entry C). y.sequence) h.0) r,
                  )))
                (λ _.
                  bind-Triple adapter identity
                    (write_primary-Triple adapter identity fault
                      (λ p s.
                        (d ≡ with_state adapter decided e)
                        × ((next : V) × HalfApplied adapter identity log view receipts e next p s))
                      (Extended adapter identity log view receipts e) (apply adapter d)
                      (λ p s h. half_applied log view receipts e h.1.0 h.1.1)
                      (Sound-Extended adapter identity log view receipts e)
                      (λ p p' s h r.
                        apply-HalfApplied adapter identity log view receipts d e h.1.0 p p' s h.1.1
                          (ap (λ (y : Entry C). y.sequence) h.0) r))
                    (λ _.
                      read_back-Triple (Extended adapter identity log view receipts e)
                        (λ p s h. (
                          with_state adapter applied e ∷ log,
                          h.0,
                          receipt_of adapter e ∷ receipts,
                          h.1,
                          inl refl,
                        ))
                        b))))
