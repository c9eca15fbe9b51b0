-- ===== src/Pair/Safety/Known.antt =====
-- The commit of an entry that both copies have applied before (replication/fixed-pair/src/lib.rs).
use terrapi_vault.Common.{
  PartialEq, bool_eq, option_eq, list_eq, string_eq, nat_eq, ℕ, ◌≡◌, sym, ap, subst, ◌∙◌, some,
  List,
}
use terrapi_vault.Pair.Model.{
  Identity, identity_eq, Batch, applied, Entry, checkpoint_eq, OperationReceipt, receipt_eq,
}
use terrapi_vault.Pair.Tables.{Adapter, with_operation, with_sequence}
use terrapi_vault.Pair.Operations.{with_state, stage, decide, apply}
use terrapi_vault.Pair.Run.{Fault}
use terrapi_vault.Pair.Protocol.{commit_entry}
use terrapi_vault.Pair.History.{In, with_sequence-In, with_operation-In}
use terrapi_vault.Pair.Agreement.{
  History, Agreed, Numbered-History, Distinct-History, applied-History,
}
use terrapi_vault.Pair.Copies.{stage_known, apply_known}
use terrapi_vault.Pair.Tails.{decide_known}
use terrapi_vault.Pair.Hoare.{Assertion, Triple, bind-Triple, on_primary-Triple}
use terrapi_vault.Pair.Safety.Calls.{write_primary-Triple, write_secondary-Triple, Sound-Agreed}
use terrapi_vault.Pair.Safety.Fresh.{Committed, read_back-Triple}

module _ {C V : Type 0} ⦃change_eq : PartialEq C⦄ (adapter : Adapter C V) (identity : Identity)
    (fault : ℕ → Fault) (log : List (Entry C)) (view : V) (receipts : List OperationReceipt)
    (batch : Batch C) (e : Entry C) where
  -- Each step on an entry that both copies have applied leaves them as they are.
  pub known_entry-Triple :
      In e log
      → e.batch ≡ batch
      → Triple adapter identity
          (Agreed adapter identity log view receipts)
          (commit_entry adapter fault e)
          (Committed adapter identity batch)
  unfolding commit_entry
  known_entry-Triple m b =
      let sound = Sound-Agreed adapter identity log view receipts in
      let decided_as : Entry C → Assertion adapter identity =
        λ d p s. (d ≡ e) × Agreed adapter identity log view receipts p s in
      bind-Triple adapter identity
        (write_secondary-Triple adapter identity fault (Agreed adapter identity log view receipts)
          (Agreed adapter identity log view receipts) (stage adapter e) sound sound
          (λ p s s' h r.
            subst (Agreed adapter identity log view receipts p)
              (sym (stage_known adapter identity e e s s' h.there (found h.history) r)) h))
        (λ _.
          bind-Triple adapter identity
            (on_primary-Triple adapter identity fault (Agreed adapter identity log view receipts)
              decided_as (decide adapter e.batch.operation_id) sound
              (λ p p' s d h r.
                let (same, left) =
                  decide_known adapter identity e d p p' h.here (named h.history)
                    (applied-History adapter identity log view receipts e h.history m) r in
                let kept : Agreed adapter identity log view receipts p' s =
                  subst (λ x. Agreed adapter identity log view receipts x s) (sym left) h in
                (sound p' s kept, (same, kept))))
            (λ d.
              bind-Triple adapter identity
                (write_secondary-Triple adapter identity fault (decided_as d) (decided_as d)
                  (apply adapter d) (λ p s h. sound p s h.1) (λ p s h. sound p s h.1)
                  (λ p s s' h r. (
                    h.0,
                    subst (Agreed adapter identity log view receipts p)
                        (sym (
                          apply_known adapter identity d e s s' h.1.there
                            (ap (λ (y : Entry C). with_sequence y.sequence log) h.0
                              ∙ found h.1.history)
                            (applied-History adapter identity log view receipts e h.1.history m) r))
                        h.1,
                  )))
                (λ _.
                  bind-Triple adapter identity
                    (write_primary-Triple adapter identity fault (decided_as d)
                      (Agreed adapter identity log view receipts) (apply adapter d)
                      (λ p s h. sound p s h.1) sound
                      (λ p p' s h r.
                        subst (λ x. Agreed adapter identity log view receipts x s)
                          (sym (
                            apply_known adapter identity d e p p' h.1.here
                              (ap (λ (y : Entry C). with_sequence y.sequence log) h.0
                                ∙ found h.1.history)
                              (applied-History adapter identity log view receipts e h.1.history m)
                              r))
                          h.1))
                    (λ _.
                      read_back-Triple adapter identity fault log view receipts batch e
                        (Agreed adapter identity log view receipts)
                        (λ p s h. (log, view, receipts, h, as_stored h.history)) b))))
    where
      found : History adapter identity log view receipts → with_sequence e.sequence log ≡ some e
      found h = with_sequence-In e log (Numbered-History adapter identity log view receipts h) m

      named :
          History adapter identity log view receipts
          → with_operation e.batch.operation_id log ≡ some e
      named h = with_operation-In e log (Distinct-History adapter identity log view receipts h) m

      as_stored : History adapter identity log view receipts → In (with_state adapter applied e) log
      as_stored h =
          subst (λ s. In (with_state adapter s e) log)
            (applied-History adapter identity log view receipts e h m) m
