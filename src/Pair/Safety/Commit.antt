-- ===== src/Pair/Safety/Commit.antt =====
-- The commit after recovery, on copies that agree (`commit` of replication/fixed-pair/src/lib.rs).
use terrapi_vault.Common.{
  PartialEq, bool_eq, option_eq, list_eq, string_eq, nat_eq, ok, ℕ, ◌≡◌, sym, subst, ◌⊎◌, inl, inr,
  List,
}
use terrapi_vault.Pair.Model.{
  Identity, identity_eq, Batch, prepared, Entry, checkpoint_eq, OperationReceipt, receipt_eq,
}
use terrapi_vault.Pair.Tables.{Adapter, Node}
use terrapi_vault.Pair.Operations.{prepare}
use terrapi_vault.Pair.Run.{Fault, World, on_primary}
use terrapi_vault.Pair.Protocol.{commit_entry, commit_new}
use terrapi_vault.Pair.History.{In}
use terrapi_vault.Pair.Agreement.{Agreed, Offered, agreed, offered, Numbered-History}
use terrapi_vault.Pair.Tails.{prepare-Copy}
use terrapi_vault.Pair.Hoare.{Assertion, After, Triple, Sound, bind-Triple, on_primary-Triple}
use terrapi_vault.Pair.Safety.Calls.{Sound-Agreed}
use terrapi_vault.Pair.Safety.Fresh.{Committed, new_entry-Triple}
use terrapi_vault.Pair.Safety.Known.{known_entry-Triple}

module _ {C V : Type 0} ⦃change_eq : PartialEq C⦄ (adapter : Adapter C V) (identity : Identity)
    (fault : ℕ → Fault) (batch : Batch C) where
  -- What `prepare` gives on copies that agree.
  abbrev Prepared :
      List (Entry C) → V → List OperationReceipt → Entry C → Assertion adapter identity
  Prepared log view receipts e p s =
      (e.batch ≡ batch)
      × ((In e log × Agreed adapter identity log view receipts p s)
          ⊎ ((e.state ≡ prepared) × Offered adapter identity log view receipts e p s))

  Sound-Prepared :
      (log : List (Entry C)) (view : V) (receipts : List OperationReceipt) (e : Entry C)
      → Sound adapter identity (Prepared log view receipts e)
  Sound-Prepared log view receipts e p s (_, inl (_, h)) = agreed log view receipts h
  Sound-Prepared log view receipts e p s (_, inr (_, h)) = offered log view receipts e h

  prepare-Triple :
      (log : List (Entry C)) (view : V) (receipts : List OperationReceipt)
      → Triple adapter identity
          (Agreed adapter identity log view receipts)
          (on_primary fault (prepare adapter batch))
          (Prepared log view receipts)
  prepare-Triple log view receipts =
      on_primary-Triple adapter identity fault (Agreed adapter identity log view receipts)
        (Prepared log view receipts) (prepare adapter batch)
        (Sound-Agreed adapter identity log view receipts)
        (λ p p' s e h r.
          let q = prepared_as p p' s e h r in (Sound-Prepared log view receipts e p' s q, q))
    where
      prepared_as :
          (p p' s : Node C V) (e : Entry C)
          → Agreed adapter identity log view receipts p s
          → prepare adapter batch p ≡ ok (p', e)
          → Prepared log view receipts e p' s
      prepared_as p p' s e h r =
          let numbered = Numbered-History adapter identity log view receipts h.history in
          let (b, cases) = prepare-Copy adapter identity batch e p p' h.here numbered r in
          elim cases [
            | inl (m, same) ↦ (
              b,
              inl (m, subst (λ x. Agreed adapter identity log view receipts x s) (sym same) h),
            )
            | inr (pending, open_state, c) ↦ (
              b,
              inr (
                open_state,
                record { history = h.history; pending = pending; here = c; there = h.there },
              ),
            )
          ]

  pub commit_new-Triple :
      (log : List (Entry C)) (view : V) (receipts : List OperationReceipt)
      → Triple adapter identity
          (Agreed adapter identity log view receipts)
          (commit_new adapter fault batch)
          (Committed adapter identity batch)
  unfolding commit_new
  commit_new-Triple log view receipts =
      bind-Triple adapter identity (prepare-Triple log view receipts)
        (λ e. record { run_from = λ w h. go e w h })
    where
      go :
          (e : Entry C) (w : World C V)
          → Prepared log view receipts e w.first_copy w.second_copy
          → After adapter identity
              (Committed adapter identity batch)
              (commit_entry adapter fault e w)
      go e w (b, inl (m, h)) =
          (known_entry-Triple adapter identity fault log view receipts batch e m b).run_from w h
      go e w (b, inr (o, h)) =
          (new_entry-Triple adapter identity fault log view receipts batch e b o).run_from w h
