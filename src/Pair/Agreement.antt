-- ===== src/Pair/Agreement.antt =====
-- What holds of both copies between the calls of the protocol: the applied entries are one history,
-- and at most one entry above them is on its way (replication/fixed-pair/src/lib.rs).
use terrapi_vault.Common.{
  leb, lt→ltb, Bool-cases, PartialEq, ◌==◌, bool_eq, option_eq, list_eq, string_eq, nat_eq, ok,
  i64_max, suc, String, ◌≡◌, refl, sym, ap, ◌∙◌, inl, inr, true, false, none, List, [], ◌∷◌, arith,
}
use terrapi_vault.Common.Lists.{length}
use terrapi_vault.Pair.Model.{
  Identity, identity_eq, Role, primary, secondary, State, prepared, decided, applied, state_beq,
  Entry, checkpoint_eq, OperationReceipt, receipt_eq,
}
use terrapi_vault.Pair.Tables.{Adapter, Node, is_empty, with_operation, receipt_row, insert_receipt}
use terrapi_vault.Pair.Store.{checksum}
use terrapi_vault.Pair.Operations.{apply_changeset, with_state}
use terrapi_vault.Pair.Effects.{receipt_of}
use terrapi_vault.Pair.History.{Numbered, Distinct, In}

module _ {C V : Type 0} ⦃change_eq : PartialEq C⦄ (adapter : Adapter C V)
    (identity : Identity) where
  -- An entry that may come next above the applied ones.
  pub record Pending (log : List (Entry C)) (e : Entry C) : Type 0 where
    pub owned : e.batch.identity ≡ identity
    pub named : is_empty e.batch.operation_id ≡ false
    pub numbered : e.sequence ≡ suc (length log)
    pub bounded : leb e.sequence i64_max ≡ true
    pub sealed : (e.digest == checksum adapter e) ≡ true
    pub fresh : with_operation e.batch.operation_id log ≡ none

  -- The applied entries newest first, the application data that they lead to from the empty state,
  -- and their receipts.
  abbrev pub History : List (Entry C) → V → List OperationReceipt → Type 0
  History [] view receipts = (view ≡ adapter.empty) × (receipts ≡ [])
  History (e ∷ log) view receipts =
      (earlier : V) × (older : List OperationReceipt) × Pending log e
      × (e.state ≡ applied)
      × (apply_changeset adapter earlier e ≡ ok view)
      × (receipts ≡ receipt_of adapter e ∷ older)
      × History log earlier older

  -- A node with this journal, application data and receipts, which has no other base.
  pub record Copy (role : Role) (log : List (Entry C)) (view : V) (receipts : List OperationReceipt)
      (n : Node C V) : Type 0 where
    pub plays : n.role ≡ role
    pub serves : n.identity ≡ identity
    pub baseless : n.replication_base ≡ none
    pub logs : n.replication_log ≡ log
    pub views : n.view ≡ view
    pub keeps : n.operation_receipts ≡ receipts

  module _ (log : List (Entry C)) (view : V) (receipts : List OperationReceipt) where
    -- Both copies have the same applied entries and nothing else.
    pub record Agreed (p s : Node C V) : Type 0 where
      pub history : History log view receipts
      pub here : Copy primary log view receipts p
      pub there : Copy secondary log view receipts s

    -- The primary has prepared an entry, which the secondary may have staged, and which the primary
    -- may then have decided; `at` is its state there.
    pub record Offered (e : Entry C) (p s : Node C V) : Type 0 where
      pub history : History log view receipts
      pub pending : Pending log e
      pub here : Copy primary (with_state adapter prepared e ∷ log) view receipts p
      pub there : Copy secondary log view receipts s

    pub record Staged (at : State) (e : Entry C) (p s : Node C V) : Type 0 where
      pub history : History log view receipts
      pub pending : Pending log e
      pub open_state : state_beq at applied ≡ false
      pub here : Copy primary (with_state adapter at e ∷ log) view receipts p
      pub there : Copy secondary (with_state adapter prepared e ∷ log) view receipts s

    -- The secondary has applied the decided entry and the primary not yet.
    pub record HalfApplied (e : Entry C) (next : V) (p s : Node C V) : Type 0 where
      pub history : History log view receipts
      pub pending : Pending log e
      pub replays : apply_changeset adapter view e ≡ ok next
      pub here : Copy primary (with_state adapter decided e ∷ log) view receipts p
      pub there :
          Copy secondary
            (with_state adapter applied e ∷ log)
            next
            (receipt_of adapter e ∷ receipts)
            s

  -- The states in which the protocol leaves the copies, whenever it ends.
  pub data Paired (p s : Node C V) : Type 0 where
    agreed :
        (log : List (Entry C)) (view : V) (receipts : List OperationReceipt)
        → Agreed log view receipts p s
        → Paired p s
    offered :
        (log : List (Entry C)) (view : V) (receipts : List OperationReceipt) (e : Entry C)
        → Offered log view receipts e p s
        → Paired p s
    staged :
        (log : List (Entry C)) (view : V) (receipts : List OperationReceipt) (at : State)
        (e : Entry C)
        → Staged log view receipts at e p s
        → Paired p s
    half_applied :
        (log : List (Entry C)) (view : V) (receipts : List OperationReceipt) (e : Entry C)
        (next : V)
        → HalfApplied log view receipts e next p s
        → Paired p s

  pub Numbered-History :
      (log : List (Entry C)) (view : V) (receipts : List OperationReceipt)
      → History log view receipts
      → Numbered log
  Numbered-History [] view receipts h = tt
  Numbered-History (e ∷ log) view receipts (earlier, older, p, _, _, _, h) =
      (p.numbered, Numbered-History log earlier older h)

  pub Distinct-History :
      (log : List (Entry C)) (view : V) (receipts : List OperationReceipt)
      → History log view receipts
      → Distinct log
  Distinct-History [] view receipts h = tt
  Distinct-History (e ∷ log) view receipts (earlier, older, p, _, _, _, h) =
      (p.fresh, Distinct-History log earlier older h)

  pub applied-History :
      (log : List (Entry C)) (view : V) (receipts : List OperationReceipt) (e : Entry C)
      → History log view receipts
      → In e log
      → e.state ≡ applied
  applied-History [] view receipts e h m = absurd m
  applied-History (x ∷ log) view receipts e (earlier, older, _, a, _, _, h) (inl same) =
      ap (λ (y : Entry C). y.state) same ∙ a
  applied-History (x ∷ log) view receipts e (earlier, older, _, a, _, _, h) (inr m) =
      applied-History log earlier older e h m

  -- An operation that has no entry has no receipt.
  pub receipt_row-History :
      (id : String) (log : List (Entry C)) (view : V) (receipts : List OperationReceipt)
      → History log view receipts
      → with_operation id log ≡ none
      → receipt_row id receipts ≡ none
  receipt_row-History id [] view receipts (_, none_yet) f = ap (receipt_row id) none_yet
  receipt_row-History id (e ∷ log) view receipts (earlier, older, _, _, _, same, h) f =
      elim (Bool-cases (e.batch.operation_id == id)) [
        | inl t ↦ ground (arith, f, t)
        | inr t ↦
            ap (receipt_row id) same
            ∙ rw t (receipt_row-History id log earlier older h (ground (arith, f, t)))
      ]

  -- The next receipt is entered as the newest.
  pub insert_receipt-History :
      (r : OperationReceipt) (log : List (Entry C)) (view : V) (receipts : List OperationReceipt)
      → History log view receipts
      → r.result.sequence ≡ suc (length log)
      → insert_receipt r receipts ≡ ok (r ∷ receipts)
  insert_receipt-History r [] view receipts (_, none_yet) s =
      ap (insert_receipt r) none_yet ∙ ap (λ rows. ok (r ∷ rows)) (sym none_yet)
  insert_receipt-History r (e ∷ log) view receipts (earlier, older, p, _, _, same, h) s =
      let newer = lt→ltb e.sequence r.result.sequence (omega (arith, s, p.numbered)) in
      ap (insert_receipt r) same ∙ (rw newer refl) ∙ ap (λ rows. ok (r ∷ rows)) (sym same)
