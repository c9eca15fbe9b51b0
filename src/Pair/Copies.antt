-- ===== src/Pair/Copies.antt =====
-- What the operations do to a copy of the history (replication/fixed-pair/src/lib.rs).
use terrapi_vault.Common.{
  ltb, leb, eqb, if◌then◌else◌, eqb_iff, PartialEq, bool_eq, option_eq, list_eq, string_eq, nat_eq,
  ok, ok_or-eq-ok, ensure-eq-ok, ok_injective, i64_max, checked_add, ℕ, suc, ◌≡◌, refl, sym, ap,
  subst, ◌∙◌, inl, inr, true, false, ◌&&◌, ◌||◌, none, some, List, ◌∷◌, arith,
}
use terrapi_vault.Common.Lists.{length}
use terrapi_vault.Pair.Model.{
  Identity, identity_eq, Role, secondary, role_beq, State, prepared, decided, applied, state_beq,
  state_beq_iff, Entry, checkpoint_eq, OperationReceipt, receipt_eq,
}
use terrapi_vault.Pair.Tables.{
  Adapter, Node, base_sequence, with_sequence, upsert, positive_keys, count_above, max_above,
  receipt_row, insert_receipt,
}
use terrapi_vault.Pair.Store.{write_entry, journal_length}
use terrapi_vault.Pair.Operations.{apply_changeset, with_state, stage, apply}
use terrapi_vault.Pair.Effects.{write_entry_lem, receipt_of}
use terrapi_vault.Pair.History.{
  some_injective, Numbered, with_sequence-Numbered, upsert-Numbered, upsert_head, count_above_lem,
}
use terrapi_vault.Pair.Outcomes.{save_applied, insert_for_lem, stage_lem}
use terrapi_vault.Pair.Outcomes.Apply.{NewlyApplied, apply_lem}
use terrapi_vault.Pair.Agreement.{
  Pending, History, Copy, receipt_row-History, insert_receipt-History,
}

sum_zero : (m k : ℕ) → checked_add 0 m ≡ some k → k ≡ m
unfolding checked_add
sum_zero m k h = ground arith

module _ {C V : Type 0} ⦃change_eq : PartialEq C⦄ (adapter : Adapter C V) (identity : Identity)
    {role : Role} {log : List (Entry C)} {view : V} {receipts : List OperationReceipt} where
  -- The length of a whole journal without a base counts its entries.
  pub journal_length-Copy :
      (n : Node C V) (m : ℕ)
      → Copy adapter identity role log view receipts n
      → Numbered log
      → journal_length adapter n ≡ ok m
      → m ≡ length log
  unfolding journal_length checked_add
  journal_length-Copy n m c h l =
      let (_, l1) = ensure-eq-ok (positive_keys n.replication_log) _ _ l in
      let counted = count_above (base_sequence n.replication_base) n.replication_log in
      let (k, q, l2) =
        ok_or-eq-ok (checked_add (base_sequence n.replication_base) counted) _ _ l1 in
      let maximum = max_above (base_sequence n.replication_base) n.replication_log in
      let (_, l3) =
        ensure-eq-ok
          (eqb k (
              if ltb maximum (base_sequence n.replication_base)
              then base_sequence n.replication_base
              else maximum)
            && leb k i64_max)
          _ _ l2 in
      let q1 : checked_add 0 (count_above 0 log) ≡ some k =
        ap (λ b. checked_add (base_sequence b) (count_above (base_sequence b) log)) (sym c.baseless)
        ∙ ap
            (λ x.
              checked_add (base_sequence n.replication_base)
                (count_above (base_sequence n.replication_base) x))
            (sym c.logs)
        ∙ q in
      sym (ok_injective k m l3) ∙ sum_zero (count_above 0 log) k q1 ∙ count_above_lem log h

  -- A row is written: the journal is what `upsert` makes of it.
  pub write_entry-Copy :
      (e : Entry C) (n n' : Node C V) (next : List (Entry C))
      → Copy adapter identity role log view receipts n
      → upsert e log ≡ some next
      → write_entry adapter e n ≡ ok n'
      → Copy adapter identity role next view receipts n'
  write_entry-Copy e n n' next c u w =
      let (stored, there, left, _, _, _) = write_entry_lem adapter e n n' w in
      let same : stored ≡ next =
        some_injective stored next (sym there ∙ ap (upsert e) c.logs ∙ u) in
      subst (λ x. Copy adapter identity role next view receipts x) (sym left)
        record {
          plays = c.plays;
          serves = c.serves;
          baseless = c.baseless;
          logs = same;
          views = c.views;
          keeps = c.keeps;
        }

  -- A row of the tail is written again.
  pub rewrite-Copy :
      (s t : State) (e : Entry C) (older : List (Entry C)) (n n' : Node C V)
      → log ≡ with_state adapter s e ∷ older
      → Copy adapter identity role log view receipts n
      → write_entry adapter (with_state adapter t e) n ≡ ok n'
      → Copy adapter identity role (with_state adapter t e ∷ older) view receipts n'
  rewrite-Copy s t e older n n' shape c w =
      write_entry-Copy (with_state adapter t e) n n' (with_state adapter t e ∷ older) c
        (ap (upsert (with_state adapter t e)) shape
          ∙ upsert_head (with_state adapter t e) (with_state adapter s e) older refl refl)
        w

  pub stage_new :
      (e : Entry C) (n n' : Node C V)
      → Copy adapter identity role log view receipts n
      → Numbered log
      → e.sequence ≡ suc (length log)
      → stage adapter e n ≡ ok n'
      → Copy adapter identity role (with_state adapter prepared e ∷ log) view receipts n'
  stage_new e n n' c h s r = elim (stage_lem adapter e n n' r) [
    | inl (old, found, _, _) ↦
        let absent : with_sequence e.sequence log ≡ none =
          with_sequence-Numbered log e.sequence h (omega (arith, s)) in
        let clash : some old ≡ none = sym found ∙ ap (with_sequence e.sequence) c.logs ∙ absent in
        cc
    | inr new ↦
        write_entry-Copy (with_state adapter prepared e) n n' (with_state adapter prepared e ∷ log)
          c (upsert-Numbered (with_state adapter prepared e) log h s) new.written
  ]

  -- Staging what is there already changes nothing.
  pub stage_known :
      (e x : Entry C) (n n' : Node C V)
      → Copy adapter identity role log view receipts n
      → with_sequence e.sequence log ≡ some x
      → stage adapter e n ≡ ok n'
      → n' ≡ n
  stage_known e x n n' c f r = elim (stage_lem adapter e n n' r) [
    | inl (_, _, _, same) ↦ same
    | inr new ↦
        let clash : some x ≡ none =
          sym f ∙ ap (with_sequence e.sequence) (sym c.logs) ∙ new.absent in
        cc
  ]

  pub apply_known :
      (d x : Entry C) (n n' : Node C V)
      → Copy adapter identity role log view receipts n
      → with_sequence d.sequence log ≡ some x
      → x.state ≡ applied
      → apply adapter d n ≡ ok n'
      → n' ≡ n
  apply_known d x n n' c f a r =
      let (local, found, _, rest) = apply_lem adapter d n n' r in
      let same : local ≡ x =
        some_injective local x (sym found ∙ ap (with_sequence d.sequence) c.logs ∙ f) in
      elim rest [
        | inl (_, left) ↦ left
        | inr (open_state, _) ↦
            let t : local.state ≡ applied = ap (λ (y : Entry C). y.state) same ∙ a in
            let u = (state_beq_iff local.state applied).1 t in cc
      ]

module _ {C V : Type 0} ⦃change_eq : PartialEq C⦄ (adapter : Adapter C V) (identity : Identity)
    {role : Role} {log : List (Entry C)} {view : V} {receipts : List OperationReceipt} where
  -- Applying the open tail.
  pub apply_tail :
      (s : State) (d e : Entry C) (older : List (Entry C)) (n n' : Node C V)
      → log ≡ with_state adapter s e ∷ older
      → Copy adapter identity role log view receipts n
      → History adapter identity older view receipts
      → Pending adapter identity older e
      → state_beq s applied ≡ false
      → d.sequence ≡ e.sequence
      → apply adapter d n ≡ ok n'
      → (next : V) × (apply_changeset adapter view e ≡ ok next)
        × ((role_beq role secondary || state_beq s decided) ≡ true)
        × Copy adapter identity role
            (with_state adapter applied e ∷ older)
            next
            (receipt_of adapter e ∷ receipts)
            n'
  unfolding apply_changeset
  apply_tail s d e older n n' shape c h p o q r =
      let (local, found, _, rest) = apply_lem adapter d n n' r in
      let here : with_sequence d.sequence log ≡ some (with_state adapter s e) =
        ap (with_sequence d.sequence) shape ∙ rw ((eqb_iff e.sequence d.sequence).1 (sym q)) refl in
      let same : local ≡ with_state adapter s e =
        some_injective local (with_state adapter s e)
          (sym found ∙ ap (with_sequence d.sequence) c.logs ∙ here) in
      elim rest [
        | inl (a, _) ↦
            let t : s ≡ applied = ap (λ (y : Entry C). y.state) (sym same) ∙ a in
            let u = (state_beq_iff s applied).1 t in cc
        | inr (_, new) ↦
            let new' : NewlyApplied adapter (with_state adapter s e) n n' =
              subst (λ x. NewlyApplied adapter x n n') same new in
            let next = new'.view in
            let middle : Node C V = record n { view = next } in
            let (written, w, i) =
              save_applied adapter (with_state adapter applied e) middle new'.saved refl
                new'.written in
            let middle_copy : Copy adapter identity role log next receipts middle = record {
              plays = c.plays;
              serves = c.serves;
              baseless = c.baseless;
              logs = c.logs;
              views = refl;
              keeps = c.keeps;
            } in
            let written_copy =
              rewrite-Copy adapter identity s applied e older middle written shape middle_copy w in
            let absent =
              receipt_row-History adapter identity e.batch.operation_id older view receipts h
                p.fresh in
            let (rows, ins, left) =
              insert_for_lem adapter (with_state adapter applied e) written new'.saved i
                (ap (receipt_row e.batch.operation_id) written_copy.keeps ∙ absent) in
            let rows_are : rows ≡ receipt_of adapter e ∷ receipts =
              ok_injective rows (receipt_of adapter e ∷ receipts) (
                sym ins
                ∙ ap (insert_receipt (receipt_of adapter e)) written_copy.keeps
                ∙ insert_receipt-History adapter identity (receipt_of adapter e) older view receipts
                    h p.numbered) in
            let roled : (role_beq role secondary || state_beq s decided) ≡ true =
              ap (λ x. role_beq x secondary || state_beq s decided) (sym c.plays) ∙ new'.allowed in
            (
              next,
              ap (λ x. apply_changeset adapter x e) (sym c.views) ∙ new'.replays,
              roled,
              subst
                  (Copy adapter identity role (with_state adapter applied e ∷ older) next
                    (receipt_of adapter e ∷ receipts))
                  (sym new'.left)
                  (subst
                    (λ x.
                      Copy adapter identity role (with_state adapter applied e ∷ older) next
                        (receipt_of adapter e ∷ receipts)
                        (record x { replication_readiness = new'.readiness }))
                    (sym left)
                    record {
                      plays = written_copy.plays;
                      serves = written_copy.serves;
                      baseless = written_copy.baseless;
                      logs = written_copy.logs;
                      views = written_copy.views;
                      keeps = rows_are;
                    }),
            )
      ]
