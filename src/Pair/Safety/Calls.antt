-- ===== src/Pair/Safety/Calls.antt =====
-- Each call of the protocol on paired copies (replication/fixed-pair/src/lib.rs).
use terrapi_vault.Common.{
  PartialEq, bool_eq, option_eq, list_eq, string_eq, nat_eq, Result, err, ok, ok_injective, at, ℕ,
  ◌≡◌, refl, sym, ap, subst, ◌∙◌, List, ◌∷◌,
}
use terrapi_vault.Pair.Model.{
  Identity, identity_eq, primary, State, prepared, decided, applied, Entry, checkpoint_eq,
  OperationReceipt, receipt_eq,
}
use terrapi_vault.Pair.Tables.{Adapter, Node}
use terrapi_vault.Pair.Store.{checksum}
use terrapi_vault.Pair.Operations.{apply_changeset, with_state, stage, decide, apply}
use terrapi_vault.Pair.Run.{Fault, on_primary, on_secondary, reading, writing}
use terrapi_vault.Pair.Effects.{receipt_of}
use terrapi_vault.Pair.Agreement.{
  Pending, Copy, Agreed, Offered, Staged, HalfApplied, Paired, agreed, offered, staged,
  half_applied, Numbered-History,
}
use terrapi_vault.Pair.Copies.{stage_new, apply_tail}
use terrapi_vault.Pair.Tails.{decide_tail}
use terrapi_vault.Pair.Hoare.{Assertion, Triple, Sound, on_primary-Triple, on_secondary-Triple}

pub reading-eq-ok :
    {C V T : Type 0} (f : Node C V → Result T) (n n' : Node C V) (t : T)
    → reading f n ≡ ok (n', t)
    → (n' ≡ n) × (f n ≡ ok t)
reading-eq-ok {C} {V} {T} f n n' t h = read_cases (f n) refl h
  where
    read_cases :
        (r : Result T)
        → f n ≡ r
        → ◌≡◌ {A = Result (Node C V × T)} (elim r [ err m ↦ err m | ok u ↦ ok (n, u) ]) (ok (n', t))
        → (n' ≡ n) × (f n ≡ ok t)
    read_cases (err m) e k = cc
    read_cases (ok u) e k =
        let same = ok_injective (n, u) (n', t) k in
        (sym (ap (λ p. p.0) same), e ∙ ap (λ p. ok p.1) same)

pub writing-eq-ok :
    {C V : Type 0} (f : Node C V → Result (Node C V)) (n n' : Node C V) (t : Unit {0})
    → writing f n ≡ ok (n', t)
    → f n ≡ ok n'
writing-eq-ok {C} {V} f n n' t h = write_cases (f n) refl h
  where
    write_cases :
        (r : Result (Node C V))
        → f n ≡ r
        → ◌≡◌ {A = Result (Node C V × Unit {0})}
            (elim r [ err m ↦ err m | ok next ↦ ok (next, tt) ])
            (ok (n', t))
        → f n ≡ ok n'
    write_cases (err m) e k = cc
    write_cases (ok next) e k = e ∙ ap (λ p. ok p.0) (ok_injective (next, tt) (n', t) k)

module _ {C V : Type 0} ⦃change_eq : PartialEq C⦄ (adapter : Adapter C V) (identity : Identity)
    (fault : ℕ → Fault) {T : Type 0} (P : Assertion adapter identity)
    (f : Node C V → Result T) where
  -- A call that only reads keeps what held.
  pub read_primary-Triple :
      Sound adapter identity P
      → Triple adapter identity P (on_primary fault (reading f)) (λ t p s. (f p ≡ ok t) × P p s)
  read_primary-Triple sound =
      on_primary-Triple adapter identity fault P (λ t p s. (f p ≡ ok t) × P p s) (reading f) sound
        (λ p p' s t h e.
          let (same, read) = reading-eq-ok f p p' t e in
          (
            subst (λ x. Paired adapter identity x s) (sym same) (sound p s h),
            subst (λ x. (f x ≡ ok t) × P x s) (sym same) (read, h),
          ))

  pub read_secondary-Triple :
      Sound adapter identity P
      → Triple adapter identity P (on_secondary fault (reading f)) (λ t p s. (f s ≡ ok t) × P p s)
  read_secondary-Triple sound =
      on_secondary-Triple adapter identity fault P (λ t p s. (f s ≡ ok t) × P p s) (reading f) sound
        (λ p s s' t h e.
          let (same, read) = reading-eq-ok f s s' t e in
          (
            subst (λ x. Paired adapter identity p x) (sym same) (sound p s h),
            subst (λ x. (f x ≡ ok t) × P p x) (sym same) (read, h),
          ))

module _ {C V : Type 0} ⦃change_eq : PartialEq C⦄ (adapter : Adapter C V) (identity : Identity)
    (fault : ℕ → Fault) (P : Assertion adapter identity) (Q : Assertion adapter identity)
    (f : Node C V → Result (Node C V)) where
  -- A call that writes.
  pub write_primary-Triple :
      Sound adapter identity P
      → Sound adapter identity Q
      → ((p p' s : Node C V) → P p s → f p ≡ ok p' → Q p' s)
      → Triple adapter identity P (on_primary fault (writing f)) (λ _. Q)
  write_primary-Triple sound sound' effect =
      on_primary-Triple adapter identity fault P (λ _. Q) (writing f) sound
        (λ p p' s t h e. let q = effect p p' s h (writing-eq-ok f p p' t e) in (sound' p' s q, q))

  pub write_secondary-Triple :
      Sound adapter identity P
      → Sound adapter identity Q
      → ((p s s' : Node C V) → P p s → f s ≡ ok s' → Q p s')
      → Triple adapter identity P (on_secondary fault (writing f)) (λ _. Q)
  write_secondary-Triple sound sound' effect =
      on_secondary-Triple adapter identity fault P (λ _. Q) (writing f) sound
        (λ p s s' t h e. let q = effect p s s' h (writing-eq-ok f s s' t e) in (sound' p s' q, q))

module _ {C V : Type 0} ⦃change_eq : PartialEq C⦄ (adapter : Adapter C V) (identity : Identity)
    (log : List (Entry C)) (view : V) (receipts : List OperationReceipt) where
  pub Sound-Agreed : Sound adapter identity (Agreed adapter identity log view receipts)
  Sound-Agreed p s h = agreed log view receipts h

  pub Sound-Offered :
      (e : Entry C) → Sound adapter identity (Offered adapter identity log view receipts e)
  Sound-Offered e p s h = offered log view receipts e h

  pub Sound-Staged :
      (at : State) (e : Entry C)
      → Sound adapter identity (Staged adapter identity log view receipts at e)
  Sound-Staged at e p s h = staged log view receipts at e h

  pub Sound-HalfApplied :
      (e : Entry C)
      → Sound adapter identity
          (λ p s. (next : V) × HalfApplied adapter identity log view receipts e next p s)
  Sound-HalfApplied e p s (next, h) = half_applied log view receipts e next h

  -- The history that a completed entry extends.
  abbrev pub Extended : Entry C → Assertion adapter identity
  Extended e p s =
      (next : V) × Agreed adapter identity (with_state adapter applied e ∷ log) next
        (receipt_of adapter e ∷ receipts) p s

  pub Sound-Extended : (e : Entry C) → Sound adapter identity (Extended e)
  Sound-Extended e p s (next, h) =
      agreed (with_state adapter applied e ∷ log) next (receipt_of adapter e ∷ receipts) h

  pub Pending-with_state :
      (at : State) (e : Entry C)
      → Pending adapter identity log e
      → Pending adapter identity log (with_state adapter at e)
  unfolding checksum
  Pending-with_state at e h = record {
    owned = h.owned;
    named = h.named;
    numbered = h.numbered;
    bounded = h.bounded;
    sealed = h.sealed;
    fresh = h.fresh;
  }

  -- Staging, deciding and applying the new entry.
  pub stage-Offered :
      (at : State) (e : Entry C) (p s s' : Node C V)
      → Offered adapter identity log view receipts e p s
      → stage adapter (with_state adapter at e) s ≡ ok s'
      → Staged adapter identity log view receipts prepared e p s'
  stage-Offered at e p s s' h r = record {
    history = h.history;
    pending = h.pending;
    open_state = refl;
    here = h.here;
    there =
        stage_new adapter identity (with_state adapter at e) s s' h.there
          (Numbered-History adapter identity log view receipts h.history) h.pending.numbered r;
  }

  pub decide-Staged :
      (at : State) (e d : Entry C) (p p' s : Node C V)
      → Staged adapter identity log view receipts at e p s
      → decide adapter e.batch.operation_id p ≡ ok (p', d)
      → (d ≡ with_state adapter decided e)
        × Staged adapter identity log view receipts decided e p' s
  decide-Staged at e d p p' s h r =
      let (is, c) = decide_tail adapter identity at e d p p' h.here h.open_state r in
      (
        is,
        record {
          history = h.history;
          pending = h.pending;
          open_state = refl;
          here = c;
          there = h.there;
        },
      )

  pub apply-Staged :
      (d e : Entry C) (p s s' : Node C V)
      → Staged adapter identity log view receipts decided e p s
      → d.sequence ≡ e.sequence
      → apply adapter d s ≡ ok s'
      → (next : V) × HalfApplied adapter identity log view receipts e next p s'
  apply-Staged d e p s s' h q r =
      let (next, replays, _, c) =
        apply_tail adapter identity prepared d e log s s' refl h.there h.history h.pending refl q
          r in
      (
        next,
        record {
          history = h.history;
          pending = h.pending;
          replays = replays;
          here = h.here;
          there = c;
        },
      )

  pub apply-HalfApplied :
      (d e : Entry C) (next : V) (p p' s : Node C V)
      → HalfApplied adapter identity log view receipts e next p s
      → d.sequence ≡ e.sequence
      → apply adapter d p ≡ ok p'
      → Extended e p' s
  unfolding apply_changeset
  apply-HalfApplied d e next p p' s h q r =
      let (again, replays, _, c) =
        apply_tail adapter identity decided d e log p p' refl h.here h.history h.pending refl q r in
      let same : again ≡ next = ok_injective again next (sym replays ∙ h.replays) in
      (
        next,
        record {
          history = (
            view,
            receipts,
            Pending-with_state applied e h.pending,
            refl,
            h.replays,
            refl,
            h.history,
          );
          here =
              subst
                (λ v.
                  Copy adapter identity primary (with_state adapter applied e ∷ log) v
                    (receipt_of adapter e ∷ receipts) p')
                same c;
          there = h.there;
        },
      )
