-- ===== src/Pair/Safety/Resolve.antt =====
-- Recovery resolves what stands open on paired copies (`recover` of
-- replication/fixed-pair/src/lib.rs).
use terrapi_vault.Common.{
  eqb_iff, PartialEq, bool_eq, option_eq, list_eq, string_eq, nat_eq, ok, at, ℕ, suc, ◌≡◌, refl,
  sym, ap, subst, ◌⊎◌, inl, inr, false, some, List,
}
use terrapi_vault.Pair.Model.{
  Identity, identity_eq, Role, State, prepared, decided, applied, state_beq, Entry, checkpoint_eq,
  OperationReceipt, receipt_eq,
}
use terrapi_vault.Pair.Tables.{Adapter, Node, with_sequence}
use terrapi_vault.Pair.Operations.{with_state, stage, apply, abort}
use terrapi_vault.Pair.Run.{Fault, World, return}
use terrapi_vault.Pair.Protocol.{resolve}
use terrapi_vault.Pair.Agreement.{
  Copy, Agreed, Offered, Staged, HalfApplied, Paired, agreed, offered, staged, half_applied,
}
use terrapi_vault.Pair.Copies.{stage_known, apply_known}
use terrapi_vault.Pair.Tails.{abort_tail, abort_absent}
use terrapi_vault.Pair.Hoare.{
  Assertion, After, Triple, Sound, return-Triple, weaken-Triple, bind-Triple,
}
use terrapi_vault.Pair.Safety.Calls.{
  write_primary-Triple, write_secondary-Triple, Sound-Offered, Sound-HalfApplied, Sound-Extended,
  apply-Staged, apply-HalfApplied,
}

module _ {C V : Type 0} ⦃change_eq : PartialEq C⦄ (adapter : Adapter C V) (identity : Identity)
    (fault : ℕ → Fault) where
  pub Sound-Paired : Sound adapter identity (Paired adapter identity)
  Sound-Paired p s h = h

  -- A node that has applied an entry.
  abbrev pub Knows : Entry C → Node C V → Type 0
  Knows e n =
      (role : Role) × (log : List (Entry C)) × (view : V) × (receipts : List OperationReceipt)
      × Copy adapter identity role log view receipts n
      × (with_sequence e.sequence log ≡ some e)

  -- An entry that both have applied is passed over.
  pub resolve_known-Triple :
      (P : Assertion adapter identity) (e : Entry C) (completed : ℕ)
      → Sound adapter identity P
      → ((p s : Node C V) → P p s → Knows e p × Knows e s)
      → e.state ≡ applied
      → Triple adapter identity P (resolve adapter fault e completed) (λ _. P)
  unfolding resolve
  resolve_known-Triple P e completed sound known a =
      let late : state_beq e.state prepared ≡ false = ap (λ s. state_beq s prepared) a in
      rw late (
        bind-Triple adapter identity
          (write_secondary-Triple adapter identity fault P P (stage adapter e) sound sound
            (λ p s s' h r.
              let (_, (role, log, view, receipts, c, f)) = known p s h in
              subst (P p) (sym (stage_known adapter identity e e s s' c f r)) h))
          (λ _.
            bind-Triple adapter identity
              (write_secondary-Triple adapter identity fault P P (apply adapter e) sound sound
                (λ p s s' h r.
                  let (_, (role, log, view, receipts, c, f)) = known p s h in
                  subst (P p) (sym (apply_known adapter identity e e s s' c f a r)) h))
              (λ _.
                bind-Triple adapter identity
                  (write_primary-Triple adapter identity fault P P (apply adapter e) sound sound
                    (λ p p' s h r.
                      let ((role, log, view, receipts, c, f), _) = known p s h in
                      subst (λ x. P x s) (sym (apply_known adapter identity e e p p' c f a r)) h))
                  (λ _.
                    weaken-Triple adapter identity P (return (suc completed))
                      (λ u p s. (u ≡ suc completed) × P p s) (λ _. P)
                      (return-Triple adapter identity P (suc completed) sound) (λ t p s h. h.1)))))

module _ {C V : Type 0} ⦃change_eq : PartialEq C⦄ (adapter : Adapter C V) (identity : Identity)
    (fault : ℕ → Fault) (log : List (Entry C)) (view : V) (receipts : List OperationReceipt)
    (e : Entry C) where
  -- An entry stands open, in this state on the primary.
  abbrev pub Standing : State → Assertion adapter identity
  Standing at p s =
      ((at ≡ prepared) × Offered adapter identity log view receipts e p s)
      ⊎ (Staged adapter identity log view receipts at e p s
          ⊎ ((at ≡ decided)
              × ((next : V) × HalfApplied adapter identity log view receipts e next p s)))

  pub Sound-Standing : (at : State) → Sound adapter identity (Standing at)
  Sound-Standing at p s (inl (_, h)) = offered log view receipts e h
  Sound-Standing at p s (inr (inl h)) = staged log view receipts at e h
  Sound-Standing at p s (inr (inr (_, (next, h)))) = half_applied log view receipts e next h

  take_back_second :
      (p s s' : Node C V)
      → Standing prepared p s
      → abort adapter e.batch.operation_id s ≡ ok s'
      → Offered adapter identity log view receipts e p s'
  take_back_second p s s' (inl (_, h)) r =
      subst (Offered adapter identity log view receipts e p)
        (sym (abort_absent adapter identity e.batch.operation_id s s' h.there h.pending.fresh r)) h
  take_back_second p s s' (inr (inl h)) r = record {
    history = h.history;
    pending = h.pending;
    here = h.here;
    there = abort_tail adapter identity e s s' h.there h.pending r;
  }
  take_back_second p s s' (inr (inr (clash, _))) r = cc

  take_back_first :
      (p p' s : Node C V)
      → Offered adapter identity log view receipts e p s
      → abort adapter e.batch.operation_id p ≡ ok p'
      → Agreed adapter identity log view receipts p' s
  take_back_first p p' s h r = record {
    history = h.history;
    here = abort_tail adapter identity e p p' h.here h.pending r;
    there = h.there;
  }

  abbrev Halfway : Assertion adapter identity
  Halfway p s = (next : V) × HalfApplied adapter identity log view receipts e next p s

  stage_standing :
      (p s s' : Node C V)
      → Standing decided p s
      → stage adapter (with_state adapter decided e) s ≡ ok s'
      → Standing decided p s'
  stage_standing p s s' (inl (clash, _)) r = cc
  stage_standing p s s' (inr (inl h)) r = inr (
      inl (
        subst (Staged adapter identity log view receipts decided e p)
          (sym (
            stage_known adapter identity (with_state adapter decided e)
              (with_state adapter prepared e) s s' h.there
              (rw ((eqb_iff e.sequence e.sequence).1 refl) refl) r))
          h))
  stage_standing p s s' (inr (inr (d, (next, h)))) r = inr (
      inr (
        d,
        (
          next,
          subst (HalfApplied adapter identity log view receipts e next p)
              (sym (
                stage_known adapter identity (with_state adapter decided e)
                  (with_state adapter applied e) s s' h.there
                  (rw ((eqb_iff e.sequence e.sequence).1 refl) refl) r))
              h,
        ),
      ))

  apply_standing :
      (p s s' : Node C V)
      → Standing decided p s
      → apply adapter (with_state adapter decided e) s ≡ ok s'
      → Halfway p s'
  apply_standing p s s' (inl (clash, _)) r = cc
  apply_standing p s s' (inr (inl h)) r =
      apply-Staged adapter identity log view receipts (with_state adapter decided e) e p s s' h refl
        r
  apply_standing p s s' (inr (inr (d, (next, h)))) r = (
    next,
    subst (HalfApplied adapter identity log view receipts e next p)
        (sym (
          apply_known adapter identity (with_state adapter decided e) (with_state adapter applied e)
            s s' h.there (rw ((eqb_iff e.sequence e.sequence).1 refl) refl) refl r))
        h,
  )

  -- The open entry is taken back on both copies, or completed on both.
  pub resolve_tip-Triple :
      (at : State) (completed : ℕ)
      → Triple adapter identity
          (Standing at)
          (resolve adapter fault (with_state adapter at e) completed)
          (λ _. Paired adapter identity)
  unfolding resolve
  resolve_tip-Triple prepared completed =
      bind-Triple adapter identity
        (write_secondary-Triple adapter identity fault (Standing prepared)
          (Offered adapter identity log view receipts e) (abort adapter e.batch.operation_id)
          (Sound-Standing prepared) (Sound-Offered adapter identity log view receipts e)
          take_back_second)
        (λ _.
          bind-Triple adapter identity
            (write_primary-Triple adapter identity fault
              (Offered adapter identity log view receipts e) (Paired adapter identity)
              (abort adapter e.batch.operation_id)
              (Sound-Offered adapter identity log view receipts e)
              (Sound-Paired adapter identity fault)
              (λ p p' s h r. agreed log view receipts (take_back_first p p' s h r)))
            (λ _.
              weaken-Triple adapter identity (Paired adapter identity) (return completed)
                (λ u p s. (u ≡ completed) × Paired adapter identity p s)
                (λ _. Paired adapter identity)
                (return-Triple adapter identity (Paired adapter identity) completed
                  (Sound-Paired adapter identity fault))
                (λ t p s h. h.1)))
  resolve_tip-Triple decided completed =
      bind-Triple adapter identity
        (write_secondary-Triple adapter identity fault (Standing decided) (Standing decided)
          (stage adapter (with_state adapter decided e)) (Sound-Standing decided)
          (Sound-Standing decided) stage_standing)
        (λ _.
          bind-Triple adapter identity
            (write_secondary-Triple adapter identity fault (Standing decided) Halfway
              (apply adapter (with_state adapter decided e)) (Sound-Standing decided)
              (Sound-HalfApplied adapter identity log view receipts e) apply_standing)
            (λ _.
              bind-Triple adapter identity
                (write_primary-Triple adapter identity fault Halfway (Paired adapter identity)
                  (apply adapter (with_state adapter decided e))
                  (Sound-HalfApplied adapter identity log view receipts e)
                  (Sound-Paired adapter identity fault)
                  (λ p p' s h r. Sound-Extended adapter identity log view receipts e p' s (
                    apply-HalfApplied adapter identity log view receipts
                      (with_state adapter decided e) e h.0 p p' s h.1 refl r)))
                (λ _.
                  weaken-Triple adapter identity (Paired adapter identity) (return (suc completed))
                    (λ u p s. (u ≡ suc completed) × Paired adapter identity p s)
                    (λ _. Paired adapter identity)
                    (return-Triple adapter identity (Paired adapter identity) (suc completed)
                      (Sound-Paired adapter identity fault))
                    (λ t p s h. h.1))))
  resolve_tip-Triple applied completed = record { run_from = λ w h. never w h }
    where
      never :
          (w : World C V)
          → Standing applied w.first_copy w.second_copy
          → After adapter identity
              (λ _. Paired adapter identity)
              (resolve adapter fault (with_state adapter applied e) completed w)
      never w (inl (clash, _)) = cc
      never w (inr (inl h)) = let clash = h.open_state in cc
      never w (inr (inr (clash, _))) = cc
