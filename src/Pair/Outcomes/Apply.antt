-- ===== src/Pair/Outcomes/Apply.antt =====
-- The outcomes of deciding and applying an entry (replication/fixed-pair/src/lib.rs).
use terrapi_vault.Common.{
  if◌then◌else◌, if-split, PartialEq, ◌==◌, eq→≡, bool_eq, option_eq, list_eq, string_eq, nat_eq,
  ok, bind-eq-ok, ok_or-eq-ok, ensure-eq-ok, check-eq-ok, ok_injective, String, ◌≡◌, refl, sym, ap,
  subst, ◌∙◌, ◌⊎◌, inl, inr, true, false, not, ◌||◌, Option, some,
}
use terrapi_vault.Pair.Model.{
  identity_eq, primary, secondary, role_beq, prepared, decided, applied, state_beq, state_beq_iff,
  Entry, Checkpoint, checkpoint_eq, receipt_eq,
}
use terrapi_vault.Pair.Tables.{Adapter, Node, with_operation, with_sequence}
use terrapi_vault.Pair.Store.{
  validate, by_operation, by_sequence, write_entry, save, validate_entry,
}
use terrapi_vault.Pair.Checkpoints.{current, is_verified, advance}
use terrapi_vault.Pair.Operations.{
  apply_changeset, with_state, decide_entry, decide, apply_local, apply,
}
use terrapi_vault.Pair.Effects.{decode_row_lem}
use terrapi_vault.Pair.Outcomes.{save_unapplied}

module _ {C V : Type 0} ⦃change_eq : PartialEq C⦄ (adapter : Adapter C V) where
  -- An entry that is applied now.
  pub record NewlyApplied (local : Entry C) (n n' : Node C V) : Type 0 where
    pub allowed : (role_beq n.role secondary || state_beq local.state decided) ≡ true
    pub view : V
    pub replays : apply_changeset adapter n.view local ≡ ok view
    pub saved : Node C V
    pub written :
        save adapter (with_state adapter applied local) (record n { view = view }) ≡ ok saved
    pub readiness : Option Checkpoint
    pub left : n' ≡ record saved { replication_readiness = readiness }

  pub apply_local_lem :
      (n n' : Node C V) (local : Entry C)
      → apply_local adapter n local ≡ ok n'
      → NewlyApplied local n n'
  unfolding apply_local advance
  apply_local_lem n n' local h =
      let (a, h1) =
        ensure-eq-ok (role_beq n.role secondary || state_beq local.state decided) _ _ h in
      let (_, h2) = ensure-eq-ok (adapter.hash_view n.view == local.before) _ _ h1 in
      let (verified, _, h3) =
        bind-eq-ok
          (if role_beq n.role secondary
            then is_verified adapter n n.replication_readiness
            else ok false)
          _ h2 in
      let (v, r, h4) = bind-eq-ok (apply_changeset adapter n.view local) _ h3 in
      let (saved, s, h5) =
        bind-eq-ok (save adapter (with_state adapter applied local) (record n { view = v })) _ h4 in
      elim (if-split verified (advance adapter saved) (ok saved) h5) [
        | inl (_, g) ↦
            let (c, _, g1) = bind-eq-ok (current adapter saved false) _ g in
            record {
              allowed = a;
              view = v;
              replays = r;
              saved = saved;
              written = s;
              readiness = some c;
              left = sym (ok_injective _ n' g1);
            }
        | inr (_, g) ↦ record {
          allowed = a;
          view = v;
          replays = r;
          saved = saved;
          written = s;
          readiness = saved.replication_readiness;
          left = sym (ok_injective saved n' g);
        }
      ]

  pub apply_lem :
      (d : Entry C) (n n' : Node C V)
      → apply adapter d n ≡ ok n'
      → (local : Entry C) × (with_sequence d.sequence n.replication_log ≡ some local)
        × (local.digest ≡ d.digest)
        × (((local.state ≡ applied) × (n' ≡ n))
            ⊎ ((state_beq local.state applied ≡ false) × NewlyApplied local n n'))
  unfolding apply
  apply_lem d n n' h =
      let (_, h1) = check-eq-ok (validate adapter d n.identity) _ h in
      let (_, h2) = ensure-eq-ok (not (state_beq d.state prepared)) _ _ h1 in
      let (_, h3) = check-eq-ok n.profile.admission _ h2 in
      let (_, h4) = check-eq-ok n.profile.staging_idle _ h3 in
      let (found, f, h5) = bind-eq-ok (by_sequence adapter n d.sequence) _ h4 in
      let (local, g, h6) = ok_or-eq-ok found _ _ h5 in
      let (same, h7) = ensure-eq-ok (local.digest == d.digest) _ _ h6 in
      (
        local,
        decode_row_lem adapter (with_sequence d.sequence n.replication_log) found f ∙ g,
        eq→≡ local.digest d.digest same,
        elim (if-split (state_beq local.state applied) _ (apply_local adapter n local) h7) [
          | inl (t, k) ↦
              let (_, _, k1) = bind-eq-ok (validate_entry adapter n local) _ k in
              inl ((state_beq_iff local.state applied).0 t, sym (ok_injective n n' k1))
          | inr (t, k) ↦ inr (t, apply_local_lem n n' local k)
        ],
      )

  -- Deciding returns the entry of the operation, with the decision when it was open.
  pub decide_lem :
      (id : String) (n n' : Node C V) (d : Entry C)
      → decide adapter id n ≡ ok (n', d)
      → (e : Entry C) × (with_operation id n.replication_log ≡ some e)
        × (((e.state ≡ prepared)
              × (d ≡ with_state adapter decided e)
              × (write_entry adapter d n ≡ ok n'))
            ⊎ ((state_beq e.state prepared ≡ false) × (d ≡ e) × (n' ≡ n)))
  unfolding decide decide_entry
  decide_lem id n n' d h =
      let (_, h1) = ensure-eq-ok (role_beq n.role primary) _ _ h in
      let (_, h2) = check-eq-ok n.profile.admission _ h1 in
      let (found, f, h3) = bind-eq-ok (by_operation adapter n id) _ h2 in
      let (e, g, h4) = ok_or-eq-ok found _ _ h3 in
      (
        e,
        decode_row_lem adapter (with_operation id n.replication_log) found f ∙ g,
        elim (if-split (state_beq e.state prepared) _ (ok (n, e)) h4) [
          | inl (t, k) ↦
              let (saved, s, k1) = bind-eq-ok (save adapter (with_state adapter decided e) n) _ k in
              let pair : (saved, with_state adapter decided e) ≡ (n', d) = ok_injective _ _ k1 in
              let second_part = sym (ap (λ p. p.1) pair) in
              let w = save_unapplied adapter (with_state adapter decided e) n saved refl s in
              inl (
                (state_beq_iff e.state prepared).0 t,
                second_part,
                subst (λ x. write_entry adapter x n ≡ ok n') (sym second_part)
                    (w ∙ ap ok (ap (λ p. p.0) pair)),
              )
          | inr (t, k) ↦
              let pair : (n, e) ≡ (n', d) = ok_injective _ _ k in
              inr (t, sym (ap (λ p. p.1) pair), sym (ap (λ p. p.0) pair))
        ],
      )
