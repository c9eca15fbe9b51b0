-- ===== src/Pair/Outcomes/Prepare.antt =====
-- The outcomes of preparing an operation and of taking it back (replication/fixed-pair/src/lib.rs).
use terrapi_vault.Common.{
  Option-cases, &&_iff, PartialEq, ◌==◌, eq→≡, bool_eq, option_eq, list_eq, string_eq, nat_eq,
  Result, ok, bind-eq-ok, then-eq-ok, ok_or-eq-ok, ensure-eq-ok, check-eq-ok, ok_injective, Bytes,
  checked_add, ℕ, suc, String, ◌≡◌, refl, sym, ap, subst, ◌∙◌, ◌⊎◌, inl, inr, true, false, not,
  ◌&&◌, Option, none, some, List, arith,
}
use terrapi_vault.Pair.Model.{
  identity_eq, primary, role_beq, Batch, prepared, state_beq, state_beq_iff, Entry, checkpoint_eq,
  receipt_eq, batch_beq, batch_beq_iff, entry_beq, entry_beq_iff,
}
use terrapi_vault.Pair.Tables.{
  Adapter, Node, is_empty, with_operation, first_row, without_operation, resolved,
}
use terrapi_vault.Pair.Store.{
  check_entry_size, by_operation, tail, write_entry, get_receipt, save, validate_entry,
  journal_length,
}
use terrapi_vault.Pair.Operations.{
  capture, fresh_entry, prepare_entry, prepare_as, prepare, abort_as, abort, receipt,
}
use terrapi_vault.Pair.Effects.{decode_row_lem}
use terrapi_vault.Pair.Outcomes.{save_unapplied}

sum_is : (m k : ℕ) → checked_add m 1 ≡ some k → k ≡ suc m
unfolding checked_add
sum_is m k h = ground arith

ok_pair :
    {A B : Type 0} {a c : A} {b d : B}
    → ◌≡◌ {A = Result (A × B)} (ok (a, b)) (ok (c, d))
    → (a ≡ c) × (b ≡ d)
ok_pair {A} {B} {a} {c} {b} {d} h =
    let same : ◌≡◌ {A = A × B} (a, b) (c, d) = ok_injective (a, b) (c, d) h in
    (ap (λ p. p.0) same, ap (λ p. p.1) same)

triple_first :
    {A B D : Type 0} {a c : A} {x y : B} {u v : D}
    → ◌≡◌ {A = Result (A × B × D)} (ok (a, x, u)) (ok (c, y, v))
    → a ≡ c
triple_first {A} {B} {D} {a} {c} {x} {y} {u} {v} h =
    let same : ◌≡◌ {A = A × B × D} (a, x, u) (c, y, v) = ok_injective (a, x, u) (c, y, v) h in
    ap (λ p. p.0) same

module _ {C : Type 0} ⦃change_eq : PartialEq C⦄ where
  last_is :
      (last : Option (Entry C)) (e : Entry C)
      → (elim last [ none ↦ false | some y ↦ entry_beq y e ]) ≡ true
      → last ≡ some e
  last_is none e h = cc
  last_is (some y) e h = ap some ((entry_beq_iff y e).0 h)

module _ {C V : Type 0} ⦃change_eq : PartialEq C⦄ (adapter : Adapter C V) where
  -- A new entry of the primary.
  pub record NewlyPrepared (batch : Batch C) (n n' : Node C V) (e : Entry C) : Type 0 where
    pub absent : with_operation batch.operation_id n.replication_log ≡ none
    pub requested : e.batch ≡ batch
    pub open_state : e.state ≡ prepared
    pub follows : (m : ℕ) × (journal_length adapter n ≡ ok m) × (e.sequence ≡ suc m)
    pub settled : resolved n.replication_log ≡ true
    pub based : adapter.hash_view n.view ≡ e.before
    pub written : write_entry adapter e n ≡ ok n'

  capture_lem :
      (v : V) (changes : List C) (before after : String) (changeset : Bytes)
      → capture adapter v changes ≡ ok (before, after, changeset)
      → adapter.hash_view v ≡ before
  unfolding capture
  capture_lem v changes before after changeset h =
      let (_, c1) = check-eq-ok (adapter.check_schema v) _ h in
      let (next, _, c2) = bind-eq-ok (adapter.execute v changes) _ c1 in
      let (_, c3) = check-eq-ok (adapter.foreign_key_check next) _ c2 in triple_first c3

  -- The last steps of `prepare`.
  enter_fresh :
      (batch : Batch C) (n n' : Node C V) (e : Entry C) (k : ℕ)
      → prepare_entry adapter batch n k ≡ ok (n', e)
      → (e.batch ≡ batch)
        × (e.state ≡ prepared)
        × (e.sequence ≡ k)
        × (adapter.hash_view n.view ≡ e.before)
        × (write_entry adapter e n ≡ ok n')
  unfolding prepare_entry
  enter_fresh batch n n' e k h =
      let ((before, after, changeset), c, h1) =
        bind-eq-ok (capture adapter n.view batch.changes) _ h in
      let fresh : Entry C = fresh_entry adapter batch k before after changeset in
      let (_, h2) = check-eq-ok (check_entry_size adapter fresh) _ h1 in
      let (saved, s, h3) = bind-eq-ok (save adapter fresh n) _ h2 in
      let (there, same) = ok_pair h3 in
      let w : write_entry adapter fresh n ≡ ok n' =
        save_unapplied adapter fresh n n' refl (s ∙ ap ok there) in
      let b : adapter.hash_view n.view ≡ fresh.before =
        capture_lem n.view batch.changes before after changeset c in
      subst
        (λ (x : Entry C).
          (x.batch ≡ batch)
          × (x.state ≡ prepared)
          × (x.sequence ≡ k)
          × (adapter.hash_view n.view ≡ x.before)
          × (write_entry adapter x n ≡ ok n'))
        same (refl, refl, refl, b, w)

  prepare_new :
      (batch : Batch C) (n n' : Node C V) (e : Entry C)
      → with_operation batch.operation_id n.replication_log ≡ none
      → prepare_as adapter batch n none ≡ ok (n', e)
      → NewlyPrepared batch n n' e
  unfolding prepare_as
  prepare_new batch n n' e absent g =
      let (receipt, _, g1) = bind-eq-ok (get_receipt adapter n batch.operation_id) _ g in
      let (_, g2) = ensure-eq-ok (elim receipt [ none ↦ true | some _ ↦ false ]) _ _ g1 in
      let (m, l, g3) = bind-eq-ok (journal_length adapter n) _ g2 in
      let (k, q, g4) = ok_or-eq-ok (checked_add m 1) _ _ g3 in
      let (_, g5) = check-eq-ok n.profile.publication_idle _ g4 in
      let (r, g6) = ensure-eq-ok (resolved n.replication_log) _ _ g5 in
      let (requested, open_state, numbered, based, written) = enter_fresh batch n n' e k g6 in
      record {
        absent = absent;
        requested = requested;
        open_state = open_state;
        follows = (m, l, numbered ∙ sum_is m k q);
        settled = r;
        based = based;
        written = written;
      }

  pub prepare_lem :
      (batch : Batch C) (n n' : Node C V) (e : Entry C)
      → prepare adapter batch n ≡ ok (n', e)
      → ((with_operation batch.operation_id n.replication_log ≡ some e)
          × (e.batch ≡ batch)
          × (n' ≡ n))
        ⊎ NewlyPrepared batch n n' e
  unfolding prepare prepare_as
  prepare_lem batch n n' e h =
      let (_, h1) = ensure-eq-ok (role_beq n.role primary) _ _ h in
      let (_, h2) =
        ensure-eq-ok ((batch.identity == n.identity) && not (is_empty batch.operation_id)) _ _ h1 in
      let (_, h3) = check-eq-ok n.profile.admission _ h2 in
      let (old, f, h4) = bind-eq-ok (by_operation adapter n batch.operation_id) _ h3 in
      let found : with_operation batch.operation_id n.replication_log ≡ old =
        decode_row_lem adapter (with_operation batch.operation_id n.replication_log) old f in
      elim (Option-cases old) [
        | inl a ↦ inr (
            prepare_new batch n n' e (found ∙ a)
              (subst (λ o. prepare_as adapter batch n o ≡ ok (n', e)) a h4))
        | inr (x, a) ↦
            let g : prepare_as adapter batch n (some x) ≡ ok (n', e) =
              subst (λ o. prepare_as adapter batch n o ≡ ok (n', e)) a h4 in
            let (_, _, g1) = then-eq-ok (validate_entry adapter n x) _ g in
            let (b, g2) = ensure-eq-ok (batch_beq x.batch batch) _ _ g1 in
            let (there, same) = ok_pair g2 in
            inl (
              found ∙ a ∙ ap some same,
              ap (λ (y : Entry C). y.batch) (sym same) ∙ (batch_beq_iff x.batch batch).0 b,
              sym there,
            )
      ]

  pub prepare_owned :
      (batch : Batch C) (n n' : Node C V) (e : Entry C)
      → prepare adapter batch n ≡ ok (n', e)
      → batch.identity ≡ n.identity
  unfolding prepare
  prepare_owned batch n n' e h =
      let (_, h1) = ensure-eq-ok (role_beq n.role primary) _ _ h in
      let (c, _) =
        ensure-eq-ok ((batch.identity == n.identity) && not (is_empty batch.operation_id)) _ _ h1 in
      let (same, _) =
        (&&_iff (batch.identity == n.identity) (not (is_empty batch.operation_id))).0 c in
      eq→≡ batch.identity n.identity same

  pub abort_lem :
      (id : String) (n n' : Node C V)
      → abort adapter id n ≡ ok n'
      → ((with_operation id n.replication_log ≡ none) × (n' ≡ n))
        ⊎ ((e : Entry C) × (with_operation id n.replication_log ≡ some e)
            × (e.state ≡ prepared)
            × (first_row n.replication_log ≡ some e)
            × (n' ≡ record n {
              replication_log = without_operation id n.replication_log;
              revision = suc n.revision;
            }))
  unfolding abort abort_as
  abort_lem id n n' h =
      let (_, h1) = check-eq-ok n.profile.admission _ h in
      let (_, h2) = check-eq-ok n.profile.staging_idle _ h1 in
      let (old, f, h3) = bind-eq-ok (by_operation adapter n id) _ h2 in
      let found : with_operation id n.replication_log ≡ old =
        decode_row_lem adapter (with_operation id n.replication_log) old f in
      elim (Option-cases old) [
        | inl a ↦
            let g : abort_as adapter id n none ≡ ok n' =
              subst (λ o. abort_as adapter id n o ≡ ok n') a h3 in
            inl (found ∙ a, sym (ok_injective n n' g))
        | inr (e, a) ↦
            let g : abort_as adapter id n (some e) ≡ ok n' =
              subst (λ o. abort_as adapter id n o ≡ ok n') a h3 in
            let (last, t, g1) = bind-eq-ok (tail adapter n) _ g in
            let (c, g2) =
              ensure-eq-ok
                (state_beq e.state prepared && elim last [ none ↦ false | some y ↦ entry_beq y e ])
                _ _ g1 in
            let (p, q) =
              (&&_iff (state_beq e.state prepared)
                  (elim last [ none ↦ false | some y ↦ entry_beq y e ])).0
                c in
            inr (
              e,
              found ∙ a,
              (state_beq_iff e.state prepared).0 p,
              decode_row_lem adapter (first_row n.replication_log) last t ∙ last_is last e q,
              sym (ok_injective _ n' g2),
            )
      ]
