-- ===== src/Recovery/Model/Order.antt =====
-- What accepted events never undo (replication/recovery/src/model.rs).
use terrapi_vault.Common.{ok, Index2, at, ◌≤◌, ◌≡◌, refl, ap, inl, inr, true, some, arith}
use terrapi_vault.Recovery.Model.{
  Plan, plan_beq_iff, Event, authorize, rank, Model, validate_plan, advance, step,
}
use terrapi_vault.Recovery.Model.Shape.{step-eq-ok}

-- Nothing that `m` has is gone in `n`.
pub record Grows (m n : Model) : Type 0 where
  pub same_baseline : n.baseline ≡ m.baseline
  pub plan_kept : (p : Plan) → m.plan ≡ some p → n.plan ≡ some p
  pub phase_up : rank m.phase ≤ rank n.phase
  pub prepared_kept : (i : Index2) → at m.prepared i ≡ true → at n.prepared i ≡ true
  pub active_kept : (i : Index2) → at m.active i ≡ true → at n.active i ≡ true

advance-Grows : (m : Model) (p : Plan) (e : Event) {m' : Model} → advance m p e ≡ ok m' → Grows m m'
unfolding advance
advance-Grows m p authorize a = ground arith
advance-Grows m p e a = record {
  same_baseline = ground arith;
  plan_kept = λ q h. ground arith;
  phase_up = ground arith;
  prepared_kept = λ i h. ground arith;
  active_kept = λ i h. ground arith;
}

-- A plan that is bound is the only one that `validate_plan` accepts.
pub validate_plan-bound :
    (m : Model) (p q : Plan) → validate_plan m p ≡ ok tt → m.plan ≡ some q → p ≡ q
unfolding validate_plan
validate_plan-bound m p q v h = ground (arith, plan_beq_iff q p)

-- An accepted event changes neither the baseline nor a bound plan, never lowers the phase and
-- never withdraws a preparation or an activation.
pub step-Grows : (m : Model) (p : Plan) (e : Event) {m' : Model} → step m p e ≡ ok m' → Grows m m'
step-Grows m p e s = elim (step-eq-ok m p e s).1 [
  | inl u ↦ rw u.1 (record {
    same_baseline = refl;
    plan_kept = λ q h. ap some (validate_plan-bound m p q (step-eq-ok m p e s).0 h);
    phase_up = omega arith;
    prepared_kept = λ i h. h;
    active_kept = λ i h. h;
  })
  | inr w ↦ advance-Grows m p e w.2
]
