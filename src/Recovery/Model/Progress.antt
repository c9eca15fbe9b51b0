-- ===== src/Recovery/Model/Progress.antt =====
-- A recovery that follows the plan succeeds (replication/recovery/src/model.rs).
use terrapi_vault.Common.{
  eqb, ≡→eq, ok, neither, ◌≡◌, refl, Bool, true, false, ◌&&◌, some, List, [], ◌∷◌, arith,
}
use terrapi_vault.Recovery.Model.{
  Id256, Baseline, baseline_beq_iff, validate_baseline, Plan, plan_beq_iff, isolated, quiescent,
  Event, authorize, fence, seal, install, prepare, activate, Phase, restricted, fenced,
  source_sealed, candidate_installed, Model, new, extends, validate_plan, advance, is_authorize,
  step, write_eligible, attempt, run,
}

-- The whole replacement, in the order in which a coordinator drives it.
abbrev pub whole_recovery : Plan → List (Plan × Event)
whole_recovery p =
    (p, authorize)
    ∷ (p, fence (isolated p.baseline.old_primary))
    ∷ (p, seal p.baseline.checkpoint quiescent)
    ∷ (p, install p.baseline.checkpoint)
    ∷ (p, prepare p.candidate)
    ∷ (p, prepare p.baseline.survivor)
    ∷ (p, activate p.candidate)
    ∷ (p, activate p.baseline.survivor)
    ∷ []

module _ (b : Baseline) (p : Plan) (valid : validate_baseline b ≡ ok tt)
    (extending : extends b p ≡ true) where
  valid_plan : (m : Model) → m.baseline ≡ b → m.plan ≡ some p → validate_plan m p ≡ ok tt
  unfolding validate_plan
  valid_plan m e h = rw e (rw valid (rw extending (ground (arith, plan_beq_iff p p))))

  -- An accepted event.
  attempt-eq :
      (m : Model) (q : Plan) (e : Event) (m' : Model) → step m q e ≡ ok m' → attempt m (q, e) ≡ m'
  unfolding attempt
  attempt-eq m q e m' h = rw (h, attempt)

  step_bound :
      (m : Model) (e : Event) (m' : Model)
      → m.baseline ≡ b
      → m.plan ≡ some p
      → is_authorize e ≡ false
      → advance m p e ≡ ok m'
      → step m p e ≡ ok m'
  unfolding step
  step_bound m e m' hb hp ha a = rw (valid_plan m hb hp, ha, ≡→eq m.plan (some p) hp, step) a

  at_phase : Phase → Bool × Bool → Bool × Bool → Model
  at_phase k ready live = record {
    baseline = b;
    plan = some p;
    phase = k;
    prepared = ready;
    active = live;
  }

  begun : attempt (new b) (p, authorize) ≡ at_phase restricted neither neither
  unfolding step new at_phase validate_plan
  begun = attempt-eq (new b) p authorize _ (rw (valid, extending))

  moves :
      (k k' : Phase) (r r' l l' : Bool × Bool) (e : Event)
      → is_authorize e ≡ false
      → advance (at_phase k r l) p e ≡ ok (at_phase k' r' l')
      → attempt (at_phase k r l) (p, e) ≡ at_phase k' r' l'
  unfolding at_phase
  moves k k' r r' l l' e ha a =
      attempt-eq (at_phase k r l) p e (at_phase k' r' l')
        (step_bound (at_phase k r l) e (at_phase k' r' l') refl refl ha a)

  unequal : eqb p.baseline.survivor p.candidate ≡ false
  unfolding extends
  unequal = ground (arith, baseline_beq_iff p.baseline b)

  to_fenced :
      attempt (at_phase restricted neither neither) (p, fence (isolated p.baseline.old_primary))
      ≡ at_phase fenced neither neither
  unfolding advance at_phase
  to_fenced =
      moves _ _ _ _ _ _ (fence (isolated p.baseline.old_primary)) refl (ground (arith, unequal))

  to_sealed :
      attempt (at_phase fenced neither neither) (p, seal p.baseline.checkpoint quiescent)
      ≡ at_phase source_sealed neither neither
  unfolding advance at_phase
  to_sealed =
      moves _ _ _ _ _ _ (seal p.baseline.checkpoint quiescent) refl (ground (arith, unequal))

  to_installed :
      attempt (at_phase source_sealed neither neither) (p, install p.baseline.checkpoint)
      ≡ at_phase candidate_installed neither neither
  unfolding advance at_phase
  to_installed = moves _ _ _ _ _ _ (install p.baseline.checkpoint) refl (ground (arith, unequal))

  to_candidate :
      attempt (at_phase candidate_installed neither neither) (p, prepare p.candidate)
      ≡ at_phase candidate_installed (true, false) neither
  unfolding advance at_phase
  to_candidate = moves _ _ _ _ _ _ (prepare p.candidate) refl (ground (arith, unequal))

  to_survivor :
      attempt (at_phase candidate_installed (true, false) neither) (p, prepare p.baseline.survivor)
      ≡ at_phase candidate_installed (true, true) neither
  unfolding advance at_phase
  to_survivor = moves _ _ _ _ _ _ (prepare p.baseline.survivor) refl (ground (arith, unequal))

  to_active :
      attempt (at_phase candidate_installed (true, true) neither) (p, activate p.candidate)
      ≡ at_phase candidate_installed (true, true) (true, false)
  unfolding advance at_phase
  to_active = moves _ _ _ _ _ _ (activate p.candidate) refl (ground (arith, unequal))

  to_both :
      attempt
        (at_phase candidate_installed (true, true) (true, false))
        (p, activate p.baseline.survivor)
      ≡ at_phase candidate_installed (true, true) (true, true)
  unfolding advance at_phase
  to_both = moves _ _ _ _ _ _ (activate p.baseline.survivor) refl (ground (arith, unequal))

  finished : run (new b) (whole_recovery p) ≡ at_phase candidate_installed (true, true) (true, true)
  unfolding run
  finished =
      rw (begun, to_fenced, to_sealed, to_installed, to_candidate, to_survivor, to_active, to_both)

-- From a valid baseline, and with a plan that extends it, the recovery that follows the plan makes
-- the candidate, and with an available peer only the candidate, eligible for writes.
pub whole_recovery_eligible :
    (b : Baseline) (p : Plan) (id : Id256) (peer : Bool)
    → validate_baseline b ≡ ok tt
    → extends b p ≡ true
    → write_eligible (run (new b) (whole_recovery p)) p id peer ≡ eqb id p.candidate && peer
unfolding write_eligible
whole_recovery_eligible b p id peer valid extending =
    rw (finished b p valid extending) (unfold at_phase in ground (arith, plan_beq_iff p p))
