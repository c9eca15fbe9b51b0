-- ===== src/Recovery/Model/Evidence.antt =====
-- The events that must have come before a write (replication/recovery/src/model.rs), in order.
use terrapi_vault.Common.{
  if◌then◌else◌, Bool-cases, Option-cases, option_beq, option_beq_iff, Result, err, ok, Index2,
  first, second, at, ℕ, zero, suc, ◌≡◌, refl, subst, ◌≢◌, ◌⊎◌, inl, inr, Bool, true, false, some,
  List, [], ◌∷◌, arith,
}
use terrapi_vault.Recovery.Model.{
  Id256, Baseline, Plan, plan_beq, plan_beq_iff, plan_eq, isolated, quiescent, Event, authorize,
  fence, seal, install, prepare, activate, Phase, rank, Model, new, validate_plan, advance, step,
  write_eligible, attempt, run,
}
use terrapi_vault.Recovery.Model.Shape.{IsShaped, new-IsShaped, step-eq-ok, attempt-IsShaped}
use terrapi_vault.Recovery.Model.Order.{step-Grows}

-- The first list is a subsequence of the second.
abbrev pub InOrder : List (Plan × Event) → List (Plan × Event) → Type 0
InOrder [] ys = Unit
InOrder (x ∷ xs) [] = ⊥
InOrder (x ∷ xs) (y ∷ ys) = ((y ≡ x) × InOrder xs ys) ⊎ InOrder (x ∷ xs) ys

abbrev pub id_of : Plan → Index2 → Id256
id_of p first = p.candidate
id_of p second = p.baseline.survivor

-- What it takes to activate the member `i`, with the member `j` prepared before.
abbrev pub stages : Plan → Index2 → Index2 → List (Plan × Event)
stages p i j =
    (p, authorize)
    ∷ (p, fence (isolated p.baseline.old_primary))
    ∷ (p, seal p.baseline.checkpoint quiescent)
    ∷ (p, install p.baseline.checkpoint)
    ∷ (p, prepare (id_of p j))
    ∷ (p, activate (id_of p i))
    ∷ []

module _ (p : Plan) (i j : Index2) where
  after_plan : Bool → Bool → Phase → ℕ
  after_plan true b k = 6
  after_plan false true k = 5
  after_plan false false k = suc (rank k)

  level : Model → ℕ
  unfolding after_plan
  level m =
      if option_beq m.plan (some p) then after_plan (at m.active i) (at m.prepared j) m.phase else 0

  left : ℕ → List (Plan × Event)
  left zero = stages p i j
  left (suc zero) =
      (p, fence (isolated p.baseline.old_primary))
      ∷ (p, seal p.baseline.checkpoint quiescent)
      ∷ (p, install p.baseline.checkpoint)
      ∷ (p, prepare (id_of p j))
      ∷ (p, activate (id_of p i))
      ∷ []
  left (suc (suc zero)) =
      (p, seal p.baseline.checkpoint quiescent)
      ∷ (p, install p.baseline.checkpoint)
      ∷ (p, prepare (id_of p j))
      ∷ (p, activate (id_of p i))
      ∷ []
  left (suc (suc (suc zero))) =
      (p, install p.baseline.checkpoint) ∷ (p, prepare (id_of p j)) ∷ (p, activate (id_of p i)) ∷ []
  left (suc (suc (suc (suc zero)))) = (p, prepare (id_of p j)) ∷ (p, activate (id_of p i)) ∷ []
  left (suc (suc (suc (suc (suc zero))))) = (p, activate (id_of p i)) ∷ []
  left (suc (suc (suc (suc (suc (suc n)))))) = []

  -- One step of the trace uses up at most the first of the stages that are left.
  abbrev Uses : Model → Plan × Event → Model → Type 0
  Uses m x m' = (left (level m) ≡ left (level m')) ⊎ (left (level m) ≡ x ∷ left (level m'))

  advance-Uses :
      (m : Model) (e : Event) {m' : Model}
      → IsShaped m
      → m.plan ≡ some p
      → advance m p e ≡ ok m'
      → Uses m (p, e) m'
  unfolding level advance left
  advance-Uses m authorize h b a = inl (cc)
  advance-Uses m (fence f) h b a = ground (arith, plan_beq_iff p p)
  advance-Uses m (seal c t) h b a = ground (arith, plan_beq_iff p p)
  advance-Uses m (install c) h b a = ground (arith, plan_beq_iff p p)
  advance-Uses m (prepare d) h b a = ground (arith, plan_beq_iff p p)
  advance-Uses m (activate d) h b a = ground (arith, plan_beq_iff p p)

  -- Another plan's events leave `p` unbound.
  other-Uses :
      (m : Model) (q : Plan) (e : Event) (m' : Model)
      → m.plan ≢ some p
      → m'.plan ≢ some p
      → Uses m (q, e) m'
  unfolding level
  other-Uses m q e m' h h' =
      ground (arith, option_beq_iff m.plan (some p), option_beq_iff m'.plan (some p))

  -- Binding the plan `q` to a model that had none, or had `q`.
  authorize-Uses :
      (m : Model) (q : Plan)
      → IsShaped m
      → validate_plan m q ≡ ok tt
      → Uses m (q, authorize) (record m { plan = some q })
  unfolding level left validate_plan
  authorize-Uses m q h v = elim (Option-cases m.plan) [
    | inl n ↦ ground (arith, plan_beq_iff q p, h.unplanned_restricted n)
    | inr (x, n) ↦ ground (arith, plan_beq_iff q p, plan_beq_iff x p, plan_beq_iff x q)
  ]

  step-Uses :
      (m : Model) (q : Plan) (e : Event) {m' : Model}
      → IsShaped m
      → step m q e ≡ ok m'
      → Uses m (q, e) m'
  step-Uses m q e {m'} h s = elim (step-eq-ok m q e s).1 [
    | inl u ↦ rw u.1 (rw u.0 (authorize-Uses m q h (step-eq-ok m q e s).0))
    | inr w ↦ elim (Bool-cases (plan_beq q p)) [
      | inl y ↦ let f = (plan_beq_iff q p).0 y in rw f (advance-Uses m e h (cc) (cc))
      | inr n ↦
          other-Uses m q e m' (ground (arith, plan_beq_iff q p))
            (ground (arith, plan_beq_iff q p, (step-Grows m q e s).plan_kept q w.1))
    ]
  ]

  attempt-Uses : (m : Model) (x : Plan × Event) → IsShaped m → Uses m x (attempt m x)
  unfolding attempt
  attempt-Uses m (q, e) h = go (step m q e) refl
    where
      go : (r : Result Model) → step m q e ≡ r → Uses m (q, e) (elim r [ ok m' ↦ m' | err _ ↦ m ])
      go (ok m') s = step-Uses m q e h s
      go (err _) s = inl refl

  InOrder-skip :
      (xs : List (Plan × Event)) (y : Plan × Event) (ys : List (Plan × Event))
      → InOrder xs ys
      → InOrder xs (y ∷ ys)
  InOrder-skip [] y ys h = tt
  InOrder-skip (x ∷ xs) y ys h = inr h

  run-InOrder :
      (m : Model) (xs : List (Plan × Event))
      → IsShaped m
      → left (level (run m xs)) ≡ []
      → InOrder (left (level m)) xs
  unfolding run
  run-InOrder m [] h f = rw f tt
  run-InOrder m (x ∷ xs) h f =
      let ih = run-InOrder (attempt m x) xs (attempt-IsShaped m x h) f in
      elim (attempt-Uses m x h) [
        | inl e ↦ rw e (InOrder-skip _ x xs ih)
        | inr e ↦ rw e (inl (refl, ih))
      ]

  eligible-level :
      (m : Model) (id : Id256) (peer : Bool)
      → write_eligible m p id peer ≡ true
      → left (level m) ≡ []
  unfolding write_eligible level left
  eligible-level m id peer h = ground arith

  new-left : (b : Baseline) → left (level (new b)) ≡ stages p i j
  unfolding new level left
  new-left b = refl

-- If a model that began with no plan is eligible for writes under the plan `p`, then the events
-- that it was given contain, in this order, the authorization of `p`, the isolation of the old
-- primary, the sealing of the quiescent source at its checkpoint, the installation of that
-- checkpoint, the preparation of either member and the activation of either member, all under `p`.
pub write_eligible-InOrder :
    (b : Baseline) (p : Plan) (xs : List (Plan × Event)) (id : Id256) (peer : Bool) (i j : Index2)
    → write_eligible (run (new b) xs) p id peer ≡ true
    → InOrder (stages p i j) xs
write_eligible-InOrder b p xs id peer i j h =
    subst (λ l. InOrder l xs) (new-left p i j b)
      (run-InOrder p i j (new b) xs (new-IsShaped b)
        (eligible-level p i j (run (new b) xs) id peer h))
