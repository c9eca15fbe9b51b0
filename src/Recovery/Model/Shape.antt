-- ===== src/Recovery/Model/Shape.antt =====
-- The invariant of `Model` (replication/recovery/src/model.rs): which flags and phases go
-- together, after any events.
use terrapi_vault.Common.{
  eq→≡, option_beq, option_eq, Result, err, ok, ensure-eq-ok, check-eq-ok, both, ◌≡◌, refl, ◌≢◌,
  ◌⊎◌, inl, inr, true, none, some, List, [], ◌∷◌, arith,
}
use terrapi_vault.Recovery.Model.{
  Baseline, Plan, plan_eq, Event, authorize, restricted, candidate_installed, Model, new,
  validate_plan, advance, step, attempt, run,
}

pub record IsShaped (m : Model) : Type 0 where
  pub unplanned_restricted : m.plan ≡ none → m.phase ≡ restricted
  pub prepared_installed :
      (m.prepared.0 ≡ true) ⊎ (m.prepared.1 ≡ true) → m.phase ≡ candidate_installed
  pub active_prepared : (m.active.0 ≡ true) ⊎ (m.active.1 ≡ true) → both m.prepared ≡ true

pub new-IsShaped : (b : Baseline) → IsShaped (new b)
unfolding new
new-IsShaped b = ground arith

advance-IsShaped :
    (m : Model) (p : Plan) (e : Event) {m' : Model}
    → IsShaped m
    → m.plan ≢ none
    → advance m p e ≡ ok m'
    → IsShaped m'
unfolding advance
advance-IsShaped m p authorize h b a = ground arith
advance-IsShaped m p e h b a = ground arith

-- What an accepted event shows: the plan was the bound one, or the event binds it.
pub step-eq-ok :
    (m : Model) (p : Plan) (e : Event) {m' : Model}
    → step m p e ≡ ok m'
    → (validate_plan m p ≡ ok tt)
      × (((e ≡ authorize) × (m' ≡ record m { plan = some p }))
          ⊎ ((e ≢ authorize) × (m.plan ≡ some p) × (advance m p e ≡ ok m')))
unfolding step
step-eq-ok m p authorize h = let v = check-eq-ok (validate_plan m p) _ h in (v.0, inl (refl, cc))
step-eq-ok m p e h =
    let v = check-eq-ok (validate_plan m p) _ h in
    let w = ensure-eq-ok (option_beq m.plan (some p)) _ _ v.1 in
    (v.0, inr ((λ x. cc), eq→≡ m.plan (some p) w.0, w.1))

-- An accepted event keeps the invariant.
step-IsShaped :
    (m : Model) (p : Plan) (e : Event) {m' : Model} → IsShaped m → step m p e ≡ ok m' → IsShaped m'
step-IsShaped m p e h s = elim (step-eq-ok m p e s).1 [
  | inl (_, w) ↦ rw w (ground arith)
  | inr (_, b, a) ↦ advance-IsShaped m p e h (λ n. cc) a
]

pub attempt-IsShaped : (m : Model) (x : Plan × Event) → IsShaped m → IsShaped (attempt m x)
unfolding attempt
attempt-IsShaped m (p, e) h = go (step m p e) refl
  where
    go : (r : Result Model) → step m p e ≡ r → IsShaped (elim r [ ok m' ↦ m' | err _ ↦ m ])
    go (ok m') s = step-IsShaped m p e h s
    go (err _) s = h

run_from-IsShaped : (m : Model) (xs : List (Plan × Event)) → IsShaped m → IsShaped (run m xs)
unfolding run
run_from-IsShaped m [] h = h
run_from-IsShaped m (x ∷ xs) h = run_from-IsShaped (attempt m x) xs (attempt-IsShaped m x h)

-- After any events, refused ones included, a new model has the invariant: with no plan bound it
-- is restricted, a prepared member means that the candidate is installed, and an active member
-- means that both members are prepared.
pub run-IsShaped : (b : Baseline) (xs : List (Plan × Event)) → IsShaped (run (new b) xs)
run-IsShaped b xs = run_from-IsShaped (new b) xs (new-IsShaped b)
