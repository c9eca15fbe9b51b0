-- ===== src/Recovery/Decision/Journal/Kept.antt =====
-- What any sequence of calls keeps (replication/recovery/src/decision.rs).
use terrapi_vault.Common.{
  bool_eq, option_eq, list_eq, string_eq, nat_eq, ok, Bytes, Index2, at, put_at, ◌≡◌, refl, ap,
  subst, ◌∙◌, inl, inr, true, Option, none, some, List, [], ◌∷◌, arith,
}
use terrapi_vault.Recovery.Model.{Id256, baseline_eq, plan_eq}
use terrapi_vault.Recovery.Jws.{Jws, profile_eq}
use terrapi_vault.Recovery.Grant.{Claims}
use terrapi_vault.Recovery.Decision.{Scope, Record, Codec, IsFaithful}
use terrapi_vault.Recovery.Decision.Store.{Db, read}
use terrapi_vault.Recovery.Decision.Journal.Moves.{
  Call, attempt, run, Move, decided_again, acknowledged_again, completed_again, decided,
  acknowledged, completed,
}
use terrapi_vault.Recovery.Decision.Journal.Refine.{attempt-Move}

-- The same decision, with no less acknowledged and completed.
pub record Later (r s : Record) : Type 0 where
  pub same_request : s.request ≡ r.request
  pub same_token : s.token ≡ r.token
  pub same_grant : s.grant_id ≡ r.grant_id
  pub acknowledged_still :
      (i : Index2) → at r.acknowledgements i ≡ true → at s.acknowledgements i ≡ true
  pub completed_still : (id : Id256) → r.completion ≡ some id → s.completion ≡ some id

Later-refl : (r : Record) → Later r r
Later-refl r = record {
  same_request = refl;
  same_token = refl;
  same_grant = refl;
  acknowledged_still = λ i h. h;
  completed_still = λ id h. h;
}

Later-trans : (r s t : Record) → Later r s → Later s t → Later r t
Later-trans r s t h k = record {
  same_request = k.same_request ∙ h.same_request;
  same_token = k.same_token ∙ h.same_token;
  same_grant = k.same_grant ∙ h.same_grant;
  acknowledged_still = λ i x. k.acknowledged_still i (h.acknowledged_still i x);
  completed_still = λ id x. k.completed_still id (h.completed_still id x);
}

acknowledged-Later :
    (r : Record) (i : Index2)
    → Later r (record r { acknowledgements = put_at r.acknowledgements i true })
acknowledged-Later r i = record {
  same_request = refl;
  same_token = refl;
  same_grant = refl;
  acknowledged_still = λ k h. ground arith;
  completed_still = λ id h. h;
}

completed-Later :
    (r : Record) (id : Id256) → r.completion ≡ none → Later r (record r { completion = some id })
completed-Later r id n = record {
  same_request = refl;
  same_token = refl;
  same_grant = refl;
  acknowledged_still = λ k h. h;
  completed_still = λ k h. cc;
}

module _ {J : Type 0} (c : Codec J) (scope : Scope) (j : Jws)
    (parse_claims : Bytes → Option Claims) where
  Move-Later :
      (x : Call) (r : Record) (o : Option Record)
      → Move c scope j parse_claims x (some r) o
      → (s : Record) × (o ≡ some s) × Later r s
  Move-Later x r o (decided_again _ _ _ _ e) = (r, e, Later-refl r)
  Move-Later x r o (acknowledged_again _ _ _ _ _ _ _ _ _ e) = (r, e, Later-refl r)
  Move-Later x r o (completed_again _ _ _ _ _ _ _ _ e) = (r, e, Later-refl r)
  Move-Later x r o (decided _ _ _ _ _ _ n _) = absurd (cc)
  Move-Later x r o (acknowledged q _ _ _ i _ e _ _ _ w) =
      let k : q ≡ r = cc in
      (
        record r { acknowledgements = put_at r.acknowledgements i true },
        subst (λ y. o ≡ some (record y { acknowledgements = put_at y.acknowledgements i true })) k
            w,
        acknowledged-Later r i,
      )
  Move-Later x r o (completed q id _ _ e _ n _ w) =
      let k : q ≡ r = cc in
      (
        record r { completion = some id },
        subst (λ y. o ≡ some (record y { completion = some id })) k w,
        completed-Later r id (subst (λ y. y.completion ≡ none) k n),
      )

  -- Whatever calls follow, failing ones included and under any policies, a recorded decision stays:
  -- its request, token and grant are the same, and no acknowledgement or completion is lost.
  pub run-Later :
      IsFaithful c
      → (db : Db J) (xs : List Call) (r : Record) → read c scope db ≡ ok (some r)
      → (s : Record) × (read c scope (run c scope j parse_claims db xs) ≡ ok (some s)) × Later r s
  unfolding run
  run-Later f db [] r h = (r, h, Later-refl r)
  run-Later f db (x ∷ xs) r h =
      let (o, e, m) = attempt-Move c scope f j parse_claims db x (some r) h in
      let next : (s : Record) × (o ≡ some s) × Later r s = elim m [
        | inl n ↦ Move-Later x r o n
        | inr n ↦ (r, n, Later-refl r)
      ] in
      let (s, k, l) = next in
      let (t, g, n) = run-Later f (attempt c scope j parse_claims db x) xs s (e ∙ ap ok k) in
      (t, g, Later-trans r s t l n)
