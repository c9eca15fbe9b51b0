-- ===== src/Pair/Hoare.antt =====
-- Assertions about programs over both copies: whatever call is lost, the copies are left paired, and
-- a program that succeeds leaves what its assertion says.
use terrapi_vault.Common.{
  PartialEq, bool_eq, option_eq, list_eq, string_eq, nat_eq, Result, err, ok, ok_injective, ℕ, suc,
  ◌≡◌, refl, sym, subst,
}
use terrapi_vault.Pair.Model.{Identity, identity_eq, checkpoint_eq, receipt_eq}
use terrapi_vault.Pair.Tables.{Adapter, Node}
use terrapi_vault.Pair.Run.{
  Fault, delivered, lost_request, lost_reply, World, Run, return, lift, deliver, on_primary,
  on_secondary, after_step, ◌>>=◌,
}
use terrapi_vault.Pair.Agreement.{Paired}

module _ {C V : Type 0} ⦃change_eq : PartialEq C⦄ (adapter : Adapter C V)
    (identity : Identity) where
  abbrev pub Assertion : Type 1
  Assertion = Node C V → Node C V → Type 0

  -- What holds after a run.
  abbrev pub After : {T : Type 0} → (T → Assertion) → World C V × Result T → Type 0
  After Q r =
      Paired adapter identity r.0.first_copy r.0.second_copy
      × ((t : _) → r.1 ≡ ok t → Q t r.0.first_copy r.0.second_copy)

  pub record Triple {T : Type 0} (P : Assertion) (m : Run C V T) (Q : T → Assertion) : Type 0 where
    pub run_from : (w : World C V) → P w.first_copy w.second_copy → After Q (m w)

  -- An assertion that leaves the copies paired.
  abbrev pub Sound : Assertion → Type 0
  Sound P = (p s : Node C V) → P p s → Paired adapter identity p s

module _ {C V : Type 0} ⦃change_eq : PartialEq C⦄ (adapter : Adapter C V) (identity : Identity)
    {T : Type 0} where
  pub return-Triple :
      (P : Assertion adapter identity) (t : T)
      → Sound adapter identity P
      → Triple adapter identity P (return t) (λ u p s. (u ≡ t) × P p s)
  unfolding return
  return-Triple P t sound = record {
    run_from = λ w h. (sound w.first_copy w.second_copy h, λ u e. (sym (ok_injective t u e), h));
  }

  pub lift-Triple :
      (P : Assertion adapter identity) (r : Result T)
      → Sound adapter identity P
      → Triple adapter identity P (lift r) (λ u p s. (r ≡ ok u) × P p s)
  unfolding lift
  lift-Triple P r sound = record {
    run_from = λ w h. (sound w.first_copy w.second_copy h, λ u e. (e, h));
  }

  pub weaken-Triple :
      (P : Assertion adapter identity) (m : Run C V T) (Q R : T → Assertion adapter identity)
      → Triple adapter identity P m Q
      → ((t : T) (p s : Node C V) → Q t p s → R t p s)
      → Triple adapter identity P m R
  weaken-Triple P m Q R h f = record {
    run_from = λ w a.
        let (paired, q) = h.run_from w a in
        (paired, λ t e. f t (m w).0.first_copy (m w).0.second_copy (q t e));
  }

  pub bind-After :
      {U : Type 0} (Q : T → Assertion adapter identity) (R : U → Assertion adapter identity)
      → (next : T → Run C V U) → (r : World C V × Result T) → After adapter identity Q r
      → ((t : T) → Triple adapter identity (Q t) (next t) R)
      → After adapter identity R (after_step next r)
  bind-After Q R next (w, err m) (paired, q) f = (paired, λ u e. cc)
  bind-After Q R next (w, ok t) (paired, q) f = (f t).run_from w (q t refl)

  pub bind-Triple :
      {U : Type 0} {P : Assertion adapter identity} {Q : T → Assertion adapter identity}
      {R : U → Assertion adapter identity} {m : Run C V T} {next : T → Run C V U}
      → Triple adapter identity P m Q
      → ((t : T) → Triple adapter identity (Q t) (next t) R)
      → Triple adapter identity P (m >>= next) R
  unfolding ◌>>=◌
  bind-Triple {Q = Q} {R = R} {m = m} {next = next} h f = record {
    run_from = λ w a. bind-After Q R next (m w) (h.run_from w a) f;
  }

module _ {C V : Type 0} ⦃change_eq : PartialEq C⦄ (adapter : Adapter C V) (identity : Identity)
    (fault : ℕ → Fault) {T : Type 0} (P : Assertion adapter identity)
    (Q : T → Assertion adapter identity) (operation : Node C V → Result (Node C V × T)) where
  -- A call of the primary, by what the operation does when it succeeds.
  pub on_primary-Triple :
      Sound adapter identity P
      → ((p p' s : Node C V) (t : T)
          → P p s
          → operation p ≡ ok (p', t)
          → Paired adapter identity p' s × Q t p' s)
      → Triple adapter identity P (on_primary fault operation) Q
  unfolding on_primary
  on_primary-Triple sound effect = record {
    run_from = λ w h. delivered-After w h (fault w.calls) (operation w.first_copy) refl;
  }
    where
      delivered-After :
          (w : World C V) (h : P w.first_copy w.second_copy) (f : Fault) (r : Result (Node C V × T))
          → operation w.first_copy ≡ r
          → After adapter identity Q (
              deliver f
                (λ n. record w { calls = suc w.calls; first_copy = n })
                (record w { calls = suc w.calls })
                r)
      delivered-After w h delivered (ok (n, t)) e =
          let (i, q) = effect w.first_copy n w.second_copy t h e in
          (i, λ u f. subst (λ x. Q x n w.second_copy) (ok_injective t u f) q)
      delivered-After w h delivered (err m) e = (sound w.first_copy w.second_copy h, λ u f. cc)
      delivered-After w h lost_reply (ok (n, t)) e =
          ((effect w.first_copy n w.second_copy t h e).0, λ u f. cc)
      delivered-After w h lost_reply (err m) e = (sound w.first_copy w.second_copy h, λ u f. cc)
      delivered-After w h lost_request r e = (sound w.first_copy w.second_copy h, λ u f. cc)

  pub on_secondary-Triple :
      Sound adapter identity P
      → ((p s s' : Node C V) (t : T)
          → P p s
          → operation s ≡ ok (s', t)
          → Paired adapter identity p s' × Q t p s')
      → Triple adapter identity P (on_secondary fault operation) Q
  unfolding on_secondary
  on_secondary-Triple sound effect = record {
    run_from = λ w h. delivered-After w h (fault w.calls) (operation w.second_copy) refl;
  }
    where
      delivered-After :
          (w : World C V) (h : P w.first_copy w.second_copy) (f : Fault) (r : Result (Node C V × T))
          → operation w.second_copy ≡ r
          → After adapter identity Q (
              deliver f
                (λ n. record w { calls = suc w.calls; second_copy = n })
                (record w { calls = suc w.calls })
                r)
      delivered-After w h delivered (ok (n, t)) e =
          let (i, q) = effect w.first_copy w.second_copy n t h e in
          (i, λ u f. subst (λ x. Q x w.first_copy n) (ok_injective t u f) q)
      delivered-After w h delivered (err m) e = (sound w.first_copy w.second_copy h, λ u f. cc)
      delivered-After w h lost_reply (ok (n, t)) e =
          ((effect w.first_copy w.second_copy n t h e).0, λ u f. cc)
      delivered-After w h lost_reply (err m) e = (sound w.first_copy w.second_copy h, λ u f. cc)
      delivered-After w h lost_request r e = (sound w.first_copy w.second_copy h, λ u f. cc)
