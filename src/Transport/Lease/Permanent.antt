-- ===== src/Transport/Lease/Permanent.antt =====
-- A revoked lease stays as it is (services/vesta-transport/src/lease.rs).
use terrapi_vault.Common.{
  leb, Bool-cases, if-cases, ◌==◌, string_eq, contains, Map, get, insert, get-insert_other, select,
  same_entry, ℕ, String, ◌≡◌, refl, ap, ◌∙◌, inl, inr, Bool, true, false, not, Option, none, some,
  List, [], ◌∷◌, arith,
}
use terrapi_vault.Transport.Lease.{
  min, saturating_add, Session, Lease, Outcome, LeaseEngine, session_live, revoked_lease, issued,
  open_session, issue_in, issue_lease, renew_in, renew_found, renew, revoke_found, revoke,
}
use terrapi_vault.Transport.Lease.Expiry.{
  end_found, end_in, end_session, session_due, lease_due, expire_sessions, sweep,
}
use terrapi_vault.Transport.Lease.Revoked.{revoked_if, revoked_already, get-revoke_each}
use terrapi_vault.Transport.Lease.Sweep.{child_of_any, leases-expire_sessions}
use terrapi_vault.Transport.Lease.Invariant.{IsConsistent, Fresh}
use terrapi_vault.Transport.Lease.Invariant.Growth.{still-insert}
use terrapi_vault.Transport.Lease.Invariant.Runs.{
  Call, opening, issuing, renewing, revoking, ending, sweeping, perform, run, perform-IsConsistent,
}

-- Revoking again changes nothing.
revoked_again : (b : Bool) (l : Lease) → l.revoked ≡ true → revoked_if b (some l) ≡ some l
revoked_again true l r = ap some (revoked_already l r)
revoked_again false l r = refl

module _ (id : String) (l : Lease) (r : l.revoked ≡ true) where
  -- The entry of the lease stands in the engine.
  abbrev Stands : LeaseEngine → Type 0
  Stands e = get id e.leases ≡ some l

  -- Only a lease that is not revoked is written.
  Stands-insert :
      (key : String) (k m : Lease) (leases : Map Lease)
      → get key leases ≡ some k
      → k.revoked ≡ false
      → get id leases ≡ some l
      → get id (insert key m leases) ≡ some l
  Stands-insert key k m leases there f g = elim (Bool-cases (key == id)) [
    | inl t ↦ absurd (
        let here = same_entry key id leases there t in
        let same : k ≡ l = cc in let both = ap Lease.revoked same in cc)
    | inr n ↦ get-insert_other key id m leases n ∙ g
  ]

  Stands-issue_in :
      (gen_id : ℕ → String) (now : ℕ) (session : String) (ttl max_ttl : ℕ) (renewable : Bool)
      (e : LeaseEngine) (o : Option Session)
      → IsConsistent gen_id e
      → Stands e
      → Stands (issue_in gen_id now session ttl max_ttl renewable e o).0
  unfolding issue_in
  Stands-issue_in gen_id now session ttl max_ttl renewable e none h g = g
  Stands-issue_in gen_id now session ttl max_ttl renewable e (some s) h g =
      if-cases {A = LeaseEngine × Outcome String} (λ x. Stands x.0) (session_live s now)
        (λ _.
          still-insert (gen_id e.calls) id
            (issued (gen_id e.calls) s session now ttl max_ttl renewable) l e.leases
            (h.unused e.calls (omega arith)).1 g)
        (λ _. g)

  Stands-renew_in :
      (now : ℕ) (key : String) (increment : ℕ) (e : LeaseEngine) (k : Lease) (o : Option Session)
      → get key e.leases ≡ some k
      → k.revoked ≡ false
      → Stands e
      → Stands (renew_in now key increment e k o).0
  unfolding renew_in
  Stands-renew_in now key increment e k none there f g = g
  Stands-renew_in now key increment e k (some s) there f g =
      if-cases {A = LeaseEngine × Outcome ℕ} (λ x. Stands x.0) (session_live s now)
        (λ _.
          Stands-insert key k
            (record k {
              expires_at = min (saturating_add now increment) (min k.max_deadline s.expires_at);
            })
            e.leases there f g)
        (λ _. g)

  Stands-renew_found :
      (now : ℕ) (key : String) (increment : ℕ) (e : LeaseEngine) (o : Option Lease)
      → get key e.leases ≡ o
      → Stands e
      → Stands (renew_found now key increment e o).0
  unfolding renew_found
  Stands-renew_found now key increment e none there g = g
  Stands-renew_found now key increment e (some k) there g =
      let P : LeaseEngine × Outcome ℕ → Type 0 = λ x. Stands x.0 in
      if-cases P k.revoked (λ _. g)
        (λ f.
          if-cases P (not k.renewable) (λ _. g)
            (λ _.
              if-cases P (leb k.expires_at now) (λ _. g)
                (λ _.
                  Stands-renew_in now key increment e k (get k.parent_session e.sessions) there f
                    g)))

  Stands-revoke_found :
      (key : String) (e : LeaseEngine) (o : Option Lease)
      → get key e.leases ≡ o
      → Stands e
      → Stands (revoke_found key e o).0
  unfolding revoke_found
  Stands-revoke_found key e none there g = g
  Stands-revoke_found key e (some k) there g =
      if-cases {A = LeaseEngine × Outcome (Unit {0})} (λ x. Stands x.0) k.revoked (λ _. g)
        (λ f. Stands-insert key k (revoked_lease k) e.leases there f g)

  Stands-end_in :
      (key : String) (e : LeaseEngine) (o : Option Session) → Stands e → Stands (end_in key e o).0
  unfolding end_in end_found
  Stands-end_in key e none g = g
  Stands-end_in key e (some s) g =
      get-revoke_each s.children id e.leases
      ∙ ap (revoked_if (contains id s.children)) g
      ∙ revoked_again (contains id s.children) l r

  Stands-sweep : (now : ℕ) (e : LeaseEngine) → Stands e → Stands (sweep now e).0
  unfolding sweep
  Stands-sweep now e g =
      let ids = select (session_due now) Session.id e.sessions in
      let first = (expire_sessions ids e).0 in
      let due = select (lease_due now) Lease.id first.leases in
      get-revoke_each due id first.leases
      ∙ ap (revoked_if (contains id due)) (
          leases-expire_sessions ids id e
          ∙ ap (revoked_if (child_of_any id ids e.sessions)) g
          ∙ revoked_again (child_of_any id ids e.sessions) l r)
      ∙ revoked_again (contains id due) l r

  module _ (gen_id : ℕ → String) (fresh : Fresh gen_id) where
    Stands-perform :
        (x : Call) (e : LeaseEngine)
        → IsConsistent gen_id e
        → Stands e
        → Stands (perform gen_id x e)
    unfolding perform open_session issue_lease renew revoke end_session
    Stands-perform (opening now ttl idle) e h g = g
    Stands-perform (issuing now session ttl max_ttl renewable) e h g =
        Stands-issue_in gen_id now session ttl max_ttl renewable e (get session e.sessions) h g
    Stands-perform (renewing now key increment) e h g =
        Stands-renew_found now key increment e (get key e.leases) refl g
    Stands-perform (revoking key) e h g = Stands-revoke_found key e (get key e.leases) refl g
    Stands-perform (ending session) e h g = Stands-end_in session e (get session e.sessions) g
    Stands-perform (sweeping now) e h g = Stands-sweep now e g

-- With ids that never repeat, the entry of a revoked lease is the same after any further calls: it
-- is never renewed, never revived and never replaced.
pub run-Stands :
    (gen_id : ℕ → String)
    → Fresh gen_id
    → (e : LeaseEngine) → IsConsistent gen_id e
    → (xs : List Call) (id : String) (l : Lease) → get id e.leases ≡ some l
    → l.revoked ≡ true
    → get id (run gen_id e xs).leases ≡ some l
unfolding run
run-Stands gen_id fresh e h [] id l g r = g
run-Stands gen_id fresh e h (x ∷ xs) id l g r =
    run-Stands gen_id fresh (perform gen_id x e) (perform-IsConsistent gen_id fresh x e h) xs id l
      (Stands-perform id l r gen_id fresh x e h g) r
