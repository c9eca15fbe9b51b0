-- ===== src/Transport/Lease/Invariant/Renew.antt =====
-- `renew` keeps the engine consistent (services/vesta-transport/src/lease.rs).
use terrapi_vault.Common.{
  leb, Bool-cases, if-cases, ◌==◌, string_eq, contains, Map, get, insert, get-insert,
  get-insert_other, get-insert_cases, Keyed-insert, Keyed-get, same_entry, ℕ, ◌≤◌, String, ◌≡◌,
  refl, sym, ap, subst, ◌∙◌, inl, inr, not, Option, none, some, arith,
}
use terrapi_vault.Transport.Lease.{
  min, saturating_add, Session, Lease, Outcome, LeaseEngine, session_live, touch, renew_in,
  renew_found, renew,
}
use terrapi_vault.Transport.Lease.Invariant.{Owned, Child, IsConsistent}
use terrapi_vault.Transport.Lease.Invariant.Growth.{
  min_left, min_right, absent-insert, Rewritten, Owned-Rewritten,
}

touch-Rewritten : (s : Session) (now : ℕ) → Rewritten s (touch s now)
touch-Rewritten s now = record {
  same_id = refl;
  same_expiry = refl;
  same_end = refl;
  children_still = λ k h. h;
}

Child-rewrite :
    (leases : Map Lease) (session id key : String) (l m : Lease)
    → get id leases ≡ some l
    → m.parent_session ≡ l.parent_session
    → Child leases session key
    → Child (insert id m leases) session key
Child-rewrite leases session id key l m g p w = elim (Bool-cases (id == key)) [
  | inl t ↦
      let found = w.lease_found in
      let there = same_entry id key leases g t in
      let same : w.lease ≡ l = cc in
      record {
        lease = m;
        lease_found = same_entry id key (insert id m leases) (get-insert id m leases) t;
        of_session = p ∙ sym (ap Lease.parent_session same) ∙ w.of_session;
      }
  | inr f ↦ record {
    lease = w.lease;
    lease_found = get-insert_other id key m leases f ∙ w.lease_found;
    of_session = w.of_session;
  }
]

renewed_bounded :
    (now increment : ℕ) (l : Lease) (s : Session)
    → min (saturating_add now increment) (min l.max_deadline s.expires_at) ≤ l.max_deadline
renewed_bounded now increment l s =
    let ceiling = min l.max_deadline s.expires_at in
    omega (
      arith,
      min_right (saturating_add now increment) ceiling,
      min_left l.max_deadline s.expires_at,
    )

module _ (gen_id : ℕ → String) where
  renew_in-IsConsistent :
      (now : ℕ) (id : String) (increment : ℕ) (e : LeaseEngine) (l : Lease) (o : Option Session)
      → get id e.leases ≡ some l
      → get l.parent_session e.sessions ≡ o
      → IsConsistent gen_id e
      → IsConsistent gen_id (renew_in now id increment e l o).0
  unfolding renew_in
  renew_in-IsConsistent now id increment e l none g f h = h
  renew_in-IsConsistent now id increment e l (some s) g f h =
      elim (Bool-cases (session_live s now)) [
        | inl live ↦ rw live (
            let session = l.parent_session in
            let t = touch s now in
            let m = record l {
              expires_at = min (saturating_add now increment) (min l.max_deadline s.expires_at);
            } in
            let w =
              Owned-Rewritten session s t e.sessions id l f (touch-Rewritten s now)
                (h.owned id l g) in
            let mine : Owned (insert session t e.sessions) id m = record {
              parent = w.parent;
              parent_found = w.parent_found;
              listed = w.listed;
              bounded = renewed_bounded now increment l s;
              within = w.within;
              ended_revoked = w.ended_revoked;
            } in
            record {
              sessions_keyed =
                  Keyed-insert Session.id session t e.sessions
                    (Keyed-get Session.id session e.sessions s h.sessions_keyed f) h.sessions_keyed;
              leases_keyed =
                  Keyed-insert Lease.id id m e.leases
                    (Keyed-get Lease.id id e.leases l h.leases_keyed g) h.leases_keyed;
              owned = λ k n u. elim (get-insert_cases id k m n e.leases u) [
                | inl (same, is_new) ↦
                    subst (λ x. Owned (insert session t e.sessions) x n) same
                      (subst (λ x. Owned (insert session t e.sessions) id x) is_new mine)
                | inr (_, old) ↦
                    Owned-Rewritten session s t e.sessions k n f (touch-Rewritten s now)
                      (h.owned k n old)
              ];
              children_known = λ other k u v c.
                  elim (get-insert_cases session other t u e.sessions v) [
                    | inl (same, is_new) ↦ Child-rewrite e.leases other id k l m g refl (
                        subst (λ x. Child e.leases x k) same
                          (h.children_known session k s f
                            (ap (λ x. contains k x.children) is_new ∙ c)))
                    | inr (_, old) ↦
                        Child-rewrite e.leases other id k l m g refl
                          (h.children_known other k u old c)
                  ];
              unused = λ n le.
                  (let (a, b) = h.unused n le in
                    (
                      absent-insert session (gen_id n) t s e.sessions f a,
                      absent-insert id (gen_id n) m l e.leases g b,
                    ));
            })
        | inr dead ↦ rw dead h
      ]

  renew_found-IsConsistent :
      (now : ℕ) (id : String) (increment : ℕ) (e : LeaseEngine) (o : Option Lease)
      → get id e.leases ≡ o
      → IsConsistent gen_id e
      → IsConsistent gen_id (renew_found now id increment e o).0
  unfolding renew_found
  renew_found-IsConsistent now id increment e none g h = h
  renew_found-IsConsistent now id increment e (some l) g h =
      let last =
        renew_in-IsConsistent now id increment e l (get l.parent_session e.sessions) g refl h in
      let P : LeaseEngine × Outcome ℕ → Type 0 = λ r. IsConsistent gen_id r.0 in
      if-cases P l.revoked (λ _. h)
        (λ _.
          if-cases P (not l.renewable) (λ _. h)
            (λ _. if-cases P (leb l.expires_at now) (λ _. h) (λ _. last)))

  pub renew-IsConsistent :
      (now : ℕ) (id : String) (increment : ℕ) (e : LeaseEngine)
      → IsConsistent gen_id e
      → IsConsistent gen_id (renew now id increment e).0
  unfolding renew
  renew-IsConsistent now id increment e h =
      renew_found-IsConsistent now id increment e (get id e.leases) refl h
