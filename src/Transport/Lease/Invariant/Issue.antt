-- ===== src/Transport/Lease/Invariant/Issue.antt =====
-- `issue_lease` keeps the engine consistent (services/vesta-transport/src/lease.rs).
use terrapi_vault.Common.{
  Bool-cases, ◌==◌, ≡→eq, string_eq, contains, contains-append, Map, get, insert, get-insert,
  get-insert_cases, Keyed-insert, Keyed-get, same_entry, ℕ, String, ◌≡◌, refl, ap, subst, ◌∙◌, inl,
  inr, Bool, true, false, Option, none, some, [], ◌∷◌, ◌++◌, arith,
}
use terrapi_vault.Transport.Lease.{
  min, saturating_add, Session, Lease, LeaseEngine, session_live, touch, issued, with_child,
  issue_in, issue_lease,
}
use terrapi_vault.Transport.Lease.Invariant.{Owned, Child, IsConsistent, Fresh}
use terrapi_vault.Transport.Lease.Invariant.Growth.{
  min_right, still-insert, absent-insert, Rewritten, Owned-Rewritten, unused-insert,
}

with_child-Rewritten :
    (s : Session) (now : ℕ) (id : String) → Rewritten s (with_child (touch s now) id)
with_child-Rewritten s now id = record {
  same_id = refl;
  same_expiry = refl;
  same_end = refl;
  children_still = λ k h. contains-append k s.children (id ∷ []) ∙ rw h refl;
}

-- A lease is issued under a session that has not ended.
issued-Owned :
    (now : ℕ) (session id : String) (ttl_secs max_ttl_secs : ℕ) (renewable : Bool) (s : Session)
    (sessions : Map Session)
    → s.ended ≡ false
    → Owned
        (insert session (with_child (touch s now) id) sessions)
        id
        (issued id s session now ttl_secs max_ttl_secs renewable)
issued-Owned now session id ttl_secs max_ttl_secs renewable s sessions not_ended =
    let t = with_child (touch s now) id in
    record {
      parent = t;
      parent_found = get-insert session t sessions;
      listed = contains-append id s.children (id ∷ []) ∙ rw (≡→eq id id refl) (ground arith);
      bounded =
          min_right (saturating_add now ttl_secs)
            (min (saturating_add now max_ttl_secs) s.expires_at);
      within = min_right (saturating_add now max_ttl_secs) s.expires_at;
      ended_revoked = λ e. absurd (cc);
    }

module _ (leases : Map Lease) (id : String) (l : Lease) where
  Child-insert :
      (session key : String)
      → get id leases ≡ none
      → Child leases session key
      → Child (insert id l leases) session key
  Child-insert session key none_there w = record {
    lease = w.lease;
    lease_found = still-insert id key l w.lease leases none_there w.lease_found;
    of_session = w.of_session;
  }

  Child-new : (key : String) → (id == key) ≡ true → Child (insert id l leases) l.parent_session key
  Child-new key e = record {
    lease = l;
    lease_found = same_entry id key (insert id l leases) (get-insert id l leases) e;
    of_session = refl;
  }

  Child-issue :
      (now : ℕ) (session other key : String) (s t : Session) (sessions : Map Session)
      → l.parent_session ≡ session
      → get id leases ≡ none
      → ((k : String) → contains k s.children ≡ true → Child leases session k)
      → ((k : String) (u : Session)
          → get other sessions ≡ some u
          → contains k u.children ≡ true
          → Child leases other k)
      → get other (insert session (with_child (touch s now) id) sessions) ≡ some t
      → contains key t.children ≡ true
      → Child (insert id l leases) other key
  Child-issue now session other key s t sessions p none_there mine others g c =
      elim (get-insert_cases session other (with_child (touch s now) id) t sessions g) [
        | inl (same, is_new) ↦
            subst (λ o. Child (insert id l leases) o key) same
              (elim (Bool-cases (contains key s.children)) [
                | inl old ↦ Child-insert session key none_there (mine key old)
                | inr not_old ↦
                    let split = contains-append key s.children (id ∷ []) in
                    let last : (id == key) ≡ true =
                      (let whole : contains key (s.children ++ id ∷ []) ≡ true =
                          ap (λ u. contains key u.children) is_new ∙ c in
                        ground arith) in
                    subst (λ o. Child (insert id l leases) o key) p (Child-new key last)
              ])
        | inr (_, old) ↦ Child-insert other key none_there (others key t old c)
      ]

module _ (gen_id : ℕ → String) (fresh : Fresh gen_id) where
  issue_in-IsConsistent :
      (now : ℕ) (session : String) (ttl_secs max_ttl_secs : ℕ) (renewable : Bool) (e : LeaseEngine)
      (o : Option Session)
      → get session e.sessions ≡ o
      → IsConsistent gen_id e
      → IsConsistent gen_id (issue_in gen_id now session ttl_secs max_ttl_secs renewable e o).0
  unfolding issue_in
  issue_in-IsConsistent now session ttl_secs max_ttl_secs renewable e none g h = h
  issue_in-IsConsistent now session ttl_secs max_ttl_secs renewable e (some s) g h =
      elim (Bool-cases (session_live s now)) [
        | inl live ↦ rw live (
            let id = gen_id e.calls in
            let l = issued id s session now ttl_secs max_ttl_secs renewable in
            let t = with_child (touch s now) id in
            let keyed = Keyed-get Session.id session e.sessions s h.sessions_keyed g in
            let none_there = (h.unused e.calls (omega arith)).1 in
            let not_ended : s.ended ≡ false = ground arith in
            let mine =
              issued-Owned now session id ttl_secs max_ttl_secs renewable s e.sessions not_ended in
            record {
              sessions_keyed = Keyed-insert Session.id session t e.sessions keyed h.sessions_keyed;
              leases_keyed = Keyed-insert Lease.id id l e.leases refl h.leases_keyed;
              owned = λ k m f. elim (get-insert_cases id k l m e.leases f) [
                | inl (same, is_new) ↦
                    subst (λ x. Owned (insert session t e.sessions) x m) same
                      (subst (λ x. Owned (insert session t e.sessions) id x) is_new mine)
                | inr (_, old) ↦
                    Owned-Rewritten session s t e.sessions k m g (with_child-Rewritten s now id)
                      (h.owned k m old)
              ];
              children_known = λ other k u f c.
                  Child-issue e.leases id l now session other k s u e.sessions refl none_there
                    (λ x. h.children_known session x s g) (λ x v. h.children_known other x v) f c;
              unused = λ n le.
                  (let (a, b) = h.unused n (omega (arith, le)) in
                    (
                      absent-insert session (gen_id n) t s e.sessions g a,
                      unused-insert gen_id fresh e l e.leases n le b,
                    ));
            })
        | inr dead ↦ rw dead h
      ]

  pub issue_lease-IsConsistent :
      (now : ℕ) (session : String) (ttl_secs max_ttl_secs : ℕ) (renewable : Bool) (e : LeaseEngine)
      → IsConsistent gen_id e
      → IsConsistent gen_id (issue_lease gen_id now session ttl_secs max_ttl_secs renewable e).0
  unfolding issue_lease
  issue_lease-IsConsistent now session ttl_secs max_ttl_secs renewable e h =
      issue_in-IsConsistent now session ttl_secs max_ttl_secs renewable e (get session e.sessions)
        refl h
