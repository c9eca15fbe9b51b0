-- ===== src/Transport/Lease/Expired.antt =====
-- What `sweep` and `end_session` do to a consistent engine
-- (services/vesta-transport/src/lease.rs).
use terrapi_vault.Common.{
  ◌==◌, ≡→eq, string_eq, contains, contains-append, any-contains, any_witness, get, select,
  found_that, contains-select, same_entry, ℕ, String, ◌≡◌, refl, sym, ap, ◌∙◌, Bool, true, false,
  ◌&&◌, ◌||◌, Option, none, some, List, arith,
}
use terrapi_vault.Transport.Lease.{Session, Lease, LeaseEngine}
use terrapi_vault.Transport.Lease.Expiry.{
  revoke_each, end_found, session_due, lease_due, expire_one, expire_sessions, sweep,
}
use terrapi_vault.Transport.Lease.Revoked.{
  revoked_if, ended_if, is_live, get-revoke_each, contains-revoke_each,
}
use terrapi_vault.Transport.Lease.Sweep.{
  child_in, child_of_any, sessions-expire_one, sessions-expire_sessions, leases-expire_sessions,
  reported-expire_sessions,
}
use terrapi_vault.Transport.Lease.Invariant.{IsConsistent}
use terrapi_vault.Transport.Lease.Invariant.Marked.{marked_lease, revoked_if-none}
use terrapi_vault.Transport.Lease.Invariant.Endings.{expire_sessions-IsConsistent}

-- Is it time to revoke the lease: by its session's deadlines, or its own expiry?
unfoldable pub doomed : ℕ → LeaseEngine → Lease → Bool
doomed now e l = found_that (session_due now) (get l.parent_session e.sessions) || lease_due now l

same_truth : (a b : Bool) → (a ≡ true → b ≡ true) → (b ≡ true → a ≡ true) → a ≡ b
same_truth true b f g = sym (f refl)
same_truth false true f g = g refl
same_truth false false f g = refl

second_round :
    (now : ℕ) (c : Bool) (l : Lease)
    → revoked_if (found_that (lease_due now) (revoked_if c (some l))) (revoked_if c (some l))
      ≡ some (marked_lease (c || lease_due now l) l)
second_round now true l = refl
second_round now false l = ground arith

reported_twice :
    (now : ℕ) (c : Bool) (l : Lease)
    → (c && is_live l
        || found_that (lease_due now) (revoked_if c (some l))
          && found_that is_live (revoked_if c (some l)))
      ≡ ((c || lease_due now l) && is_live l)
reported_twice now c l = ground arith

revoked_if-some : (b : Bool) (l : Lease) → revoked_if b (some l) ≡ some (marked_lease b l)
revoked_if-some true l = refl
revoked_if-some false l = refl

child_in-eq-true :
    (id : String) (o : Option Session)
    → child_in id o ≡ true
    → (s : Session) × (o ≡ some s) × (contains id s.children ≡ true)
child_in-eq-true id none h = cc
child_in-eq-true id (some s) h = (s, refl, h)

module _ (gen_id : ℕ → String) (e : LeaseEngine) (h : IsConsistent gen_id e) where
  module _ (now : ℕ) where
    due_ids : List String
    due_ids = select (session_due now) Session.id e.sessions

    contains-due_ids :
        (id : String) → contains id due_ids ≡ found_that (session_due now) (get id e.sessions)
    unfolding due_ids
    contains-due_ids id =
        contains-select Session.id (session_due now) id e.sessions h.sessions_keyed

    child_of_any-due :
        (id : String) (l : Lease)
        → get id e.leases ≡ some l
        → child_of_any id due_ids e.sessions
          ≡ found_that (session_due now) (get l.parent_session e.sessions)
    child_of_any-due id l g =
        same_truth _ _
          (λ t.
            let (session, listed, child) =
              any_witness (λ k. child_in id (get k e.sessions)) due_ids t in
            (let (s, found, c) = child_in-eq-true id (get session e.sessions) child in
              let w = h.children_known session id s found c in
              let there = w.lease_found in
              let same : w.lease ≡ l = cc in
              ap (λ k. found_that (session_due now) (get k e.sessions))
                (ap Lease.parent_session (sym same) ∙ w.of_session)
              ∙ sym (contains-due_ids session)
              ∙ listed))
          (λ t.
            let w = h.owned id l g in
            any-contains (λ k. child_in id (get k e.sessions)) l.parent_session due_ids
              (contains-due_ids l.parent_session ∙ t) (ap (child_in id) w.parent_found ∙ w.listed))

    -- Exactly the sessions past a deadline are ended.
    pub sessions-sweep :
        (id : String)
        → get id (sweep now e).0.sessions
          ≡ ended_if (found_that (session_due now) (get id e.sessions)) (get id e.sessions)
    unfolding sweep due_ids
    sessions-sweep id =
        sessions-expire_sessions due_ids id e
        ∙ ap (λ b. ended_if b (get id e.sessions)) (contains-due_ids id)

    after_sessions :
        (id : String) (l : Lease)
        → get id e.leases ≡ some l
        → get id (expire_sessions due_ids e).0.leases
          ≡ revoked_if (found_that (session_due now) (get l.parent_session e.sessions)) (some l)
    after_sessions id l g =
        leases-expire_sessions due_ids id e
        ∙ ap (λ b. revoked_if b (get id e.leases)) (child_of_any-due id l g)
        ∙ ap (revoked_if (found_that (session_due now) (get l.parent_session e.sessions))) g

    -- Exactly the leases that are doomed are revoked.
    pub leases-sweep :
        (id : String) (l : Lease)
        → get id e.leases ≡ some l
        → get id (sweep now e).0.leases ≡ some (marked_lease (doomed now e l) l)
    unfolding sweep due_ids doomed
    leases-sweep id l g =
        let first = (expire_sessions due_ids e).0 in
        let keyed = (expire_sessions-IsConsistent gen_id due_ids e h).leases_keyed in
        get-revoke_each (select (lease_due now) Lease.id first.leases) id first.leases
        ∙ ap (λ b. revoked_if b (get id first.leases))
            (contains-select Lease.id (lease_due now) id first.leases keyed)
        ∙ ap (λ o. revoked_if (found_that (lease_due now) o) o) (after_sessions id l g)
        ∙ second_round now (found_that (session_due now) (get l.parent_session e.sessions)) l

    pub absent-sweep : (id : String) → get id e.leases ≡ none → get id (sweep now e).0.leases ≡ none
    unfolding sweep due_ids
    absent-sweep id g =
        let first = (expire_sessions due_ids e).0 in
        let here : get id first.leases ≡ none =
          leases-expire_sessions due_ids id e
          ∙ ap (revoked_if (child_of_any id due_ids e.sessions)) g
          ∙ revoked_if-none (child_of_any id due_ids e.sessions) in
        let ids = select (lease_due now) Lease.id first.leases in
        get-revoke_each ids id first.leases
        ∙ ap (revoked_if (contains id ids)) here
        ∙ revoked_if-none (contains id ids)

    -- The leases reported are the live ones that are doomed.
    pub reported-sweep :
        (id : String) (l : Lease)
        → get id e.leases ≡ some l
        → contains id (sweep now e).1.revoked_leases ≡ (doomed now e l && is_live l)
    unfolding sweep due_ids doomed
    reported-sweep id l g =
        let first = (expire_sessions due_ids e).0 in
        let keyed = (expire_sessions-IsConsistent gen_id due_ids e h).leases_keyed in
        let c = found_that (session_due now) (get l.parent_session e.sessions) in
        let here : get id first.leases ≡ revoked_if c (some l) = after_sessions id l g in
        let one : contains id (expire_sessions due_ids e).1.revoked_leases ≡ (c && is_live l) =
          reported-expire_sessions due_ids id e
          ∙ ap (λ b. b && found_that is_live (get id e.leases)) (child_of_any-due id l g)
          ∙ ap (λ o. c && found_that is_live o) g in
        let selected : contains id (select (lease_due now) Lease.id first.leases)
            ≡ found_that (lease_due now) (revoked_if c (some l)) =
          contains-select Lease.id (lease_due now) id first.leases keyed
          ∙ ap (found_that (lease_due now)) here in
        let two : contains id
              (revoke_each (select (lease_due now) Lease.id first.leases) first.leases).1
            ≡ (found_that (lease_due now) (revoked_if c (some l))
                && found_that is_live (revoked_if c (some l))) =
          contains-revoke_each (select (lease_due now) Lease.id first.leases) id first.leases
          ∙ ap (λ b. b && found_that is_live (get id first.leases)) selected
          ∙ ap (λ o. found_that (lease_due now) (revoked_if c (some l)) && found_that is_live o)
              here in
        rw (contains-append, one, two) (reported_twice now c l)

  module _ (session : String) (s : Session) (there : get session e.sessions ≡ some s) where
    child-parent :
        (id : String) (l : Lease)
        → get id e.leases ≡ some l
        → contains id s.children ≡ (session == l.parent_session)
    child-parent id l g =
        same_truth _ _
          (λ c.
            let w = h.children_known session id s there c in
            let found = w.lease_found in
            let same : w.lease ≡ l = cc in
            ≡→eq session l.parent_session (sym w.of_session ∙ ap Lease.parent_session same))
          (λ t.
            let w = h.owned id l g in
            let found = w.parent_found in
            let here = same_entry session l.parent_session e.sessions there t in
            let same : w.parent ≡ s = cc in ap (λ p. contains id p.children) (sym same) ∙ w.listed)

    pub leases-end_found :
        (id : String) (l : Lease)
        → get id e.leases ≡ some l
        → get id (end_found session e s).0.leases
          ≡ some (marked_lease (session == l.parent_session) l)
    unfolding end_found
    leases-end_found id l g =
        get-revoke_each s.children id e.leases
        ∙ ap (λ b. revoked_if b (get id e.leases)) (child-parent id l g)
        ∙ ap (revoked_if (session == l.parent_session)) g
        ∙ revoked_if-some (session == l.parent_session) l

    pub reported-end_found :
        (id : String) (l : Lease)
        → get id e.leases ≡ some l
        → contains id (end_found session e s).1 ≡ (session == l.parent_session && is_live l)
    unfolding end_found
    reported-end_found id l g =
        contains-revoke_each s.children id e.leases
        ∙ ap (λ b. b && found_that is_live (get id e.leases)) (child-parent id l g)
        ∙ ap (λ o. session == l.parent_session && found_that is_live o) g

    pub sessions-end_found :
        (id : String)
        → get id (end_found session e s).0.sessions ≡ ended_if (session == id) (get id e.sessions)
    unfolding end_found expire_one
    sessions-end_found id = sessions-expire_one session id e (some s) there
