-- ===== src/Transport/Lease/Sweep.antt =====
-- What the first loop of `sweep` and then the whole `sweep` do to each entry
-- (services/vesta-transport/src/lease.rs).
use terrapi_vault.Common.{
  Bool-cases, ◌==◌, string_eq, any, any_ext, contains, contains-append, Map, get, insert,
  get-insert, get-insert_other, found_that, same_entry, String, ◌≡◌, refl, ap, ◌∙◌, inl, inr, Bool,
  ◌&&◌, Option, none, some, List, [], ◌∷◌, arith,
}
use terrapi_vault.Transport.Lease.{Session, LeaseEngine}
use terrapi_vault.Transport.Lease.Expiry.{ended_session, end_found, expire_one, expire_sessions}
use terrapi_vault.Transport.Lease.Revoked.{
  revoked_if, ended_if, is_live, revoked_if_again, ended_if_again, live_before, get-revoke_each,
  contains-revoke_each,
}

-- Is the lease among the children of the session found?
abbrev pub child_in : String → Option Session → Bool
child_in key o = found_that (λ s. contains key s.children) o

child_in-ended_if :
    (key : String) (b : Bool) (o : Option Session) → child_in key (ended_if b o) ≡ child_in key o
child_in-ended_if key b o = ground arith

abbrev pub child_of_any : String → List String → Map Session → Bool
child_of_any key ids sessions = any (λ id. child_in key (get id sessions)) ids

pub sessions-expire_one :
    (id key : String) (e : LeaseEngine) (o : Option Session)
    → get id e.sessions ≡ o
    → get key (expire_one id e o).0.sessions ≡ ended_if (id == key) (get key e.sessions)
unfolding expire_one end_found
sessions-expire_one id key e none h = elim (Bool-cases (id == key)) [
  | inl t ↦ rw (t, same_entry id key e.sessions h t) refl
  | inr f ↦ rw f refl
]
sessions-expire_one id key e (some s) h = elim (Bool-cases (id == key)) [
  | inl t ↦
      let there =
        same_entry id key (insert id (ended_session s) e.sessions)
          (get-insert id (ended_session s) e.sessions) t in
      rw (t, there, same_entry id key e.sessions h t) refl
  | inr f ↦ rw (f, get-insert_other id key (ended_session s) e.sessions f) refl
]

pub leases-expire_one :
    (id key : String) (e : LeaseEngine) (o : Option Session)
    → get key (expire_one id e o).0.leases ≡ revoked_if (child_in key o) (get key e.leases)
unfolding expire_one end_found
leases-expire_one id key e none = refl
leases-expire_one id key e (some s) = get-revoke_each s.children key e.leases

reported-expire_one :
    (id key : String) (e : LeaseEngine) (o : Option Session)
    → contains key (expire_one id e o).1.revoked_leases
      ≡ (child_in key o && found_that is_live (get key e.leases))
unfolding expire_one end_found
reported-expire_one id key e none = refl
reported-expire_one id key e (some s) = contains-revoke_each s.children key e.leases

after_one : String → LeaseEngine → LeaseEngine
after_one id e = (expire_one id e (get id e.sessions)).0

-- The children of the sessions that are left stay the same.
children_kept :
    (id key : String) (ids : List String) (e : LeaseEngine)
    → child_of_any key ids (after_one id e).sessions ≡ child_of_any key ids e.sessions
unfolding after_one
children_kept id key ids e = any_ext _ _ ids (λ k.
    ap (child_in key) (sessions-expire_one id k e (get id e.sessions) refl)
    ∙ child_in-ended_if key (id == k) (get k e.sessions))

pub sessions-expire_sessions :
    (ids : List String) (key : String) (e : LeaseEngine)
    → get key (expire_sessions ids e).0.sessions ≡ ended_if (contains key ids) (get key e.sessions)
unfolding expire_sessions after_one
sessions-expire_sessions [] key e = refl
sessions-expire_sessions (id ∷ ids) key e =
    sessions-expire_sessions ids key (after_one id e)
    ∙ ap (ended_if (contains key ids)) (sessions-expire_one id key e (get id e.sessions) refl)
    ∙ ended_if_again (id == key) (contains key ids) (get key e.sessions)

pub leases-expire_sessions :
    (ids : List String) (key : String) (e : LeaseEngine)
    → get key (expire_sessions ids e).0.leases
      ≡ revoked_if (child_of_any key ids e.sessions) (get key e.leases)
unfolding expire_sessions after_one
leases-expire_sessions [] key e = refl
leases-expire_sessions (id ∷ ids) key e =
    leases-expire_sessions ids key (after_one id e)
    ∙ ap (λ b. revoked_if b (get key (after_one id e).leases)) (children_kept id key ids e)
    ∙ ap (revoked_if (child_of_any key ids e.sessions))
        (leases-expire_one id key e (get id e.sessions))
    ∙ revoked_if_again (child_in key (get id e.sessions)) (child_of_any key ids e.sessions)
        (get key e.leases)

pub reported-expire_sessions :
    (ids : List String) (key : String) (e : LeaseEngine)
    → contains key (expire_sessions ids e).1.revoked_leases
      ≡ (child_of_any key ids e.sessions && found_that is_live (get key e.leases))
unfolding expire_sessions after_one
reported-expire_sessions [] key e = refl
reported-expire_sessions (id ∷ ids) key e =
    rw
      (
        contains-append,
        reported-expire_one id key e (get id e.sessions),
        reported-expire_sessions ids key (after_one id e),
        children_kept id key ids e,
        leases-expire_one id key e (get id e.sessions),
      )
      (live_before (child_in key (get id e.sessions)) (child_of_any key ids e.sessions)
        (get key e.leases))
