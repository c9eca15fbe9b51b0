-- ===== src/Transport/Lease/Invariant/Endings.antt =====
-- `revoke`, `end_session` and `sweep` keep the engine consistent
-- (services/vesta-transport/src/lease.rs).
use terrapi_vault.Common.{
  Bool-cases, ◌==◌, string_eq, contains, Map, get, insert, select, Keyed, Keyed-insert, Keyed-get,
  same_entry, ℕ, String, ◌≡◌, refl, sym, ap, subst, ◌∙◌, inl, inr, false, Option, none, some, List,
  [], ◌∷◌,
}
use terrapi_vault.Transport.Lease.{Session, Lease, LeaseEngine, revoked_lease, revoke_found, revoke}
use terrapi_vault.Transport.Lease.Expiry.{
  revoke_live, revoke_each, ended_session, end_found, end_in, end_session, session_due, lease_due,
  expire_one, expire_sessions, sweep,
}
use terrapi_vault.Transport.Lease.Revoked.{get-revoke_each}
use terrapi_vault.Transport.Lease.Sweep.{child_in, sessions-expire_one, leases-expire_one}
use terrapi_vault.Transport.Lease.Invariant.{IsConsistent}
use terrapi_vault.Transport.Lease.Invariant.Marked.{Marked, Marked-IsConsistent}

revoke_live-Keyed :
    (id : String) (leases : Map Lease) (o : Option Lease)
    → get id leases ≡ o
    → Keyed Lease.id leases
    → Keyed Lease.id (revoke_live id leases o).0
unfolding revoke_live
revoke_live-Keyed id leases none g h = h
revoke_live-Keyed id leases (some l) g h = elim (Bool-cases l.revoked) [
  | inl r ↦ rw r h
  | inr r ↦
      rw r
        (Keyed-insert Lease.id id (revoked_lease l) leases (Keyed-get Lease.id id leases l h g) h)
]

revoke_each-Keyed :
    (ids : List String) (leases : Map Lease)
    → Keyed Lease.id leases
    → Keyed Lease.id (revoke_each ids leases).0
unfolding revoke_each
revoke_each-Keyed [] leases h = h
revoke_each-Keyed (id ∷ ids) leases h =
    revoke_each-Keyed ids (revoke_live id leases (get id leases)).0
      (revoke_live-Keyed id leases (get id leases) refl h)

revoke_each_one :
    (id : String) (leases : Map Lease) (l : Lease)
    → get id leases ≡ some l
    → l.revoked ≡ false
    → (revoke_each (id ∷ []) leases).0 ≡ insert id (revoked_lease l) leases
unfolding revoke_each revoke_live
revoke_each_one id leases l g r = rw g (rw r refl)

expire_one-Marked :
    (id : String) (e : LeaseEngine) (o : Option Session)
    → get id e.sessions ≡ o
    → Marked (λ k. id == k) (λ k. child_in k o) e (expire_one id e o).0
unfolding expire_one end_found
expire_one-Marked id e none g = record {
  same_calls = refl;
  sessions_keyed_still = λ h. h;
  leases_keyed_still = λ h. h;
  at_session = λ k. sessions-expire_one id k e none g;
  at_lease = λ k. leases-expire_one id k e none;
}
expire_one-Marked id e (some s) g = record {
  same_calls = refl;
  sessions_keyed_still = λ h.
      Keyed-insert Session.id id (ended_session s) e.sessions
        (Keyed-get Session.id id e.sessions s h g) h;
  leases_keyed_still = λ h. revoke_each-Keyed s.children e.leases h;
  at_session = λ k. sessions-expire_one id k e (some s) g;
  at_lease = λ k. leases-expire_one id k e (some s);
}

revoke_each-Marked :
    (ids : List String) (e : LeaseEngine)
    → Marked
        (λ _. false)
        (λ k. contains k ids)
        e
        (record e { leases = (revoke_each ids e.leases).0 })
revoke_each-Marked ids e = record {
  same_calls = refl;
  sessions_keyed_still = λ h. h;
  leases_keyed_still = λ h. revoke_each-Keyed ids e.leases h;
  at_session = λ k. refl;
  at_lease = λ k. get-revoke_each ids k e.leases;
}

module _ (gen_id : ℕ → String) where
  expire_one-IsConsistent :
      (id : String) (e : LeaseEngine) (o : Option Session)
      → get id e.sessions ≡ o
      → IsConsistent gen_id e
      → IsConsistent gen_id (expire_one id e o).0
  expire_one-IsConsistent id e o g =
      Marked-IsConsistent gen_id (λ k. id == k) (λ k. child_in k o) e (expire_one id e o).0
        (expire_one-Marked id e o g)
        (λ session key same child.
          ap (child_in key) (sym (same_entry id session e.sessions g same)) ∙ child)

  pub expire_sessions-IsConsistent :
      (ids : List String) (e : LeaseEngine)
      → IsConsistent gen_id e
      → IsConsistent gen_id (expire_sessions ids e).0
  unfolding expire_sessions
  expire_sessions-IsConsistent [] e h = h
  expire_sessions-IsConsistent (id ∷ ids) e h =
      expire_sessions-IsConsistent ids (expire_one id e (get id e.sessions)).0
        (expire_one-IsConsistent id e (get id e.sessions) refl h)

  revoke_each-IsConsistent :
      (ids : List String) (e : LeaseEngine)
      → IsConsistent gen_id e
      → IsConsistent gen_id (record e { leases = (revoke_each ids e.leases).0 })
  revoke_each-IsConsistent ids e =
      Marked-IsConsistent gen_id (λ _. false) (λ k. contains k ids) e _ (revoke_each-Marked ids e)
        (λ session key impossible child. cc)

  pub sweep-IsConsistent :
      (now : ℕ) (e : LeaseEngine) → IsConsistent gen_id e → IsConsistent gen_id (sweep now e).0
  unfolding sweep
  sweep-IsConsistent now e h =
      let ids = select (session_due now) Session.id e.sessions in
      let first = (expire_sessions ids e).0 in
      revoke_each-IsConsistent (select (lease_due now) Lease.id first.leases) first
        (expire_sessions-IsConsistent ids e h)

  end_in-IsConsistent :
      (id : String) (e : LeaseEngine) (o : Option Session)
      → get id e.sessions ≡ o
      → IsConsistent gen_id e
      → IsConsistent gen_id (end_in id e o).0
  unfolding end_in expire_one
  end_in-IsConsistent id e none g h = h
  end_in-IsConsistent id e (some s) g h = expire_one-IsConsistent id e (some s) g h

  pub end_session-IsConsistent :
      (id : String) (e : LeaseEngine)
      → IsConsistent gen_id e
      → IsConsistent gen_id (end_session id e).0
  unfolding end_session
  end_session-IsConsistent id e h = end_in-IsConsistent id e (get id e.sessions) refl h

  revoke_found-IsConsistent :
      (id : String) (e : LeaseEngine) (o : Option Lease)
      → get id e.leases ≡ o
      → IsConsistent gen_id e
      → IsConsistent gen_id (revoke_found id e o).0
  unfolding revoke_found
  revoke_found-IsConsistent id e none g h = h
  revoke_found-IsConsistent id e (some l) g h = elim (Bool-cases l.revoked) [
    | inl r ↦ rw r h
    | inr r ↦ rw r (
        subst (λ leases. IsConsistent gen_id (record e { leases = leases }))
          (revoke_each_one id e.leases l g r) (revoke_each-IsConsistent (id ∷ []) e h))
  ]

  pub revoke-IsConsistent :
      (id : String) (e : LeaseEngine) → IsConsistent gen_id e → IsConsistent gen_id (revoke id e).0
  unfolding revoke
  revoke-IsConsistent id e h = revoke_found-IsConsistent id e (get id e.leases) refl h
