-- ===== src/Transport/Lease/Expiry.antt =====
-- Revocation in groups, the end of sessions, `sweep` and the two snapshots
-- (services/vesta-transport/src/lease.rs).
use terrapi_vault.Common.{
  ltb, leb, if◌then◌else◌, length, Map, get, insert, select, ℕ, String, Bool, true, not, ◌&&◌, ◌||◌,
  Option, none, some, List, [], ◌∷◌, ◌++◌,
}
use terrapi_vault.Transport.Lease.{
  Session, Lease, SessionInfo, Swept, no_such_session, Outcome, failed, done, LeaseEngine,
  session_live, revoked_lease,
}

-- One round of `revoke_each`.
unfoldable pub revoke_live : String → Map Lease → Option Lease → Map Lease × List String
revoke_live id leases none = (leases, [])
revoke_live id leases (some l) =
    if l.revoked then (leases, []) else (insert id (revoked_lease l) leases, id ∷ [])

-- Mark each still-live lease revoked, with the ones flipped.
unfoldable pub revoke_each : List String → Map Lease → Map Lease × List String
revoke_each [] leases = (leases, [])
revoke_each (id ∷ ids) leases =
    let one = revoke_live id leases (get id leases) in
    let rest = revoke_each ids one.0 in (rest.0, one.1 ++ rest.1)

abbrev pub ended_session : Session → Session
ended_session s = record s { ended = true }

-- The session is ended and its children revoked; `end_session` and `sweep` share this.
unfoldable pub end_found : String → LeaseEngine → Session → LeaseEngine × List String
unfolding revoke_each
end_found id e s =
    let r = revoke_each s.children e.leases in
    (record e { sessions = insert id (ended_session s) e.sessions; leases = r.0 }, r.1)

unfoldable pub end_in : String → LeaseEngine → Option Session → LeaseEngine × Outcome (List String)
unfolding end_found
end_in id e none = (e, failed no_such_session)
end_in id e (some s) = let r = end_found id e s in (r.0, done r.1)

unfoldable pub end_session : String → LeaseEngine → LeaseEngine × Outcome (List String)
unfolding end_in
end_session session e = end_in session e (get session e.sessions)

abbrev pub session_due : ℕ → Session → Bool
session_due now s = not s.ended && (leb s.expires_at now || leb s.idle_deadline now)

abbrev pub lease_due : ℕ → Lease → Bool
lease_due now l = not l.revoked && leb l.expires_at now

-- One round of the first loop of `sweep`.
unfoldable pub expire_one : String → LeaseEngine → Option Session → LeaseEngine × Swept
unfolding end_found
expire_one id e none = (e, record { ended_sessions = []; revoked_leases = [] })
expire_one id e (some s) =
    let r = end_found id e s in (r.0, record { ended_sessions = id ∷ []; revoked_leases = r.1 })

unfoldable pub expire_sessions : List String → LeaseEngine → LeaseEngine × Swept
unfolding expire_one
expire_sessions [] e = (e, record { ended_sessions = []; revoked_leases = [] })
expire_sessions (id ∷ ids) e =
    let one = expire_one id e (get id e.sessions) in
    let rest = expire_sessions ids one.0 in
    (
      rest.0,
      record {
        ended_sessions = one.1.ended_sessions ++ rest.1.ended_sessions;
        revoked_leases = one.1.revoked_leases ++ rest.1.revoked_leases;
      },
    )

unfoldable pub sweep : ℕ → LeaseEngine → LeaseEngine × Swept
unfolding expire_sessions revoke_each
sweep now e =
    let first = expire_sessions (select (session_due now) Session.id e.sessions) e in
    let second = revoke_each (select (lease_due now) Lease.id first.0.leases) first.0.leases in
    (
      record first.0 { leases = second.0 },
      record first.1 { revoked_leases = first.1.revoked_leases ++ second.1 },
    )

-- `values().filter(p).cloned().collect()`
abbrev pub filter_values {ℓ} : {V : Type ℓ} → (V → Bool) → Map V → List V
filter_values p [] = []
filter_values p ((k, v) ∷ map) = let rest = filter_values p map in if p v then v ∷ rest else rest

unfoldable pub active_leases : ℕ → LeaseEngine → List Lease
active_leases now e = filter_values (λ l. not l.revoked && ltb now l.expires_at) e.leases

unfoldable pub snapshots : List Session → List SessionInfo
snapshots [] = []
snapshots (s ∷ ss) =
    record {
      id = s.id;
      expires_at = s.expires_at;
      idle_deadline = s.idle_deadline;
      child_count = length s.children;
    }
    ∷ snapshots ss

unfoldable pub active_sessions : ℕ → LeaseEngine → List SessionInfo
unfolding snapshots
active_sessions now e = snapshots (filter_values (λ s. session_live s now) e.sessions)
