-- ===== src/Transport/Lease/Deadlines.antt =====
-- What is left of the leases after `sweep` and `end_session`
-- (services/vesta-transport/src/lease.rs).
use terrapi_vault.Common.{
  Bool-cases, Option-cases, ◌==◌, string_eq, contains, get, found_that, ℕ, ◌<◌, String, ◌≡◌, refl,
  sym, ap, subst, ◌∙◌, inl, inr, Bool, true, false, ◌&&◌, Option, none, some, List, arith,
}
use terrapi_vault.Transport.Lease.{Session, Lease, Swept, done, LeaseEngine, session_live}
use terrapi_vault.Transport.Lease.Expiry.{
  ended_session, end_found, end_in, end_session, session_due, sweep,
}
use terrapi_vault.Transport.Lease.Revoked.{ended_if, is_live}
use terrapi_vault.Transport.Lease.Invariant.{IsConsistent}
use terrapi_vault.Transport.Lease.Invariant.Marked.{marked_lease}
use terrapi_vault.Transport.Lease.Expired.{
  doomed, sessions-sweep, leases-sweep, absent-sweep, reported-sweep, leases-end_found,
  reported-end_found, sessions-end_found,
}
use terrapi_vault.Transport.Lease.Invariant.Endings.{sweep-IsConsistent}

-- The sweep as a description of each entry: a session or lease past its time is ended or revoked,
-- and nothing else changes.
pub record SweptAt (now : ℕ) (e : LeaseEngine) (r : LeaseEngine × Swept) : Type 0 where
  pub sessions_ended :
      (id : String)
      → get id r.0.sessions
        ≡ ended_if (found_that (session_due now) (get id e.sessions)) (get id e.sessions)
  pub leases_revoked :
      (id : String) (l : Lease)
      → get id e.leases ≡ some l
      → get id r.0.leases ≡ some (marked_lease (doomed now e l) l)
  pub none_new : (id : String) → get id e.leases ≡ none → get id r.0.leases ≡ none
  pub revoked_reported :
      (id : String) (l : Lease)
      → get id e.leases ≡ some l
      → contains id r.1.revoked_leases ≡ (doomed now e l && is_live l)

-- On a consistent engine `sweep` ends exactly the sessions past a deadline, revokes exactly the
-- leases past their expiry or of such a session, leaves every other entry as it is, and reports
-- exactly the leases that it revoked.
pub sweep-SweptAt :
    (gen_id : ℕ → String) (now : ℕ) (e : LeaseEngine)
    → IsConsistent gen_id e
    → SweptAt now e (sweep now e)
sweep-SweptAt gen_id now e h = record {
  sessions_ended = sessions-sweep gen_id e h now;
  leases_revoked = leases-sweep gen_id e h now;
  none_new = absent-sweep gen_id e h now;
  revoked_reported = reported-sweep gen_id e h now;
}

-- A lease that may be used.
pub record MayUse (now : ℕ) (e : LeaseEngine) (l : Lease) : Type 0 where
  pub session : Session
  pub session_found : get l.parent_session e.sessions ≡ some session
  pub session_is_live : session_live session now ≡ true
  pub not_expired : now < l.expires_at

not_due :
    (now : ℕ) (o : Option Session) (p : Session)
    → ended_if (found_that (session_due now) o) o ≡ some p
    → p.ended ≡ false
    → session_live p now ≡ true
not_due now none p g f = cc
not_due now (some q) p g f = elim (Bool-cases (session_due now q)) [
  | inl t ↦ absurd (
      let ended : some (ended_session q) ≡ some p = ap (λ b. ended_if b (some q)) (sym t) ∙ g in
      let same : ended_session q ≡ p = cc in
      let true_end : p.ended ≡ true = ap Session.ended (sym same) in cc)
  | inr t ↦
      (let kept : some q ≡ some p = ap (λ b. ended_if b (some q)) (sym t) ∙ g in
        let same : q ≡ p = cc in
        subst (λ x. session_live x now ≡ true) same
          (let n : q.ended ≡ false = ap Session.ended same ∙ f in ground arith))
]

not_doomed :
    (now : ℕ) (e : LeaseEngine) (l : Lease) (c : Bool) (k : Lease)
    → k ≡ marked_lease c l
    → k.revoked ≡ false
    → c ≡ doomed now e l
    → now < k.expires_at
unfolding doomed
not_doomed now e l true k h f g = absurd (cc)
not_doomed now e l false k h f g =
    subst (λ x. now < x.expires_at) (sym h)
      (let n : l.revoked ≡ false = ap Lease.revoked (sym h) ∙ f in ground arith)

-- After a `sweep` of a consistent engine, a lease that is not revoked has not expired, and its
-- session is live.
pub sweep-MayUse :
    (gen_id : ℕ → String) (now : ℕ) (e : LeaseEngine)
    → IsConsistent gen_id e
    → (id : String) (l : Lease) → get id (sweep now e).0.leases ≡ some l
    → l.revoked ≡ false
    → MayUse now (sweep now e).0 l
sweep-MayUse gen_id now e h id l g f =
    let w = (sweep-IsConsistent gen_id now e h).owned id l g in
    let not_ended : w.parent.ended ≡ false = elim (Bool-cases w.parent.ended) [
      | inl t ↦ absurd (let r = w.ended_revoked t in cc)
      | inr n ↦ n
    ] in
    record {
      session = w.parent;
      session_found = w.parent_found;
      session_is_live =
          not_due now (get l.parent_session e.sessions) w.parent
            (sym (sessions-sweep gen_id e h now l.parent_session) ∙ w.parent_found) not_ended;
      not_expired = elim (Option-cases (get id e.leases)) [
        | inl n ↦ absurd (let none_after = absent-sweep gen_id e h now id n in cc)
        | inr (k, old) ↦
            let after = leases-sweep gen_id e h now id k old in
            let same : l ≡ marked_lease (doomed now e k) k = cc in
            not_doomed now e k (doomed now e k) l same f refl
      ];
    }

-- The end of a session as a description of each entry.
pub record Ended (session : String) (e e' : LeaseEngine) (ids : List String) : Type 0 where
  pub session_ended_there :
      (id : String) → get id e'.sessions ≡ ended_if (session == id) (get id e.sessions)
  pub leases_cascade :
      (id : String) (l : Lease)
      → get id e.leases ≡ some l
      → get id e'.leases ≡ some (marked_lease (session == l.parent_session) l)
  pub cascade_reported :
      (id : String) (l : Lease)
      → get id e.leases ≡ some l
      → contains id ids ≡ (session == l.parent_session && is_live l)

-- On a consistent engine `end_session` of a session that exists succeeds; it ends that session,
-- revokes every lease of it and no other, and reports exactly the leases that were live.
pub end_session-Ended :
    (gen_id : ℕ → String) (e : LeaseEngine)
    → IsConsistent gen_id e
    → (session : String) (s : Session) → get session e.sessions ≡ some s
    → (ids : List String) × ((end_session session e).1 ≡ done ids)
      × Ended session e (end_session session e).0 ids
unfolding end_session end_in
end_session-Ended gen_id e h session s g = rw g (
  (end_found session e s).1,
  refl,
  record {
    session_ended_there = sessions-end_found gen_id e h session s g;
    leases_cascade = leases-end_found gen_id e h session s g;
    cascade_reported = reported-end_found gen_id e h session s g;
  },
)
