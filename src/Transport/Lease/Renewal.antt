-- ===== src/Transport/Lease/Renewal.antt =====
-- What `renew` grants (services/vesta-transport/src/lease.rs).
use terrapi_vault.Common.{
  leb, if-cases, get, get-insert, ℕ, ◌+◌, ◌-◌, ◌≤◌, ◌<◌, String, ◌≡◌, refl, sym, ap, ◌∙◌, true,
  false, not, Option, none, some, arith,
}
use terrapi_vault.Transport.Lease.{
  u64_max, min, saturating_add, Session, Lease, Outcome, done, LeaseEngine, session_live, touch,
  renew_in, renew_found, renew,
}

-- When a lease may be renewed, and what a renewal by `increment` leaves.
pub record Renewed (now : ℕ) (id : String) (increment remaining : ℕ) (e e' : LeaseEngine)
    : Type 0 where
  pub lease : Lease
  pub lease_found : get id e.leases ≡ some lease
  pub was_live : lease.revoked ≡ false
  pub was_renewable : lease.renewable ≡ true
  pub not_expired : now < lease.expires_at
  pub session : Session
  pub session_found : get lease.parent_session e.sessions ≡ some session
  pub session_was_live : session_live session now ≡ true
  pub lease_after : get id e'.leases ≡ some (record lease { expires_at = now + remaining })
  pub within_increment : remaining ≤ increment
  pub within_ceiling : now + remaining ≤ lease.max_deadline
  pub within_session : now + remaining ≤ session.expires_at
  pub session_after : get lease.parent_session e'.sessions ≡ some (touch session now)

new_expiry : ℕ → ℕ → Lease → Session → ℕ
new_expiry now increment l s = min (saturating_add now increment) (min l.max_deadline s.expires_at)

not_past :
    (now increment : ℕ) (l : Lease) (s : Session)
    → now ≤ u64_max
    → now ≤ l.max_deadline
    → now ≤ s.expires_at
    → now ≤ new_expiry now increment l s
unfolding new_expiry
not_past now increment l s a b c = ground arith

expiry_bounds :
    (now increment : ℕ) (l : Lease) (s : Session)
    → (new_expiry now increment l s ≤ now + increment)
      × (new_expiry now increment l s ≤ l.max_deadline)
      × (new_expiry now increment l s ≤ s.expires_at)
unfolding new_expiry
expiry_bounds now increment l s = (ground arith, ground arith, ground arith)

back : (a b : ℕ) → a ≤ b → a + (b - a) ≡ b
back a b h = omega arith

module _ (now : ℕ) (id : String) (increment : ℕ) (e : LeaseEngine) (remaining : ℕ)
    (clock : now ≤ u64_max) where
  -- A result of `remaining` seconds is a renewal.
  abbrev Grants : LeaseEngine × Outcome ℕ → Type 0
  Grants r = r.1 ≡ done remaining → Renewed now id increment remaining e r.0

  Grants-renew_in :
      (l : Lease) (o : Option Session)
      → get id e.leases ≡ some l
      → get l.parent_session e.sessions ≡ o
      → l.revoked ≡ false
      → l.renewable ≡ true
      → now < l.expires_at
      → l.expires_at ≤ l.max_deadline
      → Grants (renew_in now id increment e l o)
  unfolding renew_in new_expiry
  Grants-renew_in l none g f r n t b = λ h. absurd (cc)
  Grants-renew_in l (some s) g f r n t b =
      if-cases Grants (session_live s now)
        (λ live. λ h.
          let x = new_expiry now increment l s in
          let (by_increment, by_ceiling, by_session) = expiry_bounds now increment l s in
          let after_now : now ≤ x =
            not_past now increment l s clock (omega (arith, t, b)) (ground arith) in
          let left : x - now ≡ remaining = cc in
          let sum : now + remaining ≡ x = ap (λ k. now + k) (sym left) ∙ back now x after_now in
          record {
            lease = l;
            lease_found = g;
            was_live = r;
            was_renewable = n;
            not_expired = t;
            session = s;
            session_found = f;
            session_was_live = live;
            lease_after =
                get-insert id (record l { expires_at = x }) e.leases
                ∙ ap (λ k. some (record l { expires_at = k })) (sym sum);
            within_increment = omega (arith, sum, by_increment);
            within_ceiling = omega (arith, sum, by_ceiling);
            within_session = omega (arith, sum, by_session);
            session_after = get-insert l.parent_session (touch s now) e.sessions;
          })
        (λ _. λ h. absurd (cc))

  Grants-renew_found :
      (o : Option Lease)
      → get id e.leases ≡ o
      → ((l : Lease) → get id e.leases ≡ some l → l.expires_at ≤ l.max_deadline)
      → Grants (renew_found now id increment e o)
  unfolding renew_found
  Grants-renew_found none g b = λ h. absurd (cc)
  Grants-renew_found (some l) g b =
      if-cases Grants l.revoked (λ _. λ h. absurd (cc))
        (λ live.
          if-cases Grants (not l.renewable) (λ _. λ h. absurd (cc))
            (λ may.
              if-cases Grants (leb l.expires_at now) (λ _. λ h. absurd (cc))
                (λ early.
                  Grants-renew_in l (get l.parent_session e.sessions) g refl live (ground arith)
                    (ground arith) (b l g))))

-- On a `u64` clock, for a lease whose expiry is not past its ceiling, a renewal that succeeds was of
-- a live, renewable, unexpired lease under a live session; the lease then expires `remaining`
-- seconds from now, which is no later than the increment asks, the ceiling and the session's expiry.
pub renew-Renewed :
    (now : ℕ) (id : String) (increment : ℕ) (e : LeaseEngine) (remaining : ℕ)
    → now ≤ u64_max
    → ((l : Lease) → get id e.leases ≡ some l → l.expires_at ≤ l.max_deadline)
    → (renew now id increment e).1 ≡ done remaining
    → Renewed now id increment remaining e (renew now id increment e).0
unfolding renew
renew-Renewed now id increment e remaining clock bounded h =
    Grants-renew_found now id increment e remaining clock (get id e.leases) refl bounded h
