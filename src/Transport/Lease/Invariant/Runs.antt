-- ===== src/Transport/Lease/Invariant/Runs.antt =====
-- Sequences of calls of the lease engine (services/vesta-transport/src/lease.rs).
use terrapi_vault.Common.{ℕ, String, refl, Bool, List, [], ◌∷◌}
use terrapi_vault.Transport.Lease.{LeaseEngine, new, open_session, issue_lease, renew, revoke}
use terrapi_vault.Transport.Lease.Expiry.{end_session, sweep}
use terrapi_vault.Transport.Lease.Invariant.{IsConsistent, Fresh}
use terrapi_vault.Transport.Lease.Invariant.Growth.{open_session-IsConsistent}
use terrapi_vault.Transport.Lease.Invariant.Issue.{issue_lease-IsConsistent}
use terrapi_vault.Transport.Lease.Invariant.Renew.{renew-IsConsistent}
use terrapi_vault.Transport.Lease.Invariant.Endings.{
  sweep-IsConsistent, end_session-IsConsistent, revoke-IsConsistent,
}

-- The calls that take the engine by `&mut self`.
pub data Call : Type 0 where
  opening : (now ttl_secs idle_timeout_secs : ℕ) → Call
  issuing : (now : ℕ) (session : String) (ttl_secs max_ttl_secs : ℕ) (renewable : Bool) → Call
  renewing : (now : ℕ) (lease : String) (increment : ℕ) → Call
  revoking : (lease : String) → Call
  ending : (session : String) → Call
  sweeping : (now : ℕ) → Call

module _ (gen_id : ℕ → String) where
  unfoldable pub perform : Call → LeaseEngine → LeaseEngine
  unfolding open_session issue_lease renew revoke end_session sweep
  perform (opening now ttl idle) e = (open_session gen_id now ttl idle e).0
  perform (issuing now session ttl max_ttl renewable) e =
      (issue_lease gen_id now session ttl max_ttl renewable e).0
  perform (renewing now lease increment) e = (renew now lease increment e).0
  perform (revoking lease) e = (revoke lease e).0
  perform (ending session) e = (end_session session e).0
  perform (sweeping now) e = (sweep now e).0

  -- The calls in their order.
  unfoldable pub run : LeaseEngine → List Call → LeaseEngine
  unfolding perform
  run e [] = e
  run e (x ∷ xs) = run (perform x e) xs

  module _ (fresh : Fresh gen_id) where
    pub perform-IsConsistent :
        (x : Call) (e : LeaseEngine) → IsConsistent gen_id e → IsConsistent gen_id (perform x e)
    unfolding perform
    perform-IsConsistent (opening now ttl idle) e h =
        open_session-IsConsistent gen_id fresh now ttl idle e h
    perform-IsConsistent (issuing now session ttl max_ttl renewable) e h =
        issue_lease-IsConsistent gen_id fresh now session ttl max_ttl renewable e h
    perform-IsConsistent (renewing now lease increment) e h =
        renew-IsConsistent gen_id now lease increment e h
    perform-IsConsistent (revoking lease) e h = revoke-IsConsistent gen_id lease e h
    perform-IsConsistent (ending session) e h = end_session-IsConsistent gen_id session e h
    perform-IsConsistent (sweeping now) e h = sweep-IsConsistent gen_id now e h

    new-IsConsistent : IsConsistent gen_id new
    unfolding new
    new-IsConsistent = record {
      sessions_keyed = tt;
      leases_keyed = tt;
      owned = λ k l g. absurd (cc);
      children_known = λ k l s g. absurd (cc);
      unused = λ n _. (refl, refl);
    }

    run_from-IsConsistent :
        (e : LeaseEngine) (xs : List Call) → IsConsistent gen_id e → IsConsistent gen_id (run e xs)
    unfolding run
    run_from-IsConsistent e [] h = h
    run_from-IsConsistent e (x ∷ xs) h =
        run_from-IsConsistent (perform x e) xs (perform-IsConsistent x e h)

    -- With ids that never repeat, after any calls, failing ones included, every lease stands under a
    -- session that lists it, expires no later than its ceiling, which is no later than the expiry of
    -- the session, and is revoked if the session has ended; and every child listed is such a lease.
    pub run-IsConsistent : (xs : List Call) → IsConsistent gen_id (run new xs)
    run-IsConsistent xs = run_from-IsConsistent new xs new-IsConsistent
