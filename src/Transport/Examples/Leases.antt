-- ===== src/Transport/Examples/Leases.antt =====
-- The lease engine at concrete calls (services/vesta-transport/src/lease.rs).
use terrapi_vault.Common.{get, String, ◌≡◌, refl, subst, true, false, some, List, [], ◌∷◌, arith}
use terrapi_vault.Transport.Lease.{
  Session, Lease, done, LeaseEngine, new, revoked_lease, open_session, issue_in, issue_lease,
  renew_in, renew_found, renew,
}
use terrapi_vault.Transport.Lease.Expiry.{
  revoke_live, revoke_each, end_found, end_session, expire_one, expire_sessions, sweep,
}
use terrapi_vault.Transport.Lease.Invariant.{IsConsistent}
use terrapi_vault.Transport.Lease.Invariant.Runs.{
  Call, opening, issuing, renewing, revoking, perform, run, run-IsConsistent,
}
use terrapi_vault.Transport.Lease.Deadlines.{
  SweptAt, sweep-SweptAt, MayUse, sweep-MayUse, Ended, end_session-Ended,
}
use terrapi_vault.Transport.Lease.Permanent.{run-Stands}
use terrapi_vault.Transport.Lease.Renewal.{Renewed, renew-Renewed}
use terrapi_vault.Transport.Examples.Ids.{name, name-Fresh}
use terrapi_vault.Transport.Lease.Invariant.Endings.{sweep-IsConsistent}

-- A session of 28800 seconds, idle after 1800, with a renewable lease of 900 seconds.
abbrev opened_calls : List Call
opened_calls = opening 0 28800 1800 ∷ issuing 0 "id" 900 28800 true ∷ []

abbrev engine : LeaseEngine
engine = record {
  sessions =
      (
        "id",
        record {
          id = "id";
          expires_at = 28800;
          idle_deadline = 1800;
          idle_timeout_secs = 1800;
          children = "iid" ∷ [];
          ended = false;
        },
      )
      ∷ [];
  leases =
      (
        "iid",
        record {
          id = "iid";
          parent_session = "id";
          expires_at = 900;
          max_deadline = 28800;
          renewable = true;
          revoked = false;
        },
      )
      ∷ [];
  calls = 2;
}

engine_reached : run name new opened_calls ≡ engine
unfolding run perform new open_session issue_lease issue_in
engine_reached = refl

run-IsConsistent_example : IsConsistent name (run name new opened_calls)
run-IsConsistent_example = run-IsConsistent name name-Fresh opened_calls

engine-IsConsistent : IsConsistent name engine
engine-IsConsistent =
    subst (IsConsistent name) engine_reached (run-IsConsistent name name-Fresh opened_calls)

sweep-SweptAt_example : SweptAt 1900 engine (sweep 1900 engine)
sweep-SweptAt_example = sweep-SweptAt name 1900 engine engine-IsConsistent

abbrev lease : Lease
lease = record {
  id = "iid";
  parent_session = "id";
  expires_at = 900;
  max_deadline = 28800;
  renewable = true;
  revoked = false;
}

sweep-MayUse_example : MayUse 100 (sweep 100 engine).0 lease
unfolding sweep expire_sessions revoke_each
sweep-MayUse_example = sweep-MayUse name 100 engine engine-IsConsistent "iid" lease refl refl

abbrev session : Session
session = record {
  id = "id";
  expires_at = 28800;
  idle_deadline = 1800;
  idle_timeout_secs = 1800;
  children = "iid" ∷ [];
  ended = false;
}

end_session-Ended_example :
    (ids : List String) × ((end_session "id" engine).1 ≡ done ids)
    × Ended "id" engine (end_session "id" engine).0 ids
end_session-Ended_example = end_session-Ended name engine engine-IsConsistent "id" session refl

renew-Renewed_example : Renewed 500 "iid" 600 600 engine (renew 500 "iid" 600 engine).0
unfolding renew renew_found renew_in
renew-Renewed_example =
    renew-Renewed 500 "iid" 600 engine 600 (omega arith)
      (λ l g. (engine-IsConsistent.owned "iid" l g).bounded) refl

abbrev swept_engine : LeaseEngine
unfolding sweep
swept_engine = (sweep 1900 engine).0

swept-IsConsistent : IsConsistent name swept_engine
unfolding swept_engine sweep
swept-IsConsistent = sweep-IsConsistent name 1900 engine engine-IsConsistent

run-Stands_example :
    get "iid" (run name swept_engine (renewing 1901 "iid" 100 ∷ revoking "iid" ∷ [])).leases
    ≡ some (revoked_lease lease)
unfolding sweep expire_sessions expire_one end_found revoke_each revoke_live
run-Stands_example =
    run-Stands name name-Fresh swept_engine swept-IsConsistent
      (renewing 1901 "iid" 100 ∷ revoking "iid" ∷ []) "iid" (revoked_lease lease) refl refl
