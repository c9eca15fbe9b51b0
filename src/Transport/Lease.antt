-- ===== src/Transport/Lease.antt =====
-- The lease and session engine (services/vesta-transport/src/lease.rs). The two hash maps are lists
-- of entries by key, and `gen_id`, which the broker injects, is the sequence of its answers. Times
-- are `u64`, with the saturating operations of the source written out.
pub mod Expiry
pub mod Revoked
pub mod Sweep
pub mod Invariant
pub mod Expired
pub mod Deadlines
pub mod Permanent
pub mod Renewal
use terrapi_vault.Common.{
  ltb, leb, if◌then◌else◌, Map, get, insert, ℕ, suc, ◌+◌, ◌-◌, ◌^◌, String, Bool, true, false, not,
  ◌&&◌, Option, none, some, List, [], ◌∷◌, ◌++◌,
}

abbrev pub u64_max : ℕ
u64_max = 2 ^ 64 - 1

-- `a.min(b)`
abbrev pub min : ℕ → ℕ → ℕ
min a b = if leb a b then a else b

-- `a.saturating_add(b)`
abbrev pub saturating_add : ℕ → ℕ → ℕ
saturating_add a b = min (a + b) u64_max

pub record Session : Type 0 where
  pub id : String
  pub expires_at : ℕ
  pub idle_deadline : ℕ
  pub idle_timeout_secs : ℕ
  pub children : List String
  pub ended : Bool

pub record Lease : Type 0 where
  pub id : String
  pub parent_session : String
  pub expires_at : ℕ
  pub max_deadline : ℕ
  pub renewable : Bool
  pub revoked : Bool

pub record SessionInfo : Type 0 where
  pub id : String
  pub expires_at : ℕ
  pub idle_deadline : ℕ
  pub child_count : ℕ

pub record Swept : Type 0 where
  pub ended_sessions : List String
  pub revoked_leases : List String

pub data LeaseError : Type 0 where
  no_such_session no_such_lease session_ended not_renewable already_revoked : LeaseError

-- `Result<T, LeaseError>`
pub data Outcome (T : Type 0) : Type 0 where
  failed : (error : LeaseError) → Outcome T
  done : (value : T) → Outcome T

-- `calls` counts the calls of `gen_id`.
pub record LeaseEngine : Type 0 where
  pub sessions : Map Session
  pub leases : Map Lease
  pub calls : ℕ

-- `LeaseEngine::new`
unfoldable pub new : LeaseEngine
new = record { sessions = []; leases = []; calls = 0 }

abbrev pub session_live : Session → ℕ → Bool
session_live s now = not s.ended && ltb now s.expires_at && ltb now s.idle_deadline

abbrev pub touch : Session → ℕ → Session
touch s now = record s { idle_deadline = min (saturating_add now s.idle_timeout_secs) s.expires_at }

abbrev pub revoked_lease : Lease → Lease
revoked_lease l = record l { revoked = true }

-- A session with no leases yet.
abbrev pub opened : String → (now ttl_secs idle_timeout_secs : ℕ) → Session
opened id now ttl_secs idle_timeout_secs = record {
  id = id;
  expires_at = saturating_add now ttl_secs;
  idle_deadline = saturating_add now idle_timeout_secs;
  idle_timeout_secs = idle_timeout_secs;
  children = [];
  ended = false;
}

abbrev pub issued : String → Session → String → (now ttl_secs max_ttl_secs : ℕ) → Bool → Lease
issued id s session now ttl_secs max_ttl_secs renewable =
    let max_deadline = min (saturating_add now max_ttl_secs) s.expires_at in
    record {
      id = id;
      parent_session = session;
      expires_at = min (saturating_add now ttl_secs) max_deadline;
      max_deadline = max_deadline;
      renewable = renewable;
      revoked = false;
    }

abbrev pub with_child : Session → String → Session
with_child s id = record s { children = s.children ++ id ∷ [] }

module _ (gen_id : ℕ → String) where
  unfoldable pub open_session :
      (now ttl_secs idle_timeout_secs : ℕ) → LeaseEngine → LeaseEngine × String
  open_session now ttl_secs idle_timeout_secs e =
      let id = gen_id e.calls in
      (
        record e {
          sessions = insert id (opened id now ttl_secs idle_timeout_secs) e.sessions;
          calls = suc e.calls;
        },
        id,
      )

  unfoldable pub issue_in :
      (now : ℕ)
      → String
      → (ttl_secs max_ttl_secs : ℕ) → Bool
      → LeaseEngine
      → Option Session
      → LeaseEngine × Outcome String
  issue_in now session ttl_secs max_ttl_secs renewable e none = (e, failed no_such_session)
  issue_in now session ttl_secs max_ttl_secs renewable e (some s) =
      let id = gen_id e.calls in
      if session_live s now
      then (
        record {
          sessions = insert session (with_child (touch s now) id) e.sessions;
          leases = insert id (issued id s session now ttl_secs max_ttl_secs renewable) e.leases;
          calls = suc e.calls;
        },
        done id,
      )
      else (e, failed session_ended)

  unfoldable pub issue_lease :
      (now : ℕ)
      → String
      → (ttl_secs max_ttl_secs : ℕ) → Bool
      → LeaseEngine
      → LeaseEngine × Outcome String
  unfolding issue_in
  issue_lease now session ttl_secs max_ttl_secs renewable e =
      issue_in now session ttl_secs max_ttl_secs renewable e (get session e.sessions)

-- The last part of `renew`, for a lease that may be renewed and the session it belongs to.
unfoldable pub renew_in :
    (now : ℕ)
    → String
    → (increment : ℕ) → LeaseEngine
    → Lease
    → Option Session
    → LeaseEngine × Outcome ℕ
renew_in now id increment e l none = (e, failed session_ended)
renew_in now id increment e l (some s) =
    let expires_at = min (saturating_add now increment) (min l.max_deadline s.expires_at) in
    if session_live s now
    then (
      record e {
        leases = insert id (record l { expires_at = expires_at }) e.leases;
        sessions = insert l.parent_session (touch s now) e.sessions;
      },
      done (expires_at - now),
    )
    else (e, failed session_ended)

unfoldable pub renew_found :
    (now : ℕ) → String → (increment : ℕ) → LeaseEngine → Option Lease → LeaseEngine × Outcome ℕ
unfolding renew_in
renew_found now id increment e none = (e, failed no_such_lease)
renew_found now id increment e (some l) =
    if l.revoked
    then (e, failed already_revoked)
    else if not l.renewable
    then (e, failed not_renewable)
    else if leb l.expires_at now
    then (e, failed already_revoked)
    else renew_in now id increment e l (get l.parent_session e.sessions)

unfoldable pub renew : (now : ℕ) → String → (increment : ℕ) → LeaseEngine → LeaseEngine × Outcome ℕ
unfolding renew_found
renew now lease increment e = renew_found now lease increment e (get lease e.leases)

unfoldable pub revoke_found : String → LeaseEngine → Option Lease → LeaseEngine × Outcome (Unit {0})
revoke_found id e none = (e, failed no_such_lease)
revoke_found id e (some l) =
    if l.revoked
    then (e, failed already_revoked)
    else (record e { leases = insert id (revoked_lease l) e.leases }, done tt)

unfoldable pub revoke : String → LeaseEngine → LeaseEngine × Outcome (Unit {0})
unfolding revoke_found
revoke lease e = revoke_found lease e (get lease e.leases)
