-- ===== src/Transport/Lease/Invariant.antt =====
-- The consistency of the two maps of the lease engine (services/vesta-transport/src/lease.rs).
pub mod Marked
pub mod Endings
pub mod Growth
pub mod Issue
pub mod Renew
pub mod Runs
use terrapi_vault.Common.{contains, Map, get, Keyed, ℕ, ◌≤◌, String, ◌≡◌, true, none, some}
use terrapi_vault.Transport.Lease.{Session, Lease, LeaseEngine}

-- A lease stands under its session: listed by it, within its bounds, and revoked when it has ended.
pub record Owned (sessions : Map Session) (id : String) (l : Lease) : Type 0 where
  pub parent : Session
  pub parent_found : get l.parent_session sessions ≡ some parent
  pub listed : contains id parent.children ≡ true
  pub bounded : l.expires_at ≤ l.max_deadline
  pub within : l.max_deadline ≤ parent.expires_at
  pub ended_revoked : parent.ended ≡ true → l.revoked ≡ true

pub record Child (leases : Map Lease) (session id : String) : Type 0 where
  pub lease : Lease
  pub lease_found : get id leases ≡ some lease
  pub of_session : lease.parent_session ≡ session

module _ (gen_id : ℕ → String) where
  pub record IsConsistent (e : LeaseEngine) : Type 0 where
    pub sessions_keyed : Keyed Session.id e.sessions
    pub leases_keyed : Keyed Lease.id e.leases
    pub owned : (id : String) (l : Lease) → get id e.leases ≡ some l → Owned e.sessions id l
    pub children_known :
        (session id : String) (s : Session)
        → get session e.sessions ≡ some s
        → contains id s.children ≡ true
        → Child e.leases session id
    pub unused :
        (n : ℕ)
        → e.calls ≤ n
        → (get (gen_id n) e.sessions ≡ none) × (get (gen_id n) e.leases ≡ none)

-- `gen_id` never repeats an id.
abbrev pub Fresh : (ℕ → String) → Type 0
Fresh gen_id = (m n : ℕ) → gen_id m ≡ gen_id n → m ≡ n
