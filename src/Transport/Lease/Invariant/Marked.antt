-- ===== src/Transport/Lease/Invariant/Marked.antt =====
-- Revocations and ends of sessions keep the maps consistent
-- (services/vesta-transport/src/lease.rs).
use terrapi_vault.Common.{
  contains, Map, get, Keyed, ℕ, ◌≤◌, String, ◌≡◌, refl, sym, ap, subst, ◌∙◌, Bool, true, false,
  Option, none, some,
}
use terrapi_vault.Transport.Lease.{Session, Lease, LeaseEngine, revoked_lease}
use terrapi_vault.Transport.Lease.Expiry.{ended_session}
use terrapi_vault.Transport.Lease.Revoked.{revoked_if, ended_if}
use terrapi_vault.Transport.Lease.Sweep.{child_in}
use terrapi_vault.Transport.Lease.Invariant.{Owned, Child, IsConsistent}

abbrev pub marked_lease : Bool → Lease → Lease
marked_lease true l = revoked_lease l
marked_lease false l = l

pub revoked_if-eq-some :
    (c : Bool) (o : Option Lease) (l : Lease)
    → revoked_if c o ≡ some l
    → (k : Lease) × (o ≡ some k) × (l ≡ marked_lease c k)
revoked_if-eq-some true (some k) l h = (k, refl, cc)
revoked_if-eq-some false (some k) l h = (k, refl, cc)
revoked_if-eq-some true none l h = cc
revoked_if-eq-some false none l h = cc

ended_if-eq-some :
    (b : Bool) (o : Option Session) (s : Session)
    → ended_if b o ≡ some s
    → (k : Session) × (o ≡ some k) × (s.children ≡ k.children)
ended_if-eq-some true (some k) s h = (k, refl, cc)
ended_if-eq-some false (some k) s h = (k, refl, cc)
ended_if-eq-some true none s h = cc
ended_if-eq-some false none s h = cc

ended_if-none : (b : Bool) → ended_if b none ≡ none
ended_if-none true = refl
ended_if-none false = refl

pub revoked_if-none : (b : Bool) → revoked_if b none ≡ none
revoked_if-none true = refl
revoked_if-none false = refl

Owned-marked :
    (sessions sessions' : Map Session) (id : String) (b c : Bool) (l : Lease)
    (w : Owned sessions id l)
    → get l.parent_session sessions' ≡ ended_if b (some w.parent)
    → (b ≡ true → c ≡ true)
    → Owned sessions' id (marked_lease c l)
Owned-marked sessions sessions' id true true l w h f = record {
  parent = ended_session w.parent;
  parent_found = h;
  listed = w.listed;
  bounded = w.bounded;
  within = w.within;
  ended_revoked = λ _. refl;
}
Owned-marked sessions sessions' id true false l w h f = absurd (let impossible = f refl in cc)
Owned-marked sessions sessions' id false true l w h f = record {
  parent = w.parent;
  parent_found = h;
  listed = w.listed;
  bounded = w.bounded;
  within = w.within;
  ended_revoked = λ _. refl;
}
Owned-marked sessions sessions' id false false l w h f = record {
  parent = w.parent;
  parent_found = h;
  listed = w.listed;
  bounded = w.bounded;
  within = w.within;
  ended_revoked = w.ended_revoked;
}

Child-marked :
    (leases leases' : Map Lease) (session id : String) (c : Bool) (w : Child leases session id)
    → get id leases' ≡ revoked_if c (some w.lease)
    → Child leases' session id
Child-marked leases leases' session id true w h = record {
  lease = revoked_lease w.lease;
  lease_found = h;
  of_session = w.of_session;
}
Child-marked leases leases' session id false w h = record {
  lease = w.lease;
  lease_found = h;
  of_session = w.of_session;
}

-- The sessions in `ended` are ended, and the leases in `revoked` are revoked.
pub record Marked (ended revoked : String → Bool) (e e' : LeaseEngine) : Type 0 where
  pub same_calls : e'.calls ≡ e.calls
  pub sessions_keyed_still : Keyed Session.id e.sessions → Keyed Session.id e'.sessions
  pub leases_keyed_still : Keyed Lease.id e.leases → Keyed Lease.id e'.leases
  pub at_session : (id : String) → get id e'.sessions ≡ ended_if (ended id) (get id e.sessions)
  pub at_lease : (id : String) → get id e'.leases ≡ revoked_if (revoked id) (get id e.leases)

module _ (gen_id : ℕ → String) (ended revoked : String → Bool) (e e' : LeaseEngine)
    (m : Marked ended revoked e e')
    (cascade : (session id : String)
      → ended session ≡ true
      → child_in id (get session e.sessions) ≡ true
      → revoked id ≡ true) where
  Owned-Marked :
      IsConsistent gen_id e
      → (id : String) (l : Lease) → get id e'.leases ≡ some l
      → Owned e'.sessions id l
  Owned-Marked h id l g =
      let (k, found, same) =
        revoked_if-eq-some (revoked id) (get id e.leases) l (sym (m.at_lease id) ∙ g) in
      let w = h.owned id k found in
      subst (Owned e'.sessions id) (sym same) (
        Owned-marked e.sessions e'.sessions id (ended k.parent_session) (revoked id) k w
          (m.at_session k.parent_session ∙ ap (ended_if (ended k.parent_session)) w.parent_found)
          (λ t. cascade k.parent_session id t (ap (child_in id) w.parent_found ∙ w.listed)))

  Child-Marked :
      IsConsistent gen_id e
      → (session id : String) (s : Session) → get session e'.sessions ≡ some s
      → contains id s.children ≡ true
      → Child e'.leases session id
  Child-Marked h session id s g c =
      let (k, found, same) =
        ended_if-eq-some (ended session) (get session e.sessions) s
          (sym (m.at_session session) ∙ g) in
      let w = h.children_known session id k found (ap (contains id) (sym same) ∙ c) in
      Child-marked e.leases e'.leases session id (revoked id) w
        (m.at_lease id ∙ ap (revoked_if (revoked id)) w.lease_found)

  -- Marking keeps the engine consistent when the leases of an ended session are among the revoked.
  pub Marked-IsConsistent : IsConsistent gen_id e → IsConsistent gen_id e'
  Marked-IsConsistent h = record {
    sessions_keyed = m.sessions_keyed_still h.sessions_keyed;
    leases_keyed = m.leases_keyed_still h.leases_keyed;
    owned = Owned-Marked h;
    children_known = Child-Marked h;
    unused = λ n le.
        let (a, b) = h.unused n (subst (λ c. c ≤ n) m.same_calls le) in
        (
          m.at_session (gen_id n)
              ∙ ap (ended_if (ended (gen_id n))) a
              ∙ ended_if-none (ended (gen_id n)),
          m.at_lease (gen_id n)
              ∙ ap (revoked_if (revoked (gen_id n))) b
              ∙ revoked_if-none (revoked (gen_id n)),
        );
  }
