-- ===== src/Transport/Lease/Revoked.antt =====
-- What the group revocations of the lease engine do to each entry
-- (services/vesta-transport/src/lease.rs).
use terrapi_vault.Common.{
  Bool-cases, ◌==◌, string_eq, contains, contains-append, Map, get, insert, get-insert,
  get-insert_other, found_that, same_entry, String, ◌≡◌, refl, sym, ap, ◌∙◌, inl, inr, Bool, true,
  not, ◌&&◌, ◌||◌, Option, none, some, List, [], ◌∷◌, arith,
}
use terrapi_vault.Transport.Lease.{Session, Lease, revoked_lease}
use terrapi_vault.Transport.Lease.Expiry.{revoke_live, revoke_each, ended_session}

-- An entry, revoked when the test holds.
abbrev pub revoked_if : Bool → Option Lease → Option Lease
revoked_if true (some l) = some (revoked_lease l)
revoked_if _ o = o

abbrev pub ended_if : Bool → Option Session → Option Session
ended_if true (some s) = some (ended_session s)
ended_if _ o = o

abbrev pub is_live : Lease → Bool
is_live l = not l.revoked

pub revoked_if_again :
    (a b : Bool) (o : Option Lease) → revoked_if b (revoked_if a o) ≡ revoked_if (a || b) o
revoked_if_again a b o = ground arith

pub ended_if_again :
    (a b : Bool) (o : Option Session) → ended_if b (ended_if a o) ≡ ended_if (a || b) o
ended_if_again a b o = ground arith

-- What is live before either of two rounds.
pub live_before :
    (a b : Bool) (o : Option Lease)
    → (a && found_that is_live o || b && found_that is_live (revoked_if a o))
      ≡ ((a || b) && found_that is_live o)
live_before a b o = ground arith

pub revoked_already : (l : Lease) → l.revoked ≡ true → revoked_lease l ≡ l
revoked_already l h = ap (λ b. record l { revoked = b }) (sym h)

pub get-revoke_live_at :
    (id key : String) (leases : Map Lease) (o : Option Lease)
    → get id leases ≡ o
    → get key (revoke_live id leases o).0 ≡ revoked_if (id == key) (get key leases)
unfolding revoke_live
get-revoke_live_at id key leases none h = elim (Bool-cases (id == key)) [
  | inl e ↦ rw (e, same_entry id key leases h e) refl
  | inr e ↦ rw e refl
]
get-revoke_live_at id key leases (some l) h = elim (Bool-cases l.revoked) [
  | inl r ↦ rw r (elim (Bool-cases (id == key)) [
    | inl e ↦ rw (e, same_entry id key leases h e) (ap some (sym (revoked_already l r)))
    | inr e ↦ rw e refl
  ])
  | inr r ↦ rw r (elim (Bool-cases (id == key)) [
    | inl e ↦
        let there =
          same_entry id key (insert id (revoked_lease l) leases)
            (get-insert id (revoked_lease l) leases) e in
        rw (e, there, same_entry id key leases h e) refl
    | inr e ↦ rw (e, get-insert_other id key (revoked_lease l) leases e) refl
  ])
]

get-revoke_live :
    (id key : String) (leases : Map Lease)
    → get key (revoke_live id leases (get id leases)).0 ≡ revoked_if (id == key) (get key leases)
get-revoke_live id key leases = get-revoke_live_at id key leases (get id leases) refl

contains-revoke_live_at :
    (id key : String) (leases : Map Lease) (o : Option Lease)
    → get id leases ≡ o
    → contains key (revoke_live id leases o).1 ≡ (id == key && found_that is_live (get key leases))
unfolding revoke_live
contains-revoke_live_at id key leases o h = elim (Bool-cases (id == key)) [
  | inl e ↦ rw (e, same_entry id key leases h e) (ground arith)
  | inr e ↦ rw e (ground arith)
]

contains-revoke_live :
    (id key : String) (leases : Map Lease)
    → contains key (revoke_live id leases (get id leases)).1
      ≡ (id == key && found_that is_live (get key leases))
contains-revoke_live id key leases = contains-revoke_live_at id key leases (get id leases) refl

-- Exactly the leases with the given ids are revoked.
pub get-revoke_each :
    (ids : List String) (key : String) (leases : Map Lease)
    → get key (revoke_each ids leases).0 ≡ revoked_if (contains key ids) (get key leases)
unfolding revoke_each
get-revoke_each [] key leases = refl
get-revoke_each (id ∷ ids) key leases =
    get-revoke_each ids key (revoke_live id leases (get id leases)).0
    ∙ ap (revoked_if (contains key ids)) (get-revoke_live id key leases)
    ∙ revoked_if_again (id == key) (contains key ids) (get key leases)

-- The ids returned are those whose lease was live before.
pub contains-revoke_each :
    (ids : List String) (key : String) (leases : Map Lease)
    → contains key (revoke_each ids leases).1
      ≡ (contains key ids && found_that is_live (get key leases))
unfolding revoke_each
contains-revoke_each [] key leases = refl
contains-revoke_each (id ∷ ids) key leases =
    let again = contains-revoke_each ids key (revoke_live id leases (get id leases)).0 in
    let one = contains-revoke_live id key leases in
    rw (contains-append, one, again, get-revoke_live) (ground arith)
