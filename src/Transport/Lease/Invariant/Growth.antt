-- ===== src/Transport/Lease/Invariant/Growth.antt =====
-- `open_session`, `issue_lease` and `renew` keep the engine consistent
-- (services/vesta-transport/src/lease.rs).
use terrapi_vault.Common.{
  Bool-cases, ◌==◌, eq→≡, string_eq, contains, Map, get, insert, get-insert, get-insert_other,
  get-insert_cases, Keyed-insert, same_entry, ℕ, suc, ◌≤◌, String, ◌≡◌, refl, sym, ap, subst, ◌∙◌,
  inl, inr, true, false, none, some, arith,
}
use terrapi_vault.Transport.Lease.{min, Session, Lease, LeaseEngine, opened, open_session}
use terrapi_vault.Transport.Lease.Invariant.{Owned, IsConsistent, Fresh}

pub min_left : (a b : ℕ) → min a b ≤ a
min_left a b = ground arith

pub min_right : (a b : ℕ) → min a b ≤ b
min_right a b = ground arith

-- A new key hides no entry.
pub still-insert :
    {V : Type 0} (id key : String) (x v : V) (map : Map V)
    → get id map ≡ none
    → get key map ≡ some v
    → get key (insert id x map) ≡ some v
still-insert id key x v map none_there g = elim (Bool-cases (id == key)) [
  | inl t ↦ absurd (let there = same_entry id key map none_there t in cc)
  | inr f ↦ get-insert_other id key x map f ∙ g
]

pub absent-insert :
    {V : Type 0} (id key : String) (x v : V) (map : Map V)
    → get id map ≡ some v
    → get key map ≡ none
    → get key (insert id x map) ≡ none
absent-insert id key x v map there g = elim (Bool-cases (id == key)) [
  | inl t ↦ absurd (let found = same_entry id key map there t in cc)
  | inr f ↦ get-insert_other id key x map f ∙ g
]

-- A session written again with the same expiry and end, and no child less.
pub record Rewritten (s s' : Session) : Type 0 where
  pub same_id : s'.id ≡ s.id
  pub same_expiry : s'.expires_at ≡ s.expires_at
  pub same_end : s'.ended ≡ s.ended
  pub children_still :
      (id : String) → contains id s.children ≡ true → contains id s'.children ≡ true

pub Owned-Rewritten :
    (session : String) (s s' : Session) (sessions : Map Session) (id : String) (l : Lease)
    → get session sessions ≡ some s
    → Rewritten s s'
    → Owned sessions id l
    → Owned (insert session s' sessions) id l
Owned-Rewritten session s s' sessions id l g r w = elim (Bool-cases (session == l.parent_session)) [
  | inl t ↦
      let there = same_entry session l.parent_session sessions g t in
      let same : w.parent ≡ s = (let found = w.parent_found in cc) in
      record {
        parent = s';
        parent_found =
            same_entry session l.parent_session (insert session s' sessions)
              (get-insert session s' sessions) t;
        listed = r.children_still id (subst (λ p. contains id p.children ≡ true) same w.listed);
        bounded = w.bounded;
        within =
            subst (λ n. l.max_deadline ≤ n) (sym r.same_expiry)
              (subst (λ p. l.max_deadline ≤ p.expires_at) same w.within);
        ended_revoked = λ e. w.ended_revoked (ap (λ p. p.ended) same ∙ sym r.same_end ∙ e);
      }
  | inr f ↦ record {
    parent = w.parent;
    parent_found = get-insert_other session l.parent_session s' sessions f ∙ w.parent_found;
    listed = w.listed;
    bounded = w.bounded;
    within = w.within;
    ended_revoked = w.ended_revoked;
  }
]

module _ (gen_id : ℕ → String) (fresh : Fresh gen_id) where
  other_id : (m n : ℕ) → suc m ≤ n → (gen_id m == gen_id n) ≡ false
  other_id m n h = elim (Bool-cases (gen_id m == gen_id n)) [
    | inl t ↦ absurd (let same = fresh m n (eq→≡ (gen_id m) (gen_id n) t) in omega arith)
    | inr f ↦ f
  ]

  pub unused-insert :
      {V : Type 0} (e : LeaseEngine) (v : V) (map : Map V) (n : ℕ)
      → suc e.calls ≤ n
      → get (gen_id n) map ≡ none
      → get (gen_id n) (insert (gen_id e.calls) v map) ≡ none
  unused-insert e v map n h g =
      get-insert_other (gen_id e.calls) (gen_id n) v map (other_id e.calls n h) ∙ g

  pub open_session-IsConsistent :
      (now ttl_secs idle_timeout_secs : ℕ) (e : LeaseEngine)
      → IsConsistent gen_id e
      → IsConsistent gen_id (open_session gen_id now ttl_secs idle_timeout_secs e).0
  unfolding open_session
  open_session-IsConsistent now ttl_secs idle_timeout_secs e h =
      let id = gen_id e.calls in
      let s = opened id now ttl_secs idle_timeout_secs in
      let (none_there, _) = h.unused e.calls (omega arith) in
      record {
        sessions_keyed = Keyed-insert Session.id id s e.sessions refl h.sessions_keyed;
        leases_keyed = h.leases_keyed;
        owned = λ k l g.
            (let w = h.owned k l g in
              record {
                parent = w.parent;
                parent_found =
                    still-insert id l.parent_session s w.parent e.sessions none_there
                      w.parent_found;
                listed = w.listed;
                bounded = w.bounded;
                within = w.within;
                ended_revoked = w.ended_revoked;
              });
        children_known = λ session k t g c. elim (get-insert_cases id session s t e.sessions g) [
          | inl (_, same) ↦ absurd (let no_child = ap (λ x. contains k x.children) same in cc)
          | inr (_, old) ↦ h.children_known session k t old c
        ];
        unused = λ n le.
            (let (a, b) = h.unused n (omega (arith, le)) in
              (unused-insert e s e.sessions n le a, b));
      }
