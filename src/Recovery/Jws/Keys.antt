-- ===== src/Recovery/Jws/Keys.antt =====
-- The key that a header names (`select_key`, and the key maps of replication/recovery/src/grant.rs and
-- replication/recovery/src/transition.rs).
use terrapi_vault.Common.{
  if-split, ◌==◌, bool_eq, option_eq, list_eq, string_eq, nat_eq, ok, ok_injective, All, Bytes,
  String, ◌≡◌, refl, sym, ap, subst, ◌≢◌, inl, inr, List, [], ◌∷◌, ◌++◌, arith,
}
use terrapi_vault.Recovery.Jws.{profile_eq, only_one, matching, select_key}

-- `key` stands under `kid` in `keys`, and no other entry there has this name.
pub record OnlyKey (kid : String) (keys : List (String × Bytes)) (key : Bytes) : Type 0 where
  pub before : List (String × Bytes)
  pub after : List (String × Bytes)
  pub entry : keys ≡ before ++ (kid, key) ∷ after
  pub other_before : All (λ x. x.0 ≢ kid) before
  pub other_after : All (λ x. x.0 ≢ kid) after

cons_injective : {A : Type 0} (x y : A) (xs ys : List A) → x ∷ xs ≡ y ∷ ys → (x ≡ y) × (xs ≡ ys)
cons_injective x y xs ys h = (cc, cc)

none_matching :
    (kid : String) (keys : List (String × Bytes))
    → matching kid keys ≡ []
    → All (λ x. x.0 ≢ kid) keys
unfolding matching
none_matching kid [] h = tt
none_matching kid ((k, key) ∷ keys) h = elim (if-split (k == kid) _ (matching kid keys) h) [
  | inl (_, clash) ↦ cc
  | inr (f, rest) ↦ (λ e. ground (arith, string_eq.test_iff k kid), none_matching kid keys rest)
]

matching-OnlyKey :
    (kid : String) (keys : List (String × Bytes)) (x : String × Bytes)
    → matching kid keys ≡ x ∷ []
    → OnlyKey kid keys x.1
unfolding matching
matching-OnlyKey kid [] x h = cc
matching-OnlyKey kid ((k, key) ∷ keys) x h = elim (if-split (k == kid) _ (matching kid keys) h) [
  | inl (t, here) ↦
      let (first_is, rest) = cons_injective (k, key) x (matching kid keys) [] here in
      let named : k ≡ kid = (string_eq.test_iff k kid).0 t in
      record {
        before = [];
        after = keys;
        entry = rw (sym first_is, named) refl;
        other_before = tt;
        other_after = none_matching kid keys rest;
      }
  | inr (f, rest) ↦
      let more = matching-OnlyKey kid keys x rest in
      record {
        before = (k, key) ∷ more.before;
        after = more.after;
        entry = ap (λ l. (k, key) ∷ l) more.entry;
        other_before = (λ e. ground (arith, string_eq.test_iff k kid), more.other_before);
        other_after = more.other_after;
      }
]

-- The key that is selected is the only one of its name.
pub select_key-OnlyKey :
    (kid : String) (keys : List (String × Bytes)) (key : Bytes)
    → select_key kid keys ≡ ok key
    → OnlyKey kid keys key
unfolding select_key
select_key-OnlyKey kid keys key h = cases (matching kid keys) refl h
  where
    cases :
        (found : List (String × Bytes))
        → matching kid keys ≡ found
        → only_one found ≡ ok key
        → OnlyKey kid keys key
    cases [] e k = cc
    cases ((a, b) ∷ []) e k =
        subst (OnlyKey kid keys) (ok_injective b key k) (matching-OnlyKey kid keys (a, b) e)
    cases (_ ∷ _ ∷ _) e k = cc
