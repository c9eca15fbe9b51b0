-- ===== src/Pair/Comparison.antt =====
-- The comparison of both journals ends (`recover` of replication/fixed-pair/src/lib.rs).
use terrapi_vault.Common.{
  ltb, leb, eqb, if◌then◌else◌, ltb→lt, if-split, PartialEq, bool_eq, option_eq, list_eq, string_eq,
  nat_eq, Result, err, ok, ensure-eq-ok, ok_injective, ℕ, zero, suc, ◌+◌, ◌-◌, ◌≤◌, ◌<◌, ◌≡◌, refl,
  ◌⊎◌, inl, inr, Bool, true, false, not, ◌&&◌, ◌||◌, none, some, arith,
}
use terrapi_vault.Common.Lists.{length}
use terrapi_vault.Pair.Model.{identity_eq, checkpoint_eq, receipt_eq}
use terrapi_vault.Pair.Tables.{Adapter, max_page_entries}
use terrapi_vault.Pair.Run.{
  Fault, World, Run, return, lift, on_primary, on_secondary, reading, after_step, ◌>>=◌,
}
use terrapi_vault.Pair.Protocol.{minimum, compare_entries, compare_journals}
use terrapi_vault.Pair.Pages.{
  JournalHead, head_beq, JournalPage, good_cursor, validate_page, journal_page,
}

module _ {C V T U : Type 0} where
  after-eq-ok :
      (r : World C V × Result T) (next : T → Run C V U) {u : U}
      → (after_step next r).1 ≡ ok u
      → (t : T) × (r.1 ≡ ok t) × ((next t r.0).1 ≡ ok u)
  after-eq-ok (w, err m) next h = cc
  after-eq-ok (w, ok t) next h = (t, refl, h)

  run-eq-ok :
      (m : Run C V T) (next : T → Run C V U) (w : World C V) {u : U}
      → ((m >>= next) w).1 ≡ ok u
      → (t : T) × ((m w).1 ≡ ok t) × ((next t (m w).0).1 ≡ ok u)
  unfolding ◌>>=◌
  run-eq-ok m next w h = after-eq-ok (m w) next h

module _ {C V U : Type 0} where
  branch-eq-ok :
      (b : Bool) (m n : Run C V U) (w : World C V) {u : U}
      → ((if b then m else n) w).1 ≡ ok u
      → ((b ≡ true) × ((m w).1 ≡ ok u)) ⊎ ((b ≡ false) × ((n w).1 ≡ ok u))
  branch-eq-ok true m n w h = inl (refl, h)
  branch-eq-ok false m n w h = inr (refl, h)

minimum_positive : (a b : ℕ) → 0 < a → 0 < b → 0 < minimum a b
minimum_positive a b h k = ground arith

lift-eq-ok :
    {C V T : Type 0} (r : Result T) (w : World C V) (t : T) → (lift r w).1 ≡ ok t → r ≡ ok t
unfolding lift
lift-eq-ok r w t h = h

module _ {C V : Type 0} (adapter : Adapter C V) where
  -- A valid page below the end of the journal is not empty.
  validate_page_lem :
      (page : JournalPage C) (head : JournalHead) (after limit : ℕ)
      → validate_page adapter page head after limit ≡ ok tt
      → after < head.length
      → 0 < length page.entries
  unfolding validate_page
  validate_page_lem page head after limit h l =
      let (_, h1) = ensure-eq-ok (good_cursor head after limit) _ _ h in
      let (_, h2) = ensure-eq-ok (head_beq page.head head && eqb page.after after) _ _ h1 in
      let (_, h3) =
        ensure-eq-ok
          (leb (length page.entries) limit && leb (length page.entries) (head.length - after)) _ _
          h2 in
      let (t, _) =
        ensure-eq-ok (not (eqb (length page.entries) 0) || eqb after head.length) _ _ h3 in
      nonempty (length page.entries) after head.length t l
    where
      nonempty : (n after end : ℕ) → (not (eqb n 0) || eqb after end) ≡ true → after < end → 0 < n
      nonempty n after end t l = ground arith

module _ {C V : Type 0} ⦃change_eq : PartialEq C⦄ (adapter : Adapter C V) (fault : ℕ → Fault) where
  -- With as much fuel as the secondary has entries above the cursor, the comparison of journals never
  -- runs out: every round moves the cursor or fails. The secondary's journal is not the longer one.
  pub compare_journals_terminates :
      (ph sh : JournalHead) (fuel cursor applied_prefix : ℕ) (w : World C V)
      → sh.length ≤ ph.length
      → sh.length ≤ cursor + fuel
      → ¬ ((compare_journals adapter fault ph sh fuel cursor applied_prefix w).1 ≡ ok none)
  unfolding compare_journals return lift
  compare_journals_terminates ph sh zero cursor applied_prefix w b f h =
      elim (if-split (ltb cursor sh.length) none (some applied_prefix) (ok_injective _ none h)) [
        | inl (t, _) ↦ let l = ltb→lt cursor sh.length t in absurd (omega (arith, l, f))
        | inr (_, clash) ↦ cc
      ]
  compare_journals_terminates ph sh (suc fuel) cursor applied_prefix w b f h =
      let limit = minimum (sh.length - cursor) max_page_entries in
      elim (branch-eq-ok (ltb cursor sh.length) _ (return (some applied_prefix)) w h) [
        | inr (_, clash) ↦ cc
        | inl (t, h0) ↦
            let (x, _, h1) =
              run-eq-ok (on_primary fault (reading (λ n. journal_page adapter n ph cursor limit))) _
                w h0 in
            let w1 =
              (on_primary fault (reading (λ n. journal_page adapter n ph cursor limit)) w).0 in
            let (y, _, h2) =
              run-eq-ok (on_secondary fault (reading (λ n. journal_page adapter n sh cursor limit)))
                _ w1 h1 in
            let w2 =
              (on_secondary fault (reading (λ n. journal_page adapter n sh cursor limit)) w1).0 in
            let (_, vx, h3) = run-eq-ok (lift (validate_page adapter x ph cursor limit)) _ w2 h2 in
            let (_, vy, h4) = run-eq-ok (lift (validate_page adapter y sh cursor limit)) _ w2 h3 in
            let (next, _, h5) =
              run-eq-ok (lift (compare_entries x.entries y.entries applied_prefix)) _ w2 h4 in
            let below = ltb→lt cursor sh.length t in
            let px = validate_page_lem adapter x ph cursor limit vx (omega (arith, below, b)) in
            let py = validate_page_lem adapter y sh cursor limit vy below in
            let moved = minimum_positive (length x.entries) (length y.entries) px py in
            compare_journals_terminates ph sh fuel
              (cursor + minimum (length x.entries) (length y.entries)) next w2 b
              (omega (arith, f, moved)) h5
      ]
