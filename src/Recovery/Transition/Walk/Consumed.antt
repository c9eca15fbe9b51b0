-- ===== src/Recovery/Transition/Walk/Consumed.antt =====
-- The revisions that a part of the walk consumes (replication/recovery/src/transition.rs).
use terrapi_vault.Common.{
  ltb, leb, eqb, if◌then◌else◌, if-cases, Option-cases, Result, ok, bind-eq-ok, ensure-eq-ok,
  check-eq-ok, any, All, checked_add, ℕ, ◌+◌, ◌≤◌, ◌≡◌, refl, sym, ap, subst, ◌∙◌, inl, inr, Bool,
  not, ◌&&◌, ◌||◌, Option, none, some, List, [], ◌∷◌, arith,
}
use terrapi_vault.Recovery.Transition.{Request, JournalScope}
use terrapi_vault.Recovery.Transition.Tokens.{Trust, Crates}
use terrapi_vault.Recovery.Transition.Store.{Record, AbortRecord, Row, is_aborted}
use terrapi_vault.Recovery.Transition.Walk.{
  Walk, is_completed, chains_to, chain_to, next_revision, undecided_abort, request_in_scope, chain,
  skip_aborts, rest_aborts, decided_abort, take_record,
}

-- The next free revision, as a number.
abbrev pub following : JournalScope → Option ℕ → ℕ
following scope none = scope.initial_revision
following scope (some r) = r + 1

pub next_revision-following :
    (scope : JournalScope) (o : Option ℕ) (n : ℕ)
    → next_revision scope o ≡ ok n
    → n ≡ following scope o
unfolding next_revision checked_add
next_revision-following scope none n h = ground arith
next_revision-following scope (some r) n h = ground arith

-- `a ≤ n < b`
abbrev pub between : ℕ → ℕ → ℕ → Bool
between a b n = leb a n && ltb n b

-- Has a row of the history this revision?
abbrev pub in_rows : {J : Type 0} → ℕ → List (Row J) → Bool
in_rows n rows = any (λ row. eqb row.0 n) rows

module _ (scope : JournalScope) where
  abbrev pub free : Walk → ℕ
  free w = following scope w.consumed

  undecided_abort-next :
      (r : AbortRecord) (consumed : Option ℕ) (effective : Option Record)
      → undecided_abort scope r consumed effective ≡ ok tt
      → r.abort.aborted_revision ≡ following scope consumed
  unfolding undecided_abort
  undecided_abort-next r consumed effective h =
      let (expected, e1, h1) = bind-eq-ok (next_revision scope consumed) _ h in
      let (t, _) =
        ensure-eq-ok (not r.abort.decided && eqb r.abort.aborted_revision expected) _ _ h1 in
      let e = next_revision-following scope consumed expected e1 in ground arith

  -- The keys of the pending aborts are their revisions.
  abbrev pub Fits : List (ℕ × AbortRecord) → Type 0
  Fits pending = All (λ x. x.0 ≡ x.1.abort.aborted_revision) pending

  -- A part of the walk has consumed what is no longer pending.
  pub record Consumed (before w : Walk) (pending : List (ℕ × AbortRecord)) : Type 0 where
    pub grows : free before ≤ free w
    pub fits : Fits w.pending
    pub exactly :
        (n : ℕ)
        → is_aborted n pending ≡ (between (free before) (free w) n || is_aborted n w.pending)

  pub skip_aborts-Consumed :
      (revision : ℕ) (w w' : Walk) (pending : List (ℕ × AbortRecord))
      → Fits pending
      → skip_aborts scope revision w pending ≡ ok w'
      → Consumed w w' pending
  unfolding skip_aborts
  skip_aborts-Consumed revision w w' [] f = λ h.
      let same : (record w { pending = [] }) ≡ w' = cc in
      subst (λ x. Consumed w x []) same
        (record { grows = omega arith; fits = tt; exactly = λ n. ground arith })
  skip_aborts-Consumed revision w w' ((a, r) ∷ pending) (e, f) =
      if-cases (λ (x : Result Walk). x ≡ ok w' → Consumed w w' ((a, r) ∷ pending)) (ltb a revision)
        (λ below. λ h.
          let (u, h1) = check-eq-ok (undecided_abort scope r w.consumed w.effective) _ h in
          let next = undecided_abort-next r w.consumed w.effective u in
          let rest =
            skip_aborts-Consumed revision (record w { consumed = some a }) w' pending f h1 in
          let more = rest.grows in
          record {
            grows = omega (arith, e, next, more);
            fits = rest.fits;
            exactly = λ n. (let x = rest.exactly n in ground (arith, e, next, more, x));
          })
        (λ _. λ h.
          let same : (record w { pending = (a, r) ∷ pending }) ≡ w' = cc in
          subst (λ x. Consumed w x ((a, r) ∷ pending)) same
            (record { grows = omega arith; fits = (e, f); exactly = λ n. ground arith }))

  pub rest_aborts-Consumed :
      (w w' : Walk) (pending : List (ℕ × AbortRecord))
      → Fits pending
      → rest_aborts scope w pending ≡ ok w'
      → (free w ≤ free w') × ((n : ℕ) → is_aborted n pending ≡ between (free w) (free w') n)
  unfolding rest_aborts
  rest_aborts-Consumed w w' [] f h =
      let same : (record w { pending = [] }) ≡ w' = cc in
      let equal : free w' ≡ free w = ap free (sym same) in
      (omega (arith, equal), λ n. ground (arith, equal))
  rest_aborts-Consumed w w' ((a, r) ∷ pending) (e, f) h =
      let (u, h1) = check-eq-ok (undecided_abort scope r w.consumed w.effective) _ h in
      let next = undecided_abort-next r w.consumed w.effective u in
      let (more, rest) = rest_aborts-Consumed (record w { consumed = some a }) w' pending f h1 in
      (omega (arith, e, next, more), λ n. (let x = rest n in ground (arith, e, next, more, x)))

  pub chain-following :
      (head : Option Record) (consumed : Option ℕ) (q : Request)
      → chain scope head consumed q ≡ ok tt
      → q.revision ≡ following scope consumed
  unfolding chain chain_to
  chain-following head consumed q h =
      let (_, h1) = ensure-eq-ok (request_in_scope scope q) _ _ h in
      let (n, e, h2) = bind-eq-ok (next_revision scope consumed) _ h1 in
      let same = next_revision-following scope consumed n e in
      elim (Option-cases head) [
        | inl none_there ↦
            let k : chain_to none q n ≡ ok tt = ap (λ o. chain_to o q n) (sym none_there) ∙ h2 in
            ground arith
        | inr (p, there) ↦
            let k : chain_to (some p) q n ≡ ok tt = ap (λ o. chain_to o q n) (sym there) ∙ h2 in
            let (t, _) =
              ensure-eq-ok (is_completed p && eqb q.revision n && chains_to q p.request) _ _ k in
            ground arith
      ]

module _ (crates : Crates) (scope : JournalScope) (trust : Trust) where
  -- The record's revision is consumed, and an abort there with it.
  pub record Taken (revision : ℕ) (w w' : Walk) (pending : List (ℕ × AbortRecord)) : Type 0 where
    pub same_consumed : w'.consumed ≡ w.consumed
    pub fits : Fits scope w'.pending
    pub exactly :
        (n : ℕ)
        → (is_aborted n pending || eqb revision n) ≡ (is_aborted n w'.pending || eqb revision n)

  taken :
      (revision : ℕ) (w w' : Walk) (pending left : List (ℕ × AbortRecord))
      → w'.consumed ≡ w.consumed
      → left ≡ w'.pending
      → Fits scope left
      → ((n : ℕ) → (is_aborted n pending || eqb revision n) ≡ (is_aborted n left || eqb revision n))
      → Taken revision w w' pending
  taken revision w w' pending left c p f x = record {
    same_consumed = c;
    fits = subst (Fits scope) p f;
    exactly = λ n. x n ∙ ap (λ l. is_aborted n l || eqb revision n) p;
  }

  pub take_record-Taken :
      (r : Record) (w w' : Walk) (pending : List (ℕ × AbortRecord))
      → w.pending ≡ pending
      → Fits scope pending
      → take_record crates trust r w pending ≡ ok w'
      → Taken r.request.revision w w' pending
  unfolding take_record
  take_record-Taken r w w' [] p f = λ h.
      let same : (record w {
        effective = some r;
        completed = if is_completed r then some r else w.completed;
      })
          ≡ w' =
        cc in
      taken r.request.revision w w' [] [] (sym (ap Walk.consumed same))
        (sym p ∙ ap Walk.pending same) f (λ n. refl)
  take_record-Taken r w w' ((a, x) ∷ pending) p f =
      if-cases (λ (y : Result Walk). y ≡ ok w' → Taken r.request.revision w w' ((a, x) ∷ pending))
        (eqb a r.request.revision)
        (λ here. λ h.
          let (_, h1) = check-eq-ok (decided_abort crates trust x.abort r) _ h in
          let same : (record w { pending = pending }) ≡ w' = cc in
          taken r.request.revision w w' ((a, x) ∷ pending) pending (sym (ap Walk.consumed same))
            (ap Walk.pending same) f.1 (λ n. ground arith))
        (λ _. λ h.
          let same : (record w {
            effective = some r;
            completed = if is_completed r then some r else w.completed;
          })
              ≡ w' =
            cc in
          taken r.request.revision w w' ((a, x) ∷ pending) ((a, x) ∷ pending)
            (sym (ap Walk.consumed same)) (sym p ∙ ap Walk.pending same) f (λ n. refl))
