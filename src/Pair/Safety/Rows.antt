-- ===== src/Pair/Safety/Rows.antt =====
-- The rows that a page of the journal reads, and the walk of a checkpoint over the last of them
-- (replication/fixed-pair/src/journal.rs and checkpoint.rs).
use terrapi_vault.Common.{
  ltb, leb, eqb, if◌then◌else◌, eqb_iff, Bool-cases, if-cases, if-split, PartialEq, ◌==◌, bool_eq,
  option_eq, list_eq, string_eq, nat_eq, ok, bind-eq-ok, then-eq-ok, ensure-eq-ok, check-eq-ok,
  ok_injective, i64_max, ℕ, zero, suc, ◌+◌, ◌-◌, ◌≡◌, refl, sym, ap, subst, ◌∙◌, ◌⊎◌, inl, inr,
  true, false, not, ◌&&◌, ◌||◌, none, List, [], ◌∷◌, ◌++◌, arith,
}
use terrapi_vault.Common.Lists.{length, All}
use terrapi_vault.Pair.Model.{
  Identity, identity_eq, Role, applied, state_beq, Entry, Checkpoint, checkpoint_eq,
  OperationReceipt, receipt_eq,
}
use terrapi_vault.Pair.Tables.{
  Adapter, Node, max_page_bytes, is_empty, base_sequence, positive_keys,
}
use terrapi_vault.Pair.Store.{validate, validate_entry}
use terrapi_vault.Pair.Checkpoints.{
  rows_between, Walk, check_base, walk_entry, walk_entries, walk_start, calculate, current,
}
use terrapi_vault.Pair.History.{Numbered, In, In_bound}
use terrapi_vault.Pair.Agreement.{Copy}
use terrapi_vault.Pair.Pages.{
  JournalHead, head_beq, JournalPage, good_cursor, journal_head, validate_rows, validate_page,
  read_rows, journal_page,
}

module _ {C : Type 0} where
  -- Entries of a page above `log`, which end with the open entry when that is among them.
  abbrev pub Among : List (Entry C) → Entry C → List (Entry C) → Type 0
  Among log tip [] = Unit
  Among log tip (e ∷ rows) = (In e log × Among log tip rows) ⊎ ((e ≡ tip) × (rows ≡ []))

  pub rows_between-In :
      (until floor : ℕ) (whole log acc : List (Entry C))
      → ((e : Entry C) → In e log → In e whole)
      → All (λ e. In e whole) acc
      → All (λ e. In e whole) (rows_between until floor log acc)
  rows_between-In until floor whole [] acc sub h = h
  rows_between-In until floor whole (e ∷ log) acc sub h =
      rows_between-In until floor whole log _ (λ x m. sub x (inr m))
        (if-cases (All (λ x. In x whole)) (leb e.sequence until && ltb floor e.sequence)
          (λ _. (sub e (inl refl), h)) (λ _. h))

  -- What is read into the accumulator stays at the end.
  pub rows_between-append :
      (until floor : ℕ) (log acc more : List (Entry C))
      → rows_between until floor log (acc ++ more) ≡ rows_between until floor log acc ++ more
  rows_between-append until floor [] acc more = refl
  rows_between-append until floor (e ∷ log) acc more =
      elim (Bool-cases (leb e.sequence until && ltb floor e.sequence)) [
        | inl t ↦ rw t (rows_between-append until floor log (e ∷ acc) more)
        | inr t ↦ rw t (rows_between-append until floor log acc more)
      ]

module _ {C V : Type 0} (adapter : Adapter C V) where
  pub read_rows-All :
      (P : Entry C → Type 0) (limit bytes : ℕ) (rows entries : List (Entry C))
      → read_rows adapter limit bytes rows ≡ ok entries
      → All P rows
      → All P entries
  unfolding read_rows
  read_rows-All P zero bytes rows entries r h = subst (All P) (ok_injective [] entries r) tt
  read_rows-All P (suc limit) bytes [] entries r h = subst (All P) (ok_injective [] entries r) tt
  read_rows-All P (suc limit) bytes (e ∷ rows) entries r (here, there) =
      let (_, r1) = ensure-eq-ok (ltb (adapter.json_len e) max_page_bytes) _ _ r in
      elim (if-split (ltb max_page_bytes (bytes + adapter.json_len e + 1)) (ok []) _ r1) [
        | inl (_, q) ↦ subst (All P) (ok_injective [] entries q) tt
        | inr (_, q) ↦
            let (more, q1, q2) =
              bind-eq-ok (read_rows adapter limit (bytes + adapter.json_len e + 1) rows) _ q in
            subst (All P) (ok_injective (e ∷ more) entries q2)
              (here, read_rows-All P limit (bytes + adapter.json_len e + 1) rows more q1 there)
      ]

  -- Numbered rows of a journal: only the last of them can be the tip.
  pub validate_rows-Among :
      (identity : Identity) (log : List (Entry C)) (tip : Entry C) (after bytes : ℕ)
      → (entries : List (Entry C)) → Numbered (tip ∷ log)
      → All (λ e. In e (tip ∷ log)) entries
      → validate_rows adapter identity after bytes entries ≡ ok tt
      → Among log tip entries
  unfolding validate_rows
  validate_rows-Among identity log tip after bytes [] n h v = tt
  validate_rows-Among identity log tip after bytes (e ∷ []) n (inl same, h) v = inr (same, refl)
  validate_rows-Among identity log tip after bytes (e ∷ []) n (inr m, h) v = inl (m, tt)
  validate_rows-Among identity log tip after bytes (e ∷ x ∷ rows) n (m, h) v =
      let (s, v1) = ensure-eq-ok (eqb e.sequence (suc after)) _ _ v in
      let (_, v2) = check-eq-ok (validate adapter e identity) _ v1 in
      let (_, v3) = ensure-eq-ok (leb (bytes + adapter.json_len e + 1) max_page_bytes) _ _ v2 in
      let (t, _) = ensure-eq-ok (eqb x.sequence (suc (suc after))) _ _ v3 in
      let rest =
        validate_rows-Among identity log tip (suc after) (bytes + adapter.json_len e + 1) (x ∷ rows)
          n h v3 in
      elim m [
        | inr old ↦ inl (old, rest)
        | inl same ↦
            let bound = In_bound x (tip ∷ log) n h.0 in
            let first_is = (eqb_iff e.sequence (suc after)).0 s in
            let next_is = (eqb_iff x.sequence (suc (suc after))).0 t in
            let tip_is : e.sequence ≡ suc (length log) =
              ap (λ (y : Entry C). y.sequence) same ∙ n.0 in
            absurd (omega (arith, bound, first_is, next_is, tip_is))
      ]

module _ {C V : Type 0} (adapter : Adapter C V) where
  -- A walk that ends on an open entry is pending.
  walk_entry_open :
      (n : Node C V) (w w' : Walk) (x : Entry C)
      → state_beq x.state applied ≡ false
      → walk_entry adapter n w x ≡ ok w'
      → w'.pending ≡ true
  unfolding walk_entry
  walk_entry_open n w w' x o h =
      let (_, h1) = ensure-eq-ok (not w.pending) _ _ h in
      let (_, h2) = ensure-eq-ok (x.batch.identity == n.identity) _ _ h1 in
      let (_, h3) =
        check-eq-ok (if state_beq x.state applied then ok tt else validate adapter x n.identity) _
          h2 in
      let (_, h4) = ensure-eq-ok (not (is_empty x.batch.operation_id)) _ _ h3 in
      let (_, _, h5) = then-eq-ok (validate_entry adapter n x) _ h4 in
      let (_, h6) =
        ensure-eq-ok (eqb x.sequence (suc w.applied_count) && (x.before == w.previous)) _ _ h5 in
      let left = ok_injective _ w' h6 in sym (ap (λ (y : Walk). y.pending) left) ∙ rw o refl

  pub walk_entries_open :
      (n : Node C V) (w w' : Walk) (rows : List (Entry C)) (x : Entry C)
      → state_beq x.state applied ≡ false
      → walk_entries adapter n w (rows ++ x ∷ []) ≡ ok w'
      → w'.pending ≡ true
  unfolding walk_entries
  walk_entries_open n w w' [] x o h =
      let (next, h1, h2) = bind-eq-ok (walk_entry adapter n w x) _ h in
      walk_entry_open n w w' x o (h1 ∙ h2)
  walk_entries_open n w w' (e ∷ rows) x o h =
      let (next, h1, h2) = bind-eq-ok (walk_entry adapter n w e) _ h in
      walk_entries_open n next w' rows x o h2

module _ {C V : Type 0} ⦃change_eq : PartialEq C⦄ (adapter : Adapter C V) (identity : Identity)
    {role : Role} {log : List (Entry C)} {view : V} {receipts : List OperationReceipt} where
  -- A quiescent checkpoint is refused while an entry is open.
  pub current_open :
      (x : Entry C) (n : Node C V) (checkpoint : Checkpoint)
      → Copy adapter identity role (x ∷ log) view receipts n
      → state_beq x.state applied ≡ false
      → leb x.sequence i64_max ≡ true
      → ltb 0 x.sequence ≡ true
      → current adapter n true ≡ ok checkpoint
      → ⊥
  unfolding current calculate
  current_open x n checkpoint c o b z h =
      let (k, h0, _) = bind-eq-ok (calculate adapter n true none) _ h in
      let (_, h1) = ensure-eq-ok (positive_keys n.replication_log) _ _ h0 in
      let (_, h2) = check-eq-ok (check_base adapter n n.replication_base) _ h1 in
      let rows = rows_between i64_max (base_sequence n.replication_base) n.replication_log [] in
      let (w, h4, h5) =
        bind-eq-ok (walk_entries adapter n (walk_start adapter n n.replication_base) rows) _ h2 in
      let (q, _) = ensure-eq-ok (not ((true || false) && w.pending)) _ _ h5 in
      let rows_are : rows ≡ rows_between i64_max 0 log [] ++ x ∷ [] =
        ap (λ y. rows_between i64_max (base_sequence y) n.replication_log []) c.baseless
        ∙ ap (λ y. rows_between i64_max 0 y []) c.logs
        ∙ rw (b, z) (rows_between-append i64_max 0 log [] (x ∷ [])) in
      let pending : w.pending ≡ true =
        walk_entries_open adapter n (walk_start adapter n n.replication_base) w
          (rows_between i64_max 0 log []) x o
          (ap (walk_entries adapter n (walk_start adapter n n.replication_base)) (sym rows_are)
            ∙ h4) in
      ground (arith, q, pending)

  -- A page holds rows of the journal, in order.
  pub journal_page-Copy :
      (n : Node C V) (head : JournalHead) (after limit : ℕ) (page : JournalPage C)
      → Copy adapter identity role log view receipts n
      → journal_page adapter n head after limit ≡ ok page
      → All (λ e. In e log) page.entries
        × (validate_rows adapter head.identity after 0 page.entries ≡ ok tt)
  unfolding journal_page validate_page
  journal_page-Copy n head after limit page c h =
      let (_, h1) = ensure-eq-ok (good_cursor head after limit) _ _ h in
      let (now, _, h2) = bind-eq-ok (journal_head adapter n) _ h1 in
      let (_, h3) = ensure-eq-ok (head_beq now head) _ _ h2 in
      let rows = rows_between i64_max after n.replication_log [] in
      let (entries, r, h4) = bind-eq-ok (read_rows adapter limit 0 rows) _ h3 in
      let made : JournalPage C = record { head = head; after = after; entries = entries } in
      let (v, h5) = check-eq-ok (validate_page adapter made head after limit) _ h4 in
      let (_, v1) = ensure-eq-ok (good_cursor head after limit) _ _ v in
      let (_, v2) = ensure-eq-ok (head_beq head head && eqb after after) _ _ v1 in
      let (_, v3) =
        ensure-eq-ok (leb (length entries) limit && leb (length entries) (head.length - after)) _ _
          v2 in
      let (_, v4) = ensure-eq-ok (not (eqb (length entries) 0) || eqb after head.length) _ _ v3 in
      let inside : All (λ e. In e log) rows =
        rows_between-In i64_max after log n.replication_log [] (λ e m. subst (In e) c.logs m) tt in
      subst
        (λ (x : JournalPage C).
          All (λ e. In e log) x.entries
          × (validate_rows adapter head.identity after 0 x.entries ≡ ok tt))
        (ok_injective made page h5)
        (read_rows-All adapter (λ e. In e log) limit 0 rows entries r inside, v4)
