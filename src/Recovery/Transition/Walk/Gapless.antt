-- ===== src/Recovery/Transition/Walk/Gapless.antt =====
-- The revisions of a journal that reads (replication/recovery/src/transition.rs).
use terrapi_vault.Common.{
  ltb, leb, eqb, eqb_iff, ok, bind-eq-ok, ensure-eq-ok, check-eq-ok, ok_injective, length, any, ℕ,
  ◌+◌, ◌≤◌, ◌<◌, ◌≡◌, refl, sym, ap, subst, ◌∙◌, Bool, false, not, ◌&&◌, ◌||◌, Option, none, some,
  List, [], ◌∷◌, ◌++◌, arith,
}
use terrapi_vault.Recovery.Model.{Id256}
use terrapi_vault.Recovery.Jws.{profile_beq}
use terrapi_vault.Recovery.Transition.{JournalScope, validate_abort}
use terrapi_vault.Recovery.Transition.Tokens.{
  Trust, Crates, verify_historical, verify_abort_historical,
}
use terrapi_vault.Recovery.Transition.Store.{
  Record, AbortRecord, Codec, Loss, Row, Db, max_record, max_abort_rows, has_id, is_aborted,
  abort_in_scope, ensure_journal_format, read_abort_row, read_abort_rows, read_abort_table,
  read_aborts,
}
use terrapi_vault.Recovery.Transition.Walk.{
  History, Walk, completion_fits, chain, skip_aborts, rest_aborts, step_row, walk_rows, start,
  last_of, read_with_revision, read,
}
use terrapi_vault.Recovery.Transition.Walk.Consumed.{
  following, between, in_rows, free, Fits, Consumed, skip_aborts-Consumed, rest_aborts-Consumed,
  chain-following, Taken, take_record-Taken,
}

module _ {J L : Type 0} (codec : Codec J) (loss : Loss L) (crates : Crates) (scope : JournalScope)
    (trust : Trust) where
  -- A part of the walk over the rows.
  record Walked (w w' : Walk) (rows : List (Row J)) : Type 0 where
    grows : free scope w ≤ free scope w'
    fits : Fits scope w'.pending
    exactly :
        (n : ℕ)
        → (is_aborted n w.pending || in_rows n rows)
          ≡ (between (free scope w) (free scope w') n || is_aborted n w'.pending)

  one_more :
      (a b c d n : ℕ) (p q r : Bool)
      → a ≤ b
      → c ≡ b
      → d ≡ c + 1
      → p ≡ (between a b n || q)
      → (q || eqb c n) ≡ (r || eqb c n)
      → (p || (eqb c n || false)) ≡ (between a d n || r)
  one_more a b c d n p q r le cb dc h k = ground arith

  row-Walked :
      (rev revision : ℕ) (rest : J × Id256) (w v x w' : Walk)
      → rev ≡ revision
      → x.consumed ≡ some rev
      → revision ≡ free scope v
      → Consumed scope w v w.pending
      → Taken crates scope trust revision x w' v.pending
      → Walked w w' ((rev, rest) ∷ [])
  row-Walked rev revision rest w v x w' e c next skipped t =
      let after : free scope w' ≡ rev + 1 = ap (following scope) (t.same_consumed ∙ c) in
      let here : rev ≡ free scope v = e ∙ next in
      let up = skipped.grows in
      record {
        grows = omega (arith, after, here, up);
        fits = t.fits;
        exactly = λ n.
            one_more (free scope w) (free scope v) rev (free scope w') n (is_aborted n w.pending)
              (is_aborted n v.pending) (is_aborted n w'.pending) up here after (skipped.exactly n)
              (subst
                (λ k. (is_aborted n v.pending || eqb k n) ≡ (is_aborted n w'.pending || eqb k n))
                (sym e) (t.exactly n));
      }

  step_row-Walked :
      (revision : Option ℕ) (w w' : Walk) (row : Row J)
      → Fits scope w.pending
      → step_row codec loss crates scope trust revision w row ≡ ok w'
      → Walked w w' (row ∷ [])
  unfolding step_row
  step_row-Walked revision w w' (rev, (json, digest)) f h =
      let (v, e1, h1) = bind-eq-ok (skip_aborts scope rev w w.pending) _ h in
      let (_, h2) = ensure-eq-ok (leb (codec.json_len json) max_record) _ _ h1 in
      let (_, h3) = ensure-eq-ok (eqb digest (codec.json_sha256 json)) _ _ h2 in
      let (r, _, h4) = bind-eq-ok (codec.parse_record json) _ h3 in
      let (_, h5) = ensure-eq-ok (completion_fits r r.completion) _ _ h4 in
      let (same, h6) = ensure-eq-ok (eqb rev r.request.revision) _ _ h5 in
      let (_, _, h7) = bind-eq-ok (verify_historical crates trust r.token r.request) _ h6 in
      let (_, h8) = ensure-eq-ok (not (has_id r.request.id v.ids)) _ _ h7 in
      let (e9, h9) = check-eq-ok (chain scope v.effective v.consumed r.request) _ h8 in
      let skipped = skip_aborts-Consumed scope rev w v w.pending f e1 in
      let next = chain-following scope v.effective v.consumed r.request e9 in
      let t = take_record-Taken crates scope trust r _ w' v.pending refl skipped.fits h9 in
      row-Walked rev r.request.revision (json, digest) w v _ w'
        ((eqb_iff rev r.request.revision).0 same) refl next skipped t

  join :
      (a b c n : ℕ) (p q r s t : Bool)
      → a ≤ b
      → b ≤ c
      → (p || (s || false)) ≡ (between a b n || q)
      → (q || t) ≡ (between b c n || r)
      → (p || (s || t)) ≡ (between a c n || r)
  join a b c n p q r s t ab bc h k = ground arith

  walk_rows-Walked :
      (revision : Option ℕ) (w w' : Walk) (rows : List (Row J))
      → Fits scope w.pending
      → walk_rows codec loss crates scope trust revision w rows ≡ ok w'
      → Walked w w' rows
  unfolding walk_rows
  walk_rows-Walked revision w w' [] f h =
      let same : w ≡ w' = cc in
      subst (λ x. Walked w x []) same
        (record { grows = omega arith; fits = f; exactly = λ n. ground arith })
  walk_rows-Walked revision w w' (row ∷ rows) f h =
      let (v, e, h1) = bind-eq-ok (step_row codec loss crates scope trust revision w row) _ h in
      let one = step_row-Walked revision w v row f e in
      let more = walk_rows-Walked revision v w' rows one.fits h1 in
      let a = one.grows in
      let b = more.grows in
      record {
        grows = omega (arith, a, b);
        fits = more.fits;
        exactly = λ n.
            join (free scope w) (free scope v) (free scope w') n (is_aborted n w.pending)
              (is_aborted n v.pending) (is_aborted n w'.pending) (eqb row.0 n) (in_rows n rows) a b
              (one.exactly n) (more.exactly n);
      }

  Fits-append :
      (before : List (ℕ × AbortRecord)) (n : ℕ) (r : AbortRecord)
      → Fits scope before
      → n ≡ r.abort.aborted_revision
      → Fits scope (before ++ (n, r) ∷ [])
  Fits-append [] n r f e = (e, tt)
  Fits-append (x ∷ before) n r (e', f) e = (e', Fits-append before n r f e)

  read_abort_row-revision :
      (before : List (ℕ × AbortRecord)) (row : Row J) (r : AbortRecord)
      → read_abort_row codec loss crates scope trust before row ≡ ok r
      → row.0 ≡ r.abort.aborted_revision
  unfolding read_abort_row
  read_abort_row-revision before (n, (json, digest)) r h =
      let (_, h1) = ensure-eq-ok (leb (codec.json_len json) max_record) _ _ h in
      let (_, h2) = ensure-eq-ok (eqb digest (codec.json_sha256 json)) _ _ h1 in
      let (q, _, h3) = bind-eq-ok (codec.parse_abort json) _ h2 in
      let (_, h4) = ensure-eq-ok (eqb q.format 2) _ _ h3 in
      let (_, h5) = check-eq-ok (validate_abort q.abort) _ h4 in
      let (e, h6) = ensure-eq-ok (eqb n q.abort.aborted_revision) _ _ h5 in
      let (_, h7) = ensure-eq-ok (abort_in_scope scope q.abort) _ _ h6 in
      let (certificate, _, h8) =
        bind-eq-ok (verify_abort_historical crates trust q.token q.abort) _ h7 in
      let (_, h9) = ensure-eq-ok (eqb certificate q.certificate_id) _ _ h8 in
      let ids =
        not (any (λ x. eqb x.1.abort.id q.abort.id) before)
        && not (any (λ x. eqb x.1.abort.aborted_request_id q.abort.aborted_request_id) before) in
      let (_, h10) = ensure-eq-ok ids _ _ h9 in
      let (_, h11) = ensure-eq-ok (not (is_aborted n before)) _ _ h10 in
      let same : q ≡ r = cc in
      (eqb_iff n q.abort.aborted_revision).0 e ∙ ap (λ y. y.abort.aborted_revision) same

  read_abort_rows-Fits :
      (before found : List (ℕ × AbortRecord)) (rows : List (Row J))
      → Fits scope before
      → read_abort_rows codec loss crates scope trust before rows ≡ ok found
      → Fits scope found
  unfolding read_abort_rows
  read_abort_rows-Fits before found [] f h =
      let same : before ≡ found = cc in subst (Fits scope) same f
  read_abort_rows-Fits before found (row ∷ rows) f h =
      let (r, e, h1) = bind-eq-ok (read_abort_row codec loss crates scope trust before row) _ h in
      read_abort_rows-Fits (before ++ (row.0, r) ∷ []) found rows
        (Fits-append before row.0 r f (read_abort_row-revision before row r e)) h1

  read_abort_table-Fits :
      (o : Option (List (Row J))) (found : List (ℕ × AbortRecord))
      → read_abort_table codec loss crates scope trust o ≡ ok found
      → Fits scope found
  unfolding read_abort_table
  read_abort_table-Fits none found h = let same : [] ≡ found = cc in subst (Fits scope) same tt
  read_abort_table-Fits (some rows) found h =
      let (_, h1) = ensure-eq-ok (leb (length rows) max_abort_rows) _ _ h in
      let (_, h2) =
        ensure-eq-ok (not (any (λ row. ltb max_record (codec.json_chars row.1.0)) rows)) _ _ h1 in
      read_abort_rows-Fits [] found rows tt h2

  -- What a journal that reads says of its revisions.
  pub record Gapless (db : Db J L) (h : History) : Type 0 where
    pub exactly :
        (n : ℕ)
        → (is_aborted n h.aborts || in_rows n db.history)
          ≡ (leb scope.initial_revision n && leb n h.last_revision)
    pub head_row : db.head_revision ≡ h.last_revision
    pub next_free : following scope h.consumed ≡ h.last_revision + 1

  last_free :
      (o : Option ℕ)
      → 0 < scope.initial_revision
      → following scope o ≡ last_of codec loss crates scope trust o + 1
  last_free none p = omega (arith, p)
  last_free (some r) p = refl

  up_to_last :
      (a b c last n : ℕ) (x y : Bool)
      → a ≤ b
      → b ≤ c
      → c ≡ last + 1
      → x ≡ (between a b n || y)
      → y ≡ between b c n
      → x ≡ (leb a n && leb n last)
  up_to_last a b c last n x y ab bc e h k = ground arith

  walk-Gapless :
      (db : Db J L) (h : History) (aborts : List (ℕ × AbortRecord)) (revision : Option ℕ)
      (v w : Walk)
      → 0 < scope.initial_revision
      → Fits scope aborts
      → walk_rows codec loss crates scope trust revision
          (start codec loss crates scope trust aborts)
          db.history
        ≡ ok v
      → rest_aborts scope v v.pending ≡ ok w
      → db.head_revision ≡ last_of codec loss crates scope trust w.consumed
      → h.aborts ≡ aborts
      → h.consumed ≡ w.consumed
      → h.last_revision ≡ last_of codec loss crates scope trust w.consumed
      → Gapless db h
  walk-Gapless db h aborts revision v w p f e1 e2 e3 a c l =
      let walked =
        walk_rows-Walked revision (start codec loss crates scope trust aborts) v db.history f e1 in
      let (up, rest) = rest_aborts-Consumed scope v w v.pending walked.fits e2 in
      let free_last = last_free w.consumed p in
      let low = walked.grows in
      record {
        exactly = λ n.
            up_to_last scope.initial_revision (free scope v) (free scope w) h.last_revision n
              (is_aborted n h.aborts || in_rows n db.history) (is_aborted n v.pending) low up
              (free_last ∙ ap (λ k. k + 1) (sym l))
              (ap (λ q. is_aborted n q || in_rows n db.history) a ∙ walked.exactly n) (rest n);
        head_row = e3 ∙ sym l;
        next_free = ap (following scope) c ∙ free_last ∙ ap (λ k. k + 1) (sym l);
      }

  read_with_revision-Gapless :
      (db : Db J L) (revision : Option ℕ) (h : History) (selected : Option Record)
      → 0 < scope.initial_revision
      → read_with_revision codec loss crates scope trust db revision ≡ ok (h, selected)
      → Gapless db h
  unfolding read_with_revision read_aborts
  read_with_revision-Gapless db revision h selected p r =
      let (_, r1) = ensure-eq-ok (profile_beq trust.profile scope.profile) _ _ r in
      let (_, r2) = check-eq-ok (loss.validate_successor_parent db.loss trust scope) _ r1 in
      let (_, r3) = check-eq-ok (ensure_journal_format codec loss crates scope db) _ r2 in
      let (aborts, e4, r4) = bind-eq-ok (read_aborts codec loss crates scope trust db) _ r3 in
      let (v, e5, r5) =
        bind-eq-ok
          (walk_rows codec loss crates scope trust revision
            (start codec loss crates scope trust aborts) db.history)
          _ r4 in
      let (w, e6, r6) = bind-eq-ok (rest_aborts scope v v.pending) _ r5 in
      let (e7, r7) =
        ensure-eq-ok (eqb db.head_revision (last_of codec loss crates scope trust w.consumed)) _ _
          r6 in
      let same = ok_injective _ (h, selected) r7 in
      walk-Gapless db h aborts revision v w p (read_abort_table-Fits db.aborts aborts e4) e5 e6
        ((eqb_iff db.head_revision _).0 e7) (ap (λ x. x.0.aborts) (sym same))
        (ap (λ x. x.0.consumed) (sym same)) (ap (λ x. x.0.last_revision) (sym same))

  read-Gapless_lem :
      (db : Db J L) (h : History)
      → 0 < scope.initial_revision
      → read codec loss crates scope trust db ≡ ok h
      → Gapless db h
  unfolding read
  read-Gapless_lem db h p r =
      let (found, e, k) =
        bind-eq-ok (read_with_revision codec loss crates scope trust db none) _ r in
      let same : found.0 ≡ h = cc in
      subst (Gapless db) same (read_with_revision-Gapless db none found.0 found.1 p e)

-- In a journal that reads, the revisions from the initial one to the last one are exactly those that
-- a record or an abort has, the head row names the last one, and the next free one follows it.
pub read-Gapless :
    {J L : Type 0} (codec : Codec J) (loss : Loss L) (crates : Crates) (scope : JournalScope)
    (trust : Trust) (db : Db J L) (h : History)
    → 0 < scope.initial_revision
    → read codec loss crates scope trust db ≡ ok h
    → Gapless codec loss crates scope trust db h
read-Gapless codec loss crates scope trust = read-Gapless_lem codec loss crates scope trust
