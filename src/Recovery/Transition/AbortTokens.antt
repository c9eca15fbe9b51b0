-- ===== src/Recovery/Transition/AbortTokens.antt =====
-- What a token of a maintenance abort shows, and the row that records the abort
-- (replication/recovery/src/transition.rs).
use terrapi_vault.Common.{
  ltb, leb, eqb, if◌then◌else◌, eqb_iff, if-cases, if-split, Option-cases, &&_iff, bool_eq,
  option_eq, list_eq, string_eq, nat_eq, ok, bind-eq-ok, ok_or-eq-ok, ensure-eq-ok, check-eq-ok,
  ok_injective, Bytes, checked_sub, ℕ, ◌-◌, ◌≤◌, ◌<◌, ◌≡◌, refl, sym, ap, subst, ◌∙◌, ◌≢◌, inl, inr,
  false, not, ◌&&◌, Option, none, some, List, [], ◌∷◌, arith,
}
use terrapi_vault.Recovery.Model.{Id256, baseline_eq, plan_eq}
use terrapi_vault.Recovery.Transition.{
  checkpoint_eq, MaintenanceAbort, abort_beq, abort_beq_iff, JournalScope, is_zero, validate_abort,
}
use terrapi_vault.Recovery.Transition.Tokens.{
  Trust, Claims, Crates, abort_token_type, has_purpose, has_lifetime, is_purpose, abort_digest,
  signed_payload, out_of_window, verify_abort, verify_abort_issuance,
}
use terrapi_vault.Recovery.Transition.Store.{
  AbortRecord, Codec, Loss, Db, max_record, max_scope, insert_row, mark_journal_format_two,
  abort_rows, save_abort,
}
use terrapi_vault.Recovery.Transition.Windows.{Signed, signed_payload-Signed}

-- A signed token whose claims bind exactly the abort, from the trusted issuer, for a time of bounded
-- length that contains `now`.
pub record AbortIssued (c : Crates) (trust : Trust) (token : Bytes) (a : MaintenanceAbort) (now : ℕ)
    (certificate : Id256) : Type 0 where
  pub abort_valid : validate_abort a ≡ ok tt
  pub payload : Bytes
  pub signed : Signed c trust (is_purpose abort_token_type) token payload
  pub claims : Claims MaintenanceAbort
  pub parsed : c.parse_abort_claims payload ≡ some claims
  pub version_one : claims.version ≡ 1
  pub issuer : claims.iss ≡ trust.profile.issuer
  pub audience : claims.aud ≡ trust.profile.audience
  pub action : claims.action ≡ "abort_compact_pair"
  pub same_abort : claims.request ≡ a
  pub same_digest : claims.request_digest ≡ c.abort_sha256 a
  pub same_certificate : certificate ≡ claims.certificate_id
  pub certificate_named : is_zero certificate ≡ false
  pub starts : claims.iat ≤ claims.nbf
  pub ends : claims.nbf < claims.exp
  pub lifetime : claims.exp - claims.iat ≤ trust.max_lifetime
  pub started : claims.nbf ≤ now
  pub not_over : now < claims.exp

pub verify_abort_issuance-AbortIssued :
    (c : Crates) (trust : Trust) (token : Bytes) (a : MaintenanceAbort) (now : ℕ)
    (certificate : Id256)
    → verify_abort_issuance c trust token a now ≡ ok certificate
    → AbortIssued c trust token a now certificate
unfolding verify_abort_issuance verify_abort abort_digest has_purpose has_lifetime
verify_abort_issuance-AbortIssued c trust token a now certificate h =
    let (v, h1) = check-eq-ok (validate_abort a) _ h in
    let (payload, e2, h2) =
      bind-eq-ok (signed_payload c trust (is_purpose abort_token_type) token) _ h1 in
    let (g, e3, h3) = ok_or-eq-ok (c.parse_abort_claims payload) _ _ h2 in
    let (life, e4, h4) = ok_or-eq-ok (checked_sub g.exp g.iat) _ _ h3 in
    let (t, h5) =
      ensure-eq-ok (has_purpose trust "abort_compact_pair" g && has_lifetime trust g life) _ _ h4 in
    let (e5, e6) =
      (&&_iff (has_purpose trust "abort_compact_pair" g) (has_lifetime trust g life)).0 t in
    let (e7, h6) = ensure-eq-ok (not (out_of_window c trust (some now) g)) _ _ h5 in
    let (digest, e8, h7) = bind-eq-ok (abort_digest c trust a) _ h6 in
    let (_, sha) = check-eq-ok (validate_abort a) _ e8 in
    let is_sha : c.abort_sha256 a ≡ digest = ok_injective (c.abort_sha256 a) digest sha in
    let (b, h8) = ensure-eq-ok (abort_beq g.request a && eqb g.request_digest digest) _ _ h7 in
    let (same, bound) = (&&_iff (abort_beq g.request a) _).0 b in
    let handed : g.certificate_id ≡ certificate = ok_injective g.certificate_id certificate h8 in
    let i = string_eq.test_iff g.iss trust.profile.issuer in
    let u = string_eq.test_iff g.aud trust.profile.audience in
    let k = string_eq.test_iff g.action "abort_compact_pair" in
    let named : is_zero g.certificate_id ≡ false = ground arith in
    record {
      abort_valid = v;
      payload = payload;
      signed = signed_payload-Signed c trust (is_purpose abort_token_type) token payload e2;
      claims = g;
      parsed = e3;
      version_one = ground arith;
      issuer = ground (arith, i);
      audience = ground (arith, u);
      action = ground (arith, k);
      same_abort = (abort_beq_iff g.request a).0 same;
      same_digest = (eqb_iff g.request_digest digest).0 bound ∙ sym is_sha;
      same_certificate = sym handed;
      certificate_named = subst (λ x. is_zero x ≡ false) handed named;
      starts = ground arith;
      ends = ground arith;
      lifetime = ground arith;
      started = ground arith;
      not_over = ground arith;
    }

-- The value in the row with this revision.
abbrev pub row_at : {A : Type 0} → ℕ → List (ℕ × A) → Option A
row_at revision [] = none
row_at revision ((r, x) ∷ rows) = if eqb revision r then some x else row_at revision rows

some_rows : {A : Type 0} (a b : List (ℕ × A)) → some a ≡ some b → a ≡ b
some_rows a b h = cc

eqb_no : (a b : ℕ) → a ≢ b → eqb a b ≡ false
eqb_no a b h = ground arith

-- The row is found under its revision, and every other revision keeps its row.
abbrev pub Inserted : {A : Type 0} → ℕ → A → (rows rows' : List (ℕ × A)) → Type 0
Inserted revision row rows rows' =
    (row_at revision rows' ≡ some row) × ((k : ℕ) → k ≢ revision → row_at k rows' ≡ row_at k rows)

pub row_at-insert_row :
    {A : Type 0} (revision : ℕ) (row : A) (rows rows' : List (ℕ × A))
    → insert_row revision row rows ≡ some rows'
    → (row_at revision rows' ≡ some row) × ((k : ℕ) → k ≢ revision → row_at k rows' ≡ row_at k rows)
row_at-insert_row {A} revision row [] rows' h =
    subst (Inserted revision row []) (some_rows ((revision, row) ∷ []) rows' h)
      (rw ((eqb_iff revision revision).1 refl) refl, λ k n. rw (eqb_no k revision n) refl)
row_at-insert_row {A} revision row ((r, x) ∷ rows) rows' h =
    elim (if-split (ltb revision r) _ _ h) [
      | inl (_, e) ↦
          subst (Inserted revision row ((r, x) ∷ rows))
            (some_rows ((revision, row) ∷ (r, x) ∷ rows) rows' e)
            (rw ((eqb_iff revision revision).1 refl) refl, λ k n. rw (eqb_no k revision n) refl)
      | inr (_, e1) ↦ elim (if-split (eqb revision r) _ _ e1) [
        | inl (_, clash) ↦ cc
        | inr (f, e2) ↦ elim (Option-cases (insert_row revision row rows)) [
          | inl gone ↦ let clash : none ≡ some rows' = rw gone at e2 in cc
          | inr (more, made_rest) ↦
              let made : some ((r, x) ∷ more) ≡ some rows' = rw made_rest at e2 in
              let (here, others) = row_at-insert_row revision row rows more made_rest in
              subst (Inserted revision row ((r, x) ∷ rows)) (some_rows ((r, x) ∷ more) rows' made) (
                rw f here,
                λ k n.
                    if-cases (λ o. (if eqb k r then some x else row_at k more) ≡ o) (eqb k r)
                      (λ t. rw t refl) (λ t. rw t (others k n)),
              )
        ]
      ]
    ]

module _ {J L : Type 0} (codec : Codec J) (loss : Loss L) (crates : Crates)
    (scope : JournalScope) where
  -- The abort stands in the table, with the digest of its text; the other tables are as before.
  pub record Saved (r : AbortRecord) (db db' : Db J L) : Type 0 where
    pub row_written :
        Inserted r.abort.aborted_revision
          (codec.write_abort r, codec.json_sha256 (codec.write_abort r))
          (abort_rows codec loss crates scope db.aborts)
          (abort_rows codec loss crates scope db'.aborts)
    pub same_history : db'.history ≡ db.history

  mark_history :
      (db db' : Db J L)
      → mark_journal_format_two codec loss crates scope db ≡ ok db'
      → db'.history ≡ db.history
  unfolding mark_journal_format_two
  mark_history db db' h =
      let (_, h1) = ensure-eq-ok (leb (codec.json_len db.scope_row) max_scope) _ _ h in
      let (parsed, _, h2) = bind-eq-ok (codec.parse_object db.scope_row) _ h1 in
      let (_, h3) = ensure-eq-ok (leb _ max_scope) _ _ h2 in
      ap (λ x. x.history) (sym (ok_injective _ db' h3))

  pub save_abort-Saved :
      (r : AbortRecord) (db db' : Db J L)
      → save_abort codec loss crates scope db r ≡ ok db'
      → Saved r db db'
  unfolding save_abort
  save_abort-Saved r db db' h =
      let json = codec.write_abort r in
      let (_, h1) = ensure-eq-ok (leb (codec.json_len json) max_record) _ _ h in
      let (marked_db, m, h2) =
        bind-eq-ok (mark_journal_format_two codec loss crates scope db) _ h1 in
      let (rows, i, h3) =
        ok_or-eq-ok
          (insert_row r.abort.aborted_revision (json, codec.json_sha256 json)
            (abort_rows codec loss crates scope db.aborts))
          _ _ h2 in
      let done : record marked_db { aborts = some rows } ≡ db' = ok_injective _ db' h3 in
      subst (Saved r db) done (record {
        row_written =
            row_at-insert_row r.abort.aborted_revision (json, codec.json_sha256 json)
              (abort_rows codec loss crates scope db.aborts) rows i;
        same_history = mark_history db marked_db m;
      })
