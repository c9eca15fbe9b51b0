-- ===== src/Pair/History.antt =====
-- The journal as a history: sequences count the entries, and each operation stands once.
use terrapi_vault.Common.{
  eqb, if◌then◌else◌, lt→ltb, eqb_iff, Bool-cases, ◌==◌, eq→≡, ≡→eq, bool_eq, option_eq, list_eq,
  string_eq, nat_eq, ℕ, suc, ◌≤◌, ◌<◌, String, ◌≡◌, refl, sym, ap, ◌∙◌, ◌⊎◌, inl, inr, none, some,
  List, [], ◌∷◌, arith,
}
use terrapi_vault.Common.Lists.{length}
use terrapi_vault.Pair.Model.{identity_eq, Entry, checkpoint_eq, receipt_eq}
use terrapi_vault.Pair.Tables.{
  with_operation, with_sequence, without_operation, upsert, count_above,
}

pub some_injective : {A : Type 0} (a b : A) → some a ≡ some b → a ≡ b
some_injective a b h = cc

module _ {C : Type 0} where
  -- Rows newest first are numbered down to one.
  abbrev pub Numbered : List (Entry C) → Type 0
  Numbered [] = Unit
  Numbered (e ∷ log) = (e.sequence ≡ suc (length log)) × Numbered log

  -- No identifier stands twice.
  abbrev pub Distinct : List (Entry C) → Type 0
  Distinct [] = Unit
  Distinct (e ∷ log) = (with_operation e.batch.operation_id log ≡ none) × Distinct log

  abbrev pub In : Entry C → List (Entry C) → Type 0
  In e [] = ⊥
  In e (x ∷ log) = (e ≡ x) ⊎ In e log

  pub with_sequence-Numbered :
      (log : List (Entry C)) (n : ℕ) → Numbered log → length log < n → with_sequence n log ≡ none
  with_sequence-Numbered [] n h l = refl
  with_sequence-Numbered (e ∷ log) n (s, h) l =
      let rest = with_sequence-Numbered log n h (omega arith) in ground (arith, rest, s)

  pub upsert-Numbered :
      (e : Entry C) (log : List (Entry C))
      → Numbered log
      → e.sequence ≡ suc (length log)
      → upsert e log ≡ some (e ∷ log)
  upsert-Numbered e [] h s = refl
  upsert-Numbered e (x ∷ log) (t, h) s =
      rw (lt→ltb x.sequence e.sequence (omega (arith, s, t))) refl

  pub upsert_head :
      (e x : Entry C) (log : List (Entry C))
      → x.sequence ≡ e.sequence
      → x.batch.operation_id ≡ e.batch.operation_id
      → upsert e (x ∷ log) ≡ some (e ∷ log)
  upsert_head e x log s o =
      let same = ≡→eq x.batch.operation_id e.batch.operation_id o in ground (arith, s, same)

  pub count_above_lem : (log : List (Entry C)) → Numbered log → count_above 0 log ≡ length log
  count_above_lem [] h = refl
  count_above_lem (e ∷ log) (s, h) = let rest = count_above_lem log h in ground (arith, rest, s)

  pub without_operation_lem :
      (id : String) (log : List (Entry C))
      → with_operation id log ≡ none
      → without_operation id log ≡ log
  without_operation_lem id [] h = refl
  without_operation_lem id (e ∷ log) h = elim (Bool-cases (e.batch.operation_id == id)) [
    | inl t ↦ ground arith
    | inr f ↦ rw f (ap (λ l. e ∷ l) (without_operation_lem id log (ground arith)))
  ]

  pub In_bound :
      (e : Entry C) (log : List (Entry C)) → Numbered log → In e log → e.sequence ≤ length log
  In_bound e [] h m = elim m [ ]
  In_bound e (x ∷ log) (s, h) (inl same) = let t = ap (λ y. y.sequence) same in omega (arith, s, t)
  In_bound e (x ∷ log) (s, h) (inr m) = let b = In_bound e log h m in omega (arith, b)

  pub with_sequence-In :
      (e : Entry C) (log : List (Entry C))
      → Numbered log
      → In e log
      → with_sequence e.sequence log ≡ some e
  with_sequence-In e [] h m = elim m [ ]
  with_sequence-In e (x ∷ log) (s, h) (inl same) =
      let t = (eqb_iff x.sequence e.sequence).1 (ap (λ y. y.sequence) (sym same)) in
      rw t (ap some (sym same))
  with_sequence-In e (x ∷ log) (s, h) (inr m) =
      let rest = with_sequence-In e log h m in
      let b = In_bound e log h m in ground (arith, rest, b, s)

  pub with_operation-In :
      (e : Entry C) (log : List (Entry C))
      → Distinct log
      → In e log
      → with_operation e.batch.operation_id log ≡ some e
  with_operation-In e [] d m = elim m [ ]
  with_operation-In e (x ∷ log) (f, d) (inl same) =
      let t =
        ≡→eq x.batch.operation_id e.batch.operation_id
          (ap (λ y. y.batch.operation_id) (sym same)) in
      rw t (ap some (sym same))
  with_operation-In e (x ∷ log) (f, d) (inr m) =
      let rest = with_operation-In e log d m in
      elim (Bool-cases (x.batch.operation_id == e.batch.operation_id)) [
        | inl t ↦
            let o = eq→≡ x.batch.operation_id e.batch.operation_id t in
            let clash : none ≡ some e = sym f ∙ ap (λ id. with_operation id log) o ∙ rest in cc
        | inr t ↦ rw t rest
      ]

  -- What is found is in the journal.
  pub In-with_operation :
      (id : String) (log : List (Entry C)) (e : Entry C)
      → with_operation id log ≡ some e
      → In e log × (e.batch.operation_id ≡ id)
  In-with_operation id [] e h = cc
  In-with_operation id (x ∷ log) e h = elim (Bool-cases (x.batch.operation_id == id)) [
    | inl t ↦
        let same : x ≡ e =
          some_injective x e (sym (ap (λ b. if b then some x else with_operation id log) t) ∙ h) in
        (inl (sym same), sym (ap (λ y. y.batch.operation_id) same) ∙ eq→≡ x.batch.operation_id id t)
    | inr t ↦
        let (m, o) =
          In-with_operation id log e
            (sym (ap (λ b. if b then some x else with_operation id log) t) ∙ h) in
        (inr m, o)
  ]

  pub In-with_sequence :
      (n : ℕ) (log : List (Entry C)) (e : Entry C)
      → with_sequence n log ≡ some e
      → In e log × (e.sequence ≡ n)
  In-with_sequence n [] e h = cc
  In-with_sequence n (x ∷ log) e h = elim (Bool-cases (eqb x.sequence n)) [
    | inl t ↦
        let same : x ≡ e =
          some_injective x e (sym (ap (λ b. if b then some x else with_sequence n log) t) ∙ h) in
        (inl (sym same), sym (ap (λ y. y.sequence) same) ∙ (eqb_iff x.sequence n).0 t)
    | inr t ↦
        let (m, o) =
          In-with_sequence n log e
            (sym (ap (λ b. if b then some x else with_sequence n log) t) ∙ h) in
        (inr m, o)
  ]
