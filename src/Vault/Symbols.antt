-- ===== src/Vault/Symbols.antt =====
-- The symbols of base32 and their values (src/recovery.rs).
use terrapi_vault.Common.{
  ltb, eqb, ltb→lt, eqb_iff, Bool-cases, &&_iff, bool_eq, option_beq, option_beq_iff, list_beq,
  list_beq_iff, option_eq, list_eq, string_eq, nat_eq, All, ℕ, zero, suc, ◌<◌, ◌≡◌, refl, sym,
  subst, inl, inr, Bool, true, false, not, ◌&&◌, ◌||◌, some, List, [], ◌∷◌, ◌++◌, arith,
}
use terrapi_vault.Common.Text.{is_whitespace}
use terrapi_vault.Vault.RecoveryCode.{
  symbol, value, dash, to_ascii_uppercase, unfold_glyph, utf8, normalized,
}

-- A test of all numbers below a bound.
abbrev all_below : ℕ → (ℕ → Bool) → Bool
all_below zero p = true
all_below (suc n) p = p n && all_below n p

all_below_lem : (n : ℕ) (p : ℕ → Bool) (k : ℕ) → all_below n p ≡ true → k < n → p k ≡ true
all_below_lem zero p k h l = absurd (omega (arith, l))
all_below_lem (suc n) p k h l =
    let (here, rest) = (&&_iff (p n) (all_below n p)).0 h in
    elim (Bool-cases (eqb k n)) [
      | inl t ↦ subst (λ x. p x ≡ true) (sym ((eqb_iff k n).0 t)) here
      | inr f ↦ all_below_lem n p k rest (below n k l f)
    ]
  where
    below : (n k : ℕ) → k < suc n → eqb k n ≡ false → k < n
    below n k l f = ground arith

-- A symbol has its value, stays as it is when a code is normalized, and is ASCII.
abbrev good_symbol : ℕ → Bool
good_symbol v =
    option_beq (value (symbol v)) (some v)
    && not (eqb (symbol v) dash)
    && not (is_whitespace (symbol v))
    && list_beq (utf8 (unfold_glyph (to_ascii_uppercase (symbol v)))) (symbol v ∷ [])
    && ltb (symbol v) 0x80

symbols_good : all_below 32 good_symbol ≡ true
unfolding symbol value to_ascii_uppercase utf8
symbols_good = refl

pub value-symbol : (v : ℕ) → v < 32 → value (symbol v) ≡ some v
value-symbol v l =
    let h = all_below_lem 32 good_symbol v symbols_good l in
    let (h1, _) = (&&_iff _ (ltb (symbol v) 0x80)).0 h in
    let (h2, _) =
      (&&_iff _ (list_beq (utf8 (unfold_glyph (to_ascii_uppercase (symbol v)))) (symbol v ∷ []))).0
        h1 in
    let (h3, _) = (&&_iff _ (not (is_whitespace (symbol v)))).0 h2 in
    let (h4, _) =
      (&&_iff (option_beq (value (symbol v)) (some v)) (not (eqb (symbol v) dash))).0 h3 in
    (option_beq_iff (value (symbol v)) (some v)).0 h4

neither_test : (a b : Bool) → not a ≡ true → not b ≡ true → (a || b) ≡ false
neither_test a b x y = ground arith

-- The texts that consist of symbols.
abbrev pub AreSymbols : List ℕ → Type 0
AreSymbols s = All (λ c. (v : ℕ) × (v < 32) × (c ≡ symbol v)) s

pub normalized-AreSymbols :
    (s rest : List ℕ) → AreSymbols s → normalized (s ++ rest) ≡ s ++ normalized rest
unfolding normalized
normalized-AreSymbols [] rest h = refl
normalized-AreSymbols (c ∷ s) rest ((v, l, is), h) =
    let again = normalized-AreSymbols s rest h in
    let good = all_below_lem 32 good_symbol v symbols_good l in
    subst (λ x. normalized (x ∷ s ++ rest) ≡ x ∷ s ++ normalized rest) (sym is)
      (one_symbol v good again)
  where
    one_symbol :
        (v : ℕ)
        → good_symbol v ≡ true
        → normalized (s ++ rest) ≡ s ++ normalized rest
        → normalized (symbol v ∷ s ++ rest) ≡ symbol v ∷ s ++ normalized rest
    one_symbol v h again =
        let (h1, _) = (&&_iff _ (ltb (symbol v) 0x80)).0 h in
        let (h2, u) =
          (&&_iff _
              (list_beq (utf8 (unfold_glyph (to_ascii_uppercase (symbol v)))) (symbol v ∷ []))).0
            h1 in
        let (h3, w) = (&&_iff _ (not (is_whitespace (symbol v)))).0 h2 in
        let (_, d) =
          (&&_iff (option_beq (value (symbol v)) (some v)) (not (eqb (symbol v) dash))).0 h3 in
        let kept : (eqb (symbol v) dash || is_whitespace (symbol v)) ≡ false =
          neither_test (eqb (symbol v) dash) (is_whitespace (symbol v)) d w in
        let as_is =
          (list_beq_iff (utf8 (unfold_glyph (to_ascii_uppercase (symbol v)))) (symbol v ∷ [])).0
            u in
        rw (kept, as_is, again) refl

pub AreSymbols-append : (s t : List ℕ) → AreSymbols s → AreSymbols t → AreSymbols (s ++ t)
AreSymbols-append [] t h k = k
AreSymbols-append (c ∷ s) t (x, h) k = (x, AreSymbols-append s t h k)

pub AreSymbols-ascii : (s : List ℕ) → AreSymbols s → All (λ c. c < 0x80) s
AreSymbols-ascii [] h = tt
AreSymbols-ascii (c ∷ s) ((v, l, is), h) =
    let good = all_below_lem 32 good_symbol v symbols_good l in
    let (_, a) = (&&_iff _ (ltb (symbol v) 0x80)).0 good in
    (subst (λ x. x < 0x80) (sym is) (ltb→lt (symbol v) 0x80 a), AreSymbols-ascii s h)
