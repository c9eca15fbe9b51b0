-- ===== src/Common/Equality.antt =====
-- Decidable equality as an interface: what `==` is for the types that derive `PartialEq`.
use Prim.Native.Nat.{ℕ}
use Prim.Native.String.{String}
use mathlib.Core.Path.{◌≡◌, refl, ap}
use mathlib.Core.Logic.{◌↔◌}
use mathlib.Core.Bool.{Bool, true, false, ◌&&◌}
use mathlib.Core.Option.{Option, none, some}
use mathlib.Core.List.{List, [], ◌∷◌}
use native.Mathlib.Omega.{arith}
use text.Mathlib.Text.{◌==◌ as str_eq}
use text.Mathlib.TextEquality.{eq_iff}
use terrapi_vault.Common.Tests.{eqb, eqb_iff}

pub record PartialEq {κ} (T : Type κ) : Type κ where
  pub test : (this other : T) → Bool
  -- Only equal values pass.
  pub test_iff : (this other : T) → (test this other ≡ true) ↔ (this ≡ other)

infix 50 ◌==◌
abbrev pub ◌==◌ {κ} : {T : Type κ} ⦃equality : PartialEq T⦄ (this other : T) → Bool
◌==◌ ⦃equality⦄ this other = equality.test this other

module _ {κ} {T : Type κ} ⦃equality : PartialEq T⦄ where
  pub eq→≡ : (this other : T) → (this == other) ≡ true → this ≡ other
  eq→≡ this other h = (equality.test_iff this other).0 h

  pub ≡→eq : (this other : T) → this ≡ other → (this == other) ≡ true
  ≡→eq this other h = (equality.test_iff this other).1 h

abbrev pub bool_beq : Bool → Bool → Bool
bool_beq true true = true
bool_beq false false = true
bool_beq _ _ = false

pub bool_beq_iff : (a b : Bool) → (bool_beq a b ≡ true) ↔ (a ≡ b)
bool_beq_iff a b = ground arith

instance abbrev pub bool_eq : PartialEq Bool
bool_eq = record { test = bool_beq; test_iff = bool_beq_iff }

module _ {ℓ} {A : Type ℓ} ⦃e : PartialEq A⦄ where
  abbrev pub option_beq : Option A → Option A → Bool
  option_beq none none = true
  option_beq (some a) (some b) = a == b
  option_beq _ _ = false

  pub option_beq_iff : (a b : Option A) → (option_beq a b ≡ true) ↔ (a ≡ b)
  option_beq_iff none none = (λ _. refl, λ _. refl)
  option_beq_iff (some a) (some b) = (λ h. ap some (eq→≡ a b h), λ h. ≡→eq a b (cc))
  option_beq_iff none (some b) = (λ h. cc, λ h. cc)
  option_beq_iff (some a) none = (λ h. cc, λ h. cc)

  abbrev pub list_beq : List A → List A → Bool
  list_beq [] [] = true
  list_beq (x ∷ xs) (y ∷ ys) = (x == y) && list_beq xs ys
  list_beq _ _ = false

  pub list_beq_iff : (a b : List A) → (list_beq a b ≡ true) ↔ (a ≡ b)
  list_beq_iff [] [] = (λ _. refl, λ _. refl)
  list_beq_iff (x ∷ xs) (y ∷ ys) = (
    λ h. ground (arith, e.test_iff x y, list_beq_iff xs ys),
    λ h. ground (arith, e.test_iff x y, list_beq_iff xs ys),
  )
  list_beq_iff [] (y ∷ ys) = (λ h. cc, λ h. cc)
  list_beq_iff (x ∷ xs) [] = (λ h. cc, λ h. cc)

instance abbrev pub option_eq {ℓ} : {A : Type ℓ} ⦃e : PartialEq A⦄ → PartialEq (Option A)
option_eq = record { test = option_beq; test_iff = option_beq_iff }

instance abbrev pub list_eq {ℓ} : {A : Type ℓ} ⦃e : PartialEq A⦄ → PartialEq (List A)
list_eq = record { test = list_beq; test_iff = list_beq_iff }

instance abbrev pub string_eq : PartialEq String
string_eq = record { test = str_eq; test_iff = eq_iff }

instance abbrev pub nat_eq : PartialEq ℕ
nat_eq = record { test = eqb; test_iff = eqb_iff }
