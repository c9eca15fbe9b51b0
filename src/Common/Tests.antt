-- ===== src/Common/Tests.antt =====
-- Boolean tests on the native numbers, the conditional, and conjunctions of many tests.
use Prim.Native.Nat.{ℕ, ◌≤◌, ◌<◌, compare, Ordering}
use mathlib.Core.Path.{◌≡◌, refl}
use mathlib.Core.Logic.{◌↔◌, ◌⊎◌, inl, inr}
use mathlib.Core.Bool.{Bool, true, false, ◌&&◌}
use mathlib.Core.Option.{Option, none, some}
use mathlib.Core.List.{List, [], ◌∷◌}
use native.Mathlib.Omega.{arith}

abbrev pub ltb : ℕ → ℕ → Bool
ltb a b = elim (compare a b) [ Ordering.lt ↦ true | _ ↦ false ]

abbrev pub leb : ℕ → ℕ → Bool
leb a b = elim (compare a b) [ Ordering.gt ↦ false | _ ↦ true ]

abbrev pub eqb : ℕ → ℕ → Bool
eqb a b = elim (compare a b) [ Ordering.eq ↦ true | _ ↦ false ]

infix 1 if◌then◌else◌
abbrev pub if◌then◌else◌ {ℓ} : {A : Type ℓ} → Bool → A → A → A
if true then x else y = x
if false then x else y = y

pub ltb→lt : (a b : ℕ) → ltb a b ≡ true → a < b
ltb→lt a b h = ground arith

pub lt→ltb : (a b : ℕ) → a < b → ltb a b ≡ true
lt→ltb a b h = ground arith

pub leb→le : (a b : ℕ) → leb a b ≡ true → a ≤ b
leb→le a b h = ground arith

pub le→leb : (a b : ℕ) → a ≤ b → leb a b ≡ true
le→leb a b h = ground arith

pub eqb_iff : (a b : ℕ) → (eqb a b ≡ true) ↔ (a ≡ b)
eqb_iff a b = ground arith

pub Bool-cases : (b : Bool) → (b ≡ true) ⊎ (b ≡ false)
Bool-cases true = inl refl
Bool-cases false = inr refl

-- What holds of both branches.
pub if-cases {ℓ κ} :
    {A : Type ℓ} (P : A → Type κ) (b : Bool) {x y : A}
    → (b ≡ true → P x)
    → (b ≡ false → P y)
    → P (if b then x else y)
if-cases P true f g = f refl
if-cases P false f g = g refl

-- A conditional that has a value, taken apart.
pub if-split {ℓ} :
    {A : Type ℓ} (b : Bool) (x y : A) {z : A}
    → (if b then x else y) ≡ z
    → ((b ≡ true) × (x ≡ z)) ⊎ ((b ≡ false) × (y ≡ z))
if-split true x y h = inl (refl, h)
if-split false x y h = inr (refl, h)

pub Option-cases {ℓ} : {A : Type ℓ} (o : Option A) → (o ≡ none) ⊎ ((a : A) × (o ≡ some a))
Option-cases none = inl refl
Option-cases (some a) = inr (a, refl)

-- A conjunction of tests, and the tuple of what they say.
abbrev pub conj : List Bool → Bool
conj [] = true
conj (b ∷ bs) = b && conj bs

abbrev pub Truths : List Bool → Type 0
Truths [] = Unit
Truths (b ∷ bs) = (b ≡ true) × Truths bs

pub &&_iff : (a b : Bool) → ((a && b) ≡ true) ↔ ((a ≡ true) × (b ≡ true))
&&_iff true b = (λ h. (refl, h), λ h. h.1)
&&_iff false b = (λ h. ground arith, λ h. h.0)

pub conj→Truths : (bs : List Bool) → conj bs ≡ true → Truths bs
conj→Truths [] h = tt
conj→Truths (b ∷ bs) h = let p = (&&_iff b (conj bs)).0 h in (p.0, conj→Truths bs p.1)

pub Truths→conj : (bs : List Bool) → Truths bs → conj bs ≡ true
Truths→conj [] h = refl
Truths→conj (b ∷ bs) h = (&&_iff b (conj bs)).1 (h.0, Truths→conj bs h.1)
