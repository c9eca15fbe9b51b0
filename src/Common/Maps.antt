-- ===== src/Common/Maps.antt =====
-- `HashMap<String, V>` as a list of entries: `get`, `insert`, `get_mut` with the value that it
-- leaves, and `values`, in the order in which the keys came first.
use Prim.Native.String.{String}
use mathlib.Core.Path.{subst, ◌≡◌, refl, ap, sym, ◌∙◌}
use mathlib.Core.Bool.{true, Bool, false, ◌||◌}
use mathlib.Core.Logic.{◌⊎◌, inl, inr}
use mathlib.Core.Option.{Option, none, some}
use mathlib.Core.List.{List, [], ◌∷◌, ◌++◌}
use native.Mathlib.Omega.{arith}
use terrapi_vault.Common.Tests.{if◌then◌else◌, Bool-cases}
use terrapi_vault.Common.Equality.{◌==◌, eq→≡, ≡→eq, string_eq}
use terrapi_vault.Common.Lists.{any}

-- `keys.contains(key)`
abbrev pub contains : String → List String → Bool
contains key [] = false
contains key (k ∷ keys) = k == key || contains key keys

pub contains-append :
    (key : String) (keys more : List String)
    → contains key (keys ++ more) ≡ (contains key keys || contains key more)
contains-append key [] more = refl
contains-append key (k ∷ keys) more = ground (arith, contains-append key keys more)

pub ==_comm : (key other : String) → (key == other) ≡ (other == key)
==_comm key other =
    let there = ≡→eq key other in
    let back = ≡→eq other key in
    elim (Bool-cases (key == other)) [
      | inl e ↦ e ∙ sym (back (sym (eq→≡ key other e)))
      | inr e ↦ elim (Bool-cases (other == key)) [
        | inl f ↦ there (sym (eq→≡ other key f)) ∙ sym f
        | inr f ↦ e ∙ sym f
      ]
    ]

-- `any` over the keys of a list, with a witness.
pub any-contains :
    (p : String → Bool) (key : String) (keys : List String)
    → contains key keys ≡ true
    → p key ≡ true
    → any p keys ≡ true
any-contains p key [] c h = cc
any-contains p key (k ∷ keys) c h = elim (Bool-cases (k == key)) [
  | inl e ↦ rw (eq→≡ k key e, h) refl
  | inr e ↦ let rest = any-contains p key keys in ground arith
]

pub any_witness :
    (p : String → Bool) (keys : List String)
    → any p keys ≡ true
    → (key : String) × (contains key keys ≡ true) × (p key ≡ true)
any_witness p [] h = cc
any_witness p (k ∷ keys) h = elim (Bool-cases (p k)) [
  | inl t ↦ (k, rw (≡→eq k k refl) refl, t)
  | inr f ↦ let (key, c, t) = any_witness p keys (ground arith) in (key, rw c (ground arith), t)
]

abbrev pub Map {ℓ} : (V : Type ℓ) → Type ℓ
Map V = List (String × V)

module _ {ℓ} {V : Type ℓ} where
  abbrev pub get : String → Map V → Option V
  get key [] = none
  get key ((k, v) ∷ map) = if k == key then some v else get key map

  abbrev pub insert : String → V → Map V → Map V
  insert key value [] = (key, value) ∷ []
  insert key value ((k, v) ∷ map) =
      let rest = insert key value map in if k == key then (k, value) ∷ map else (k, v) ∷ rest

  abbrev pub values : Map V → List V
  values [] = []
  values ((k, v) ∷ map) = v ∷ values map

  pub get-insert :
      (key : String) (value : V) (map : Map V) → get key (insert key value map) ≡ some value
  get-insert key value [] = rw (≡→eq key key refl) refl
  get-insert key value ((k, v) ∷ map) = elim (Bool-cases (k == key)) [
    | inl e ↦ rw (e, e) refl
    | inr e ↦ rw (e, e) (get-insert key value map)
  ]

  pub get-insert_other :
      (key other : String) (value : V) (map : Map V)
      → (key == other) ≡ false
      → get other (insert key value map) ≡ get other map
  get-insert_other key other value [] h = rw h refl
  get-insert_other key other value ((k, v) ∷ map) h = elim (Bool-cases (k == key)) [
    | inl e ↦ rw e (let same = eq→≡ k key e in rw same (rw h refl))
    | inr e ↦
        rw e (ap (λ o. if k == other then some v else o) (get-insert_other key other value map h))
  ]

  -- What is found after an `insert`.
  pub get-insert_cases :
      (key other : String) (value found : V) (map : Map V)
      → get other (insert key value map) ≡ some found
      → ((key ≡ other) × (value ≡ found))
        ⊎ (((key == other) ≡ false) × (get other map ≡ some found))
  get-insert_cases key other value found map h = elim (Bool-cases (key == other)) [
    | inl e ↦ inl (
      eq→≡ key other e,
      let there : get other (insert key value map) ≡ some value =
            subst (λ k. get k (insert key value map) ≡ some value) (eq→≡ key other e)
              (get-insert key value map) in
          cc,
    )
    | inr e ↦ inr (e, sym (get-insert_other key other value map e) ∙ h)
  ]

  -- `values().filter(p).map(f).collect()`
  abbrev pub select : (V → Bool) → (V → String) → Map V → List String
  select p f [] = []
  select p f ((k, v) ∷ map) = let rest = select p f map in if p v then f v ∷ rest else rest

  -- Does the value at a key pass?
  abbrev pub found_that : (V → Bool) → Option V → Bool
  found_that p none = false
  found_that p (some v) = p v

  -- Each key stands once, and the value there knows it by `f`.
  abbrev pub Keyed : (V → String) → Map V → Type ℓ
  Keyed f [] = Unit
  Keyed f ((k, v) ∷ map) = (f v ≡ k) × (get k map ≡ none) × Keyed f map

  pub Keyed-insert :
      (f : V → String) (key : String) (value : V) (map : Map V)
      → f value ≡ key
      → Keyed f map
      → Keyed f (insert key value map)
  Keyed-insert f key value [] e h = (e, refl, tt)
  Keyed-insert f key value ((k, v) ∷ map) e (fv, fresh, rest) = elim (Bool-cases (k == key)) [
    | inl same ↦ rw same (e ∙ sym (eq→≡ k key same), fresh, rest)
    | inr other ↦ rw other (
      fv,
      get-insert_other key k value map (==_comm key k ∙ other) ∙ fresh,
      Keyed-insert f key value map e rest,
    )
  ]

  pub Keyed-get :
      (f : V → String) (key : String) (map : Map V) (v : V)
      → Keyed f map
      → get key map ≡ some v
      → f v ≡ key
  Keyed-get f key [] v h g = cc
  Keyed-get f key ((k, w) ∷ map) v (fw, fresh, rest) g = elim (Bool-cases (k == key)) [
    | inl same ↦ let e = eq→≡ k key same in ground arith
    | inr other ↦ Keyed-get f key map v rest (ground arith)
  ]

  -- Exactly the keys whose values pass are collected.
  pub contains-select :
      (f : V → String) (p : V → Bool) (key : String) (map : Map V)
      → Keyed f map
      → contains key (select p f map) ≡ found_that p (get key map)
  contains-select f p key [] h = refl
  contains-select f p key ((k, v) ∷ map) (fv, fresh, rest) =
      let again = contains-select f p key map rest in
      elim (Bool-cases (k == key)) [
        | inl same ↦
            let none_left : get key map ≡ none =
              subst (λ x. get x map ≡ none) (eq→≡ k key same) fresh in
            let last : contains key (select p f map) ≡ false =
              again ∙ ap (found_that p) none_left in
            rw (same, fv) (ground arith)
        | inr other ↦ rw (other, fv) (ground arith)
      ]

  -- Equal keys find the same value.
  pub same_entry :
      (key other : String) (map : Map V) {o : Option V}
      → get key map ≡ o
      → (key == other) ≡ true
      → get other map ≡ o
  same_entry key other map h e = ap (λ k. get k map) (sym (eq→≡ key other e)) ∙ h
