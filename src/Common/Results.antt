-- ===== src/Common/Results.antt =====
-- Fallible code: `Result<T, &'static str>` and `Result<T, Box<dyn Error>>` with their messages,
-- and `ensure` (replication/recovery/src/lib.rs).
use Prim.Native.String.{String}
use mathlib.Core.Path.{◌≡◌, refl}
use mathlib.Core.Bool.{Bool, true, false}
use mathlib.Core.Option.{Option, none, some}

pub data Result {ℓ} (T : Type ℓ) : Type ℓ where
  err : (message : String) → Result T
  ok : (value : T) → Result T

-- `condition` must hold.
abbrev pub ensure : (condition : Bool) (message : String) → Result (Unit {0})
ensure false message = err message
ensure true message = ok tt

-- `o.ok_or(message)`
abbrev pub ok_or {ℓ} : {T : Type ℓ} → Option T → (message : String) → Result T
ok_or none message = err message
ok_or (some value) message = ok value

module _ {ℓ κ} {T : Type ℓ} {U : Type κ} where
  infixl 5 ◌>>=◌ ◌>>◌
  -- The operator `?`: an error ends the function.
  abbrev pub ◌>>=◌ : Result T → (T → Result U) → Result U
  err message >>= next = err message
  ok value >>= next = next value

  abbrev pub ◌>>◌ : Result T → Result U → Result U
  first >> next = first >>= (λ _. next)

  -- A block that succeeds, taken apart at its first step.
  pub bind-eq-ok :
      (first : Result T) (next : T → Result U) {u : U}
      → (first >>= next) ≡ ok u
      → (value : T) × (first ≡ ok value) × (next value ≡ ok u)
  bind-eq-ok (err message) next e = cc
  bind-eq-ok (ok value) next e = (value, refl, e)

  pub then-eq-ok :
      (first : Result T) (next : Result U) {u : U}
      → (first >> next) ≡ ok u
      → (value : T) × (first ≡ ok value) × (next ≡ ok u)
  then-eq-ok (err message) next e = cc
  then-eq-ok (ok value) next e = (value, refl, e)

  pub ok_or-eq-ok :
      (o : Option T) (message : String) (next : T → Result U) {u : U}
      → (ok_or o message >>= next) ≡ ok u
      → (value : T) × (o ≡ some value) × (next value ≡ ok u)
  ok_or-eq-ok none message next e = cc
  ok_or-eq-ok (some value) message next e = (value, refl, e)

module _ {κ} {U : Type κ} where
  pub ensure-eq-ok :
      (condition : Bool) (message : String) (next : Result U) {u : U}
      → (ensure condition message >> next) ≡ ok u
      → (condition ≡ true) × (next ≡ ok u)
  ensure-eq-ok false message next e = cc
  ensure-eq-ok true message next e = (refl, e)

  pub check-eq-ok :
      (check : Result (Unit {0})) (next : Result U) {u : U}
      → (check >> next) ≡ ok u
      → (check ≡ ok tt) × (next ≡ ok u)
  check-eq-ok (err message) next e = cc
  check-eq-ok (ok tt) next e = (refl, e)

-- Equal successes have equal values.
pub ok_injective {ℓ} : {T : Type ℓ} (a b : T) → ok a ≡ ok b → a ≡ b
ok_injective a b h = cc
