-- ===== src/Transport/Examples/Ids.antt =====
-- A generator of ids that never repeats one.
use Prim.Native.Nat.{ℕ, zero, suc}
use Prim.Native.String.{String, [], ◌∷◌}
use mathlib.Core.Path.{◌≡◌, refl, ap}
use native.Mathlib.Omega.{arith}
use terrapi_vault.Transport.Lease.Invariant.{Fresh}

abbrev pub name : ℕ → String
name zero = "id"
name (suc n) = "i" ∷ name n

abbrev extra : String → ℕ
extra [] = 0
extra (c ∷ s) = suc (extra s)

extra-name : (n : ℕ) → extra (name n) ≡ suc (suc n)
extra-name zero = refl
extra-name (suc n) = ap suc (extra-name n)

pub name-Fresh : Fresh name
name-Fresh m n h = omega (arith, extra-name m, extra-name n, ap extra h)
