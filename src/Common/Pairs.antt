-- ===== src/Common/Pairs.antt =====
-- The arrays of two, `[T; 2]`, by index, and the machine words.
use Prim.Native.Nat.{ℕ, ◌+◌, ◌-◌, ◌^◌}
use mathlib.Core.Bool.{Bool, false, ◌&&◌}
use mathlib.Core.Option.{Option, none, some}
use terrapi_vault.Common.Tests.{ltb, leb, if◌then◌else◌}

pub data Index2 : Type 0 where
  first second : Index2

module _ {ℓ} {A : Type ℓ} where
  abbrev pub at : A × A → Index2 → A
  at (a, b) first = a
  at (a, b) second = b

  abbrev pub put_at : A × A → Index2 → A → A × A
  put_at (a, b) first x = (x, b)
  put_at (a, b) second x = (a, x)

-- `flags == [true; 2]`
abbrev pub both : Bool × Bool → Bool
both (a, b) = a && b

abbrev pub neither : Bool × Bool
neither = (false, false)

abbrev pub u64_mod : ℕ
u64_mod = 2 ^ 64

abbrev pub i64_max : ℕ
i64_max = 2 ^ 63 - 1

-- `a.checked_add(b)` on `u64`
unfoldable pub checked_add : ℕ → ℕ → Option ℕ
checked_add a b = if ltb (a + b) u64_mod then some (a + b) else none

-- `a.checked_sub(b)`
abbrev pub checked_sub : ℕ → ℕ → Option ℕ
checked_sub a b = if leb b a then some (a - b) else none
