-- ===== src/Pair/Run.antt =====
-- Calls of the two nodes. The primary is in the coordinator's process and the secondary behind a
-- transport; a call can be lost before or after it has taken effect, which is also what a crash
-- of the process leaves behind, since then nothing more is called.
use terrapi_vault.Common.{
  bool_eq, option_eq, list_eq, string_eq, nat_eq, Result, err, ok, ensure, ℕ, suc, String, Bool,
  Option, none, some,
}
use terrapi_vault.Pair.Model.{identity_eq, checkpoint_eq, receipt_eq}
use terrapi_vault.Pair.Tables.{Node}

pub data Fault : Type 0 where
  delivered lost_request lost_reply : Fault

pub record World (C V : Type 0) : Type 0 where
  pub first_copy : Node C V
  pub second_copy : Node C V
  -- The calls so far.
  pub calls : ℕ

abbrev pub unreachable : String
unreachable = "unreachable"

-- A program over both nodes: what it leaves, and its result.
abbrev pub Run : (C V T : Type 0) → Type 0
Run C V T = World C V → World C V × Result T

module _ {C V T : Type 0} where
  unfoldable pub return : T → Run C V T
  return t w = (w, ok t)

  unfoldable pub lift : Result T → Run C V T
  lift r w = (w, r)

  -- What a call of one node leaves.
  abbrev pub deliver :
      Fault → (Node C V → World C V) → World C V → Result (Node C V × T) → World C V × Result T
  deliver delivered put w (ok (n, t)) = (put n, ok t)
  deliver delivered put w (err m) = (w, err m)
  deliver lost_reply put w (ok (n, t)) = (put n, err unreachable)
  deliver lost_reply put w (err m) = (w, err unreachable)
  deliver lost_request put w r = (w, err unreachable)

  module _ (fault : ℕ → Fault) (operation : Node C V → Result (Node C V × T)) where
    unfoldable pub on_primary : Run C V T
    on_primary w =
        let tick : World C V = record w { calls = suc w.calls } in
        deliver (fault w.calls) (λ n. record tick { first_copy = n }) tick (operation w.first_copy)

    unfoldable pub on_secondary : Run C V T
    on_secondary w =
        let tick : World C V = record w { calls = suc w.calls } in
        deliver (fault w.calls) (λ n. record tick { second_copy = n }) tick
          (operation w.second_copy)

  -- An operation that only reads.
  abbrev pub reading : (Node C V → Result T) → Node C V → Result (Node C V × T)
  reading f n = elim (f n) [ err m ↦ err m | ok t ↦ ok (n, t) ]

-- An operation that returns nothing.
abbrev pub writing :
    {C V : Type 0} → (Node C V → Result (Node C V)) → Node C V → Result (Node C V × Unit {0})
writing f n = elim (f n) [ err m ↦ err m | ok next ↦ ok (next, tt) ]

module _ {C V T U : Type 0} where
  infixl 5 ◌>>=◌ ◌>>◌
  abbrev pub after_step : (T → Run C V U) → World C V × Result T → World C V × Result U
  after_step next (w, err m) = (w, err m)
  after_step next (w, ok t) = next t w

  -- An error ends the program and leaves what was done.
  unfoldable pub ◌>>=◌ : Run C V T → (T → Run C V U) → Run C V U
  (m >>= next) w = after_step next (m w)

  abbrev pub ◌>>◌ : Run C V T → Run C V U → Run C V U
  m >> next = m >>= (λ _. next)

abbrev pub require : {C V : Type 0} → Bool → String → Run C V (Unit {0})
require condition message = lift (ensure condition message)

-- A loop that has used up its fuel has no result.
abbrev pub finished : {C V T : Type 0} → Option T → Run C V T
finished none = lift (err "out of fuel")
finished (some t) = return t
