-- ===== src/Prelude/Reference.antt =====
-- The loop by which the services draw a reference code that no row carries yet.
use Prim.Native.Nat.{ℕ, zero, suc, ◌+◌}
use mathlib.Core.Path.{◌≡◌}
use mathlib.Core.Logic.{inl, inr}
use mathlib.Core.Bool.{Bool, false, cond}
use mathlib.Core.Option.{Option, none, some}
use native.Mathlib.Omega.{arith}
use muhammad_tours_and_trave.Prelude.Tests.{Bool-cases}

-- `draw attempt` is the code that the random generator yields at that attempt, and `taken` asks
-- the table. What is left of the attempts is the fuel; the service begins with five.
unfoldable pub draw_unique : ℕ → ℕ → (ℕ → ℕ) → (ℕ → Bool) → Option ℕ
draw_unique zero attempt draw taken = none
draw_unique (suc left) attempt draw taken =
    let rest = draw_unique left (attempt + 1) draw taken in
    cond (taken (draw attempt)) rest (some (draw attempt))

abbrev pub unique_reference : (ℕ → ℕ) → (ℕ → Bool) → Option ℕ
unique_reference = draw_unique 5 0

-- A code that is drawn is carried by no row.
pub draw_unique-free :
    (left attempt : ℕ) (draw : ℕ → ℕ) (taken : ℕ → Bool) {code : ℕ}
    → draw_unique left attempt draw taken ≡ some code
    → taken code ≡ false
unfolding draw_unique
draw_unique-free zero attempt draw taken e = cc
draw_unique-free (suc left) attempt draw taken e = elim (Bool-cases (taken (draw attempt))) [
  | inl clash ↦ draw_unique-free left (attempt + 1) draw taken (ground (arith, clash))
  | inr free ↦ ground (arith, free)
]
