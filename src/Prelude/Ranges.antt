-- ===== src/Prelude/Ranges.antt =====
-- Facts over a small range of numbers, checked value by value.
use Prim.Native.Nat.{ℕ, zero, suc, ◌<◌}
use mathlib.Core.Path.{◌≡◌, refl}
use mathlib.Core.Bool.{Bool, true, false, not, ◌&&◌}
use native.Mathlib.Omega.{arith}

-- `test` holds of every number below the bound.
unfoldable pub passes_below : ℕ → (ℕ → Bool) → Bool
passes_below zero test = true
passes_below (suc last) test = test last && passes_below last test

pub passes_below_lem :
    (bound k : ℕ) (test : ℕ → Bool) → k < bound → passes_below bound test ≡ true → test k ≡ true
unfolding passes_below
passes_below_lem zero k test inside passed = absurd (omega arith)
passes_below_lem (suc last) k test inside passed = ground (arith, passes_below_lem last k test)

-- Equality of two Booleans, as a Boolean.
abbrev pub agree : Bool → Bool → Bool
agree true b = b
agree false b = not b

pub agree→eq : (a b : Bool) → agree a b ≡ true → a ≡ b
agree→eq true true h = refl
agree→eq true false h = cc
agree→eq false true h = cc
agree→eq false false h = refl
