-- ===== src/Prelude/Count.antt =====
-- How many entries of a table pass a test, and what an update does to that number.
use Prim.Native.Nat.{ℕ, zero, suc, ◌+◌, ◌≤◌, ◌<◌}
use mathlib.Core.Path.{◌≡◌, refl, ap}
use mathlib.Core.Bool.{Bool, true, false}
use mathlib.Core.List.{List, [], ◌∷◌}
use native.Mathlib.Omega.{arith}
use quillos.Prelude.Lists.{length, get_or, set}
use quillos.Prelude.Tables.{map_from}

abbrev pub one_if : Bool → ℕ
one_if true = 1
one_if false = 0

module _ {ℓ} {A : Type ℓ} where
  abbrev pub count_if : (A → Bool) → List A → ℕ
  count_if p [] = 0
  count_if p (x ∷ xs) = one_if (p x) + count_if p xs

module _ {ℓ} {A : Type ℓ} (p : A → Bool) where
  pub count_if-le : (xs : List A) → count_if p xs ≤ length xs
  count_if-le [] = omega arith
  count_if-le (x ∷ xs) = ground (arith, count_if-le xs)

  -- A write moves the number by what the old and the new entry count.
  pub count_if-set :
      (xs : List A) (i : ℕ) (v d : A)
      → i < length xs
      → count_if p (set xs i v) + one_if (p (get_or xs i d)) ≡ count_if p xs + one_if (p v)
  count_if-set [] i v d h = absurd (omega arith)
  count_if-set (x ∷ xs) zero v d h = omega arith
  count_if-set (x ∷ xs) (suc i) v d h = omega (arith, count_if-set xs i v d (omega arith))

  pub count_if-pos :
      (xs : List A) (i : ℕ) (d : A) → i < length xs → p (get_or xs i d) ≡ true → 1 ≤ count_if p xs
  count_if-pos [] i d h e = absurd (omega arith)
  count_if-pos (x ∷ xs) zero d h e = ground arith
  count_if-pos (x ∷ xs) (suc i) d h e = omega (arith, count_if-pos xs i d (omega arith) e)

  -- A pass that changes no entry's outcome keeps the number.
  pub count_if-map_from :
      (k : ℕ) (f : ℕ → A → A) (xs : List A)
      → ((i : ℕ) (x : A) → p (f i x) ≡ p x)
      → count_if p (map_from k f xs) ≡ count_if p xs
  count_if-map_from k f [] h = refl
  count_if-map_from k f (x ∷ xs) h =
      omega (arith, ap one_if (h k x), count_if-map_from (suc k) f xs h)
