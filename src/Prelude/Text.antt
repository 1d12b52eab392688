-- ===== src/Prelude/Text.antt =====
-- C strings as the lists of their bytes before the null byte: the comparison that several files of
-- the kernel each define for themselves.
use Prim.Native.Nat.{ℕ, zero, suc}
use mathlib.Core.Path.{◌≡◌, refl}
use mathlib.Core.Logic.{inl, inr}
use mathlib.Core.Bool.{Bool, true, false, not}
use mathlib.Core.List.{List, [], ◌∷◌, ◌++◌}
use native.Mathlib.Omega.{arith}
use quillos.Prelude.Lists.{take}
use quillos.Prelude.Tests.{◌==◌, if◌then◌else◌, Bool-cases}

-- `while (a[i] && b[i]) { if (a[i] != b[i]) return false; i++; } return a[i] == b[i];`
unfoldable pub str_eq : List ℕ → List ℕ → Bool
str_eq [] [] = true
str_eq [] (b ∷ bs) = false
str_eq (a ∷ xs) [] = false
str_eq (a ∷ xs) (b ∷ ys) = let rest = str_eq xs ys in if a == b then rest else false

pub str_eq_refl : (a : List ℕ) → str_eq a a ≡ true
unfolding str_eq
str_eq_refl [] = refl
str_eq_refl (x ∷ xs) = let e : (x == x) ≡ true = ground arith in rw e (str_eq_refl xs)

pub str_eq_sound : (a b : List ℕ) → str_eq a b ≡ true → a ≡ b
unfolding str_eq
str_eq_sound [] [] h = refl
str_eq_sound [] (y ∷ ys) h = cc
str_eq_sound (x ∷ xs) [] h = cc
str_eq_sound (x ∷ xs) (y ∷ ys) h = elim (Bool-cases (x == y)) [
  | inl e ↦
      let e' : x ≡ y = ground arith in
      let rest : str_eq xs ys ≡ true = rw e at h in rw (e', str_eq_sound xs ys rest) refl
  | inr e ↦ let bad : false ≡ true = rw e at h in cc
]

-- A test against two texts gives the texts the same answers if they are equal.
pub str_eq_comm : (a b : List ℕ) → str_eq a b ≡ str_eq b a
str_eq_comm a b = elim (Bool-cases (str_eq a b)) [
  | inl e ↦ let same = str_eq_sound a b e in rw same refl
  | inr e ↦ elim (Bool-cases (str_eq b a)) [
    | inl e' ↦
        let same = str_eq_sound b a e' in
        let hit : str_eq a b ≡ true = rw same (str_eq_refl a) in cc
    | inr e' ↦ rw (e, e') refl
  ]
]

-- The C string at the start of an array of bytes.
unfoldable pub text_of : List ℕ → List ℕ
text_of [] = []
text_of (b ∷ bytes) = let rest = text_of bytes in if b == 0 then [] else b ∷ rest

-- Every byte passes the test.
abbrev pub Every : (ℕ → Bool) → List ℕ → Type 0
Every p [] = Unit {0}
Every p (c ∷ cs) = (p c ≡ true) × Every p cs

pub Every-append : (p : ℕ → Bool) (xs ys : List ℕ) → Every p xs → Every p ys → Every p (xs ++ ys)
Every-append p [] ys a b = b
Every-append p (x ∷ xs) ys a b = (a.0, Every-append p xs ys a.1 b)

pub Every-take : (p : ℕ → Bool) (n : ℕ) (xs : List ℕ) → Every p xs → Every p (take n xs)
Every-take p zero xs a = tt
Every-take p (suc n) [] a = tt
Every-take p (suc n) (x ∷ xs) a = (a.0, Every-take p n xs a.1)

abbrev pub is_nonzero : ℕ → Bool
is_nonzero c = not (c == 0)

-- The text of an array has no null byte, and an array without one is its text.
pub text_of-Every : (xs : List ℕ) → Every is_nonzero (text_of xs)
unfolding text_of
text_of-Every [] = tt
text_of-Every (x ∷ xs) = elim (Bool-cases (x == 0)) [
  | inl e ↦ rw e tt
  | inr e ↦ let on : is_nonzero x ≡ true = ground (arith, e) in rw e (on, text_of-Every xs)
]

pub text_of_nonzero : (xs : List ℕ) → Every is_nonzero xs → text_of xs ≡ xs
unfolding text_of
text_of_nonzero [] a = refl
text_of_nonzero (x ∷ xs) a =
    let e : (x == 0) ≡ false = ground (arith, a.0) in rw (e, text_of_nonzero xs a.1) refl
