-- ===== src/Utils.antt =====
-- kernel/utils.cpp: `itoa`. The text is the list of its bytes before the null byte.
mod Tests
use quillos.Prelude.{
  ℕ, zero, suc, ◌+◌, ◌-◌, ◌*◌, ◌/◌, ◌%◌, ◌^◌, ◌≤◌, ◌<◌, ◌≡◌, refl, ap, ◌∙◌, inl, inr, Bool, true,
  false, List, [], ◌∷◌, arith, if◌then◌else◌, Bool-cases, ◌==◌, u64_mod, length,
}

-- `while (n > 0) { tmp[i++] = (n % 10) + '0'; n /= 10; }`, for the given rounds at most
unfoldable pub digits : ℕ → ℕ → List ℕ
digits zero n = []
digits (suc fuel) n =
    let more = (n % 10 + b'0') ∷ digits fuel (n / 10) in if n == 0 then [] else more

-- `while (i > 0) str[j++] = tmp[--i]`
unfoldable pub copy_back : List ℕ → List ℕ → List ℕ
copy_back [] str = str
copy_back (d ∷ tmp) str = copy_back tmp (d ∷ str)

-- A number of 64 bits has 20 digits at most.
unfoldable pub itoa : ℕ → List ℕ
itoa n = copy_back (if n == 0 then b'0' ∷ [] else digits 20 n) []

-- What a reader of decimal digits makes of a text.
abbrev pub decimal : ℕ → List ℕ → ℕ
decimal value [] = value
decimal value (d ∷ str) = decimal (value * 10 + (d - b'0')) str

-- The number that the digits in `tmp` stand for, the lowest first.
abbrev low_first : List ℕ → ℕ
low_first [] = 0
low_first (d ∷ tmp) = d - b'0' + 10 * low_first tmp

abbrev pow10 : ℕ → ℕ
pow10 zero = 1
pow10 (suc k) = 10 * pow10 k

low_first-digits : (fuel n : ℕ) → n < pow10 fuel → low_first (digits fuel n) ≡ n
unfolding digits
low_first-digits zero n h = omega arith
low_first-digits (suc fuel) n h = elim (Bool-cases (n == 0)) [
  | inl e ↦ rw e (ground arith)
  | inr e ↦ rw e (omega (arith, low_first-digits fuel (n / 10) (omega arith)))
]

decimal-copy_back : (tmp str : List ℕ) → decimal 0 (copy_back tmp str) ≡ decimal (low_first tmp) str
unfolding copy_back
decimal-copy_back [] str = refl
decimal-copy_back (d ∷ tmp) str =
    decimal-copy_back tmp (d ∷ str) ∙ ap (λ v. decimal v str) (omega arith)

-- The text that `itoa` makes of a 64-bit number reads back as that number.
pub decimal-itoa : (n : ℕ) → n < u64_mod → decimal 0 (itoa n) ≡ n
unfolding itoa
decimal-itoa n h = elim (Bool-cases (n == 0)) [
  | inl e ↦ rw e (decimal-copy_back (b'0' ∷ []) [] ∙ ground arith)
  | inr e ↦ rw e (decimal-copy_back (digits 20 n) [] ∙ low_first-digits 20 n (omega arith))
]
