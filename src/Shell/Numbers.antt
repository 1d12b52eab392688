-- ===== src/Shell/Numbers.antt =====
-- kernel/shell.cpp: the numbers in the arguments of `run`, and its loop, which may not end.
use quillos.Prelude.{
  get_or, Every, ℕ, zero, suc, ◌+◌, ◌-◌, ◌*◌, ◌/◌, ◌%◌, ◌≤◌, ◌<◌, ◌≡◌, refl, sym, ap, ◌∙◌, inl, inr,
  true, false, none, some, List, [], ◌∷◌, ◌++◌, arith, length, ◌==◌, ◌>>=◌, Bool-cases, add32,
  mul32, u32_mod,
}
use quillos.Utils.{digits, copy_back, itoa, decimal, decimal-itoa}
use quillos.Shell.Lines.{space, is_digit, skip_spaces, read_number, run_values}

-- The digits that `itoa` writes.
digits-Every : (fuel n : ℕ) → Every is_digit (digits fuel n)
unfolding digits
digits-Every zero n = tt
digits-Every (suc fuel) n = elim (Bool-cases (n == 0)) [
  | inl e ↦ rw e tt
  | inr e ↦ rw e (ground arith, digits-Every fuel (n / 10))
]

copy_back-Every :
    (tmp str : List ℕ)
    → Every is_digit tmp
    → Every is_digit str
    → Every is_digit (copy_back tmp str)
unfolding copy_back
copy_back-Every [] str a b = b
copy_back-Every (d ∷ tmp) str a b = copy_back-Every tmp (d ∷ str) a.1 (a.0, b)

length-copy_back : (tmp str : List ℕ) → length (copy_back tmp str) ≡ length tmp + length str
unfolding copy_back
length-copy_back [] str = omega arith
length-copy_back (d ∷ tmp) str = omega (arith, length-copy_back tmp (d ∷ str))

itoa-Every : (n : ℕ) → Every is_digit (itoa n)
unfolding itoa
itoa-Every n = elim (Bool-cases (n == 0)) [
  | inl e ↦ rw e (copy_back-Every (b'0' ∷ []) [] (refl, tt) tt)
  | inr e ↦ rw e (copy_back-Every (digits 20 n) [] (digits-Every 20 n) tt)
]

pub length-itoa : (n : ℕ) → 1 ≤ length (itoa n)
unfolding itoa digits
length-itoa n = elim (Bool-cases (n == 0)) [
  | inl e ↦ let l = length-copy_back (b'0' ∷ []) [] in rw e (omega (arith, l))
  | inr e ↦
      let l = length-copy_back ((n % 10 + b'0') ∷ digits 19 (n / 10)) [] in rw e (omega (arith, l))
]

-- Digits in front of what is not a digit are read as `decimal` does, to the width of the word.
read_number-digits :
    (v : ℕ) (ds rest : List ℕ)
    → Every is_digit ds
    → ((w : ℕ) → read_number w rest ≡ (w, rest))
    → read_number (v % u32_mod) (ds ++ rest) ≡ (decimal v ds % u32_mod, rest)
unfolding read_number
read_number-digits v [] rest a stop = stop (v % u32_mod)
read_number-digits v (d ∷ ds) rest a stop =
    let next : add32 (mul32 (v % u32_mod) 10) (d - b'0') ≡ (v * 10 + (d - b'0')) % u32_mod =
      omega arith in
    rw (a.0, next) (read_number-digits (v * 10 + (d - b'0')) ds rest a.1 stop)

read_number-itoa :
    (n : ℕ) (rest : List ℕ)
    → n < u32_mod
    → ((w : ℕ) → read_number w rest ≡ (w, rest))
    → read_number 0 (itoa n ++ rest) ≡ (n, rest)
read_number-itoa n rest h stop =
    let all = read_number-digits 0 (itoa n) rest (itoa-Every n) stop in
    let back : decimal 0 (itoa n) ≡ n = decimal-itoa n (omega arith) in
    all ∙ ap (λ v. (v % u32_mod, rest)) back ∙ ap (λ v. (v, rest)) (omega arith)

-- Numbers as they are typed behind a word: a space and the digits of each.
abbrev pub typed_numbers : List ℕ → List ℕ
typed_numbers [] = []
typed_numbers (n ∷ ns) = space ∷ (itoa n ++ typed_numbers ns)

typed_numbers-stop :
    (ns : List ℕ) (w : ℕ) → read_number w (typed_numbers ns) ≡ (w, typed_numbers ns)
unfolding read_number
typed_numbers-stop [] w = refl
typed_numbers-stop (n ∷ ns) w = refl

-- A text that starts with a digit.
digit_first :
    (ds rest : List ℕ)
    → Every is_digit ds
    → 1 ≤ length ds
    → (d : ℕ) × (ds' : List ℕ) × (ds ++ rest ≡ d ∷ ds') × (is_digit d ≡ true)
digit_first [] rest a l = absurd (omega arith)
digit_first (d ∷ ds) rest a l = (d, ds ++ rest, refl, a.0)

skip_spaces-digit : (d : ℕ) (ds : List ℕ) → is_digit d ≡ true → skip_spaces (d ∷ ds) ≡ d ∷ ds
unfolding skip_spaces
skip_spaces-digit d ds a = let e : (d == space) ≡ false = ground (arith, a) in rw e refl

-- What follows the spaces is the first number.
pub skip_spaces-typed :
    (n : ℕ) (ns : List ℕ) → skip_spaces (typed_numbers (n ∷ ns)) ≡ itoa n ++ typed_numbers ns
unfolding skip_spaces
skip_spaces-typed n ns =
    let f = digit_first (itoa n) (typed_numbers ns) (itoa-Every n) (length-itoa n) in
    ap skip_spaces f.2 ∙ skip_spaces-digit f.0 f.1 f.3 ∙ sym f.2

-- One round of the loop on a digit.
run_values-digit :
    (fuel room d : ℕ) (ds rest : List ℕ) (v : ℕ)
    → is_digit d ≡ true
    → read_number 0 (d ∷ ds) ≡ (v, rest)
    → run_values (suc fuel) (suc room) (d ∷ ds)
      ≡ (run_values fuel room (skip_spaces rest) >>= (λ vs. some (v ∷ vs)))
unfolding run_values
run_values-digit fuel room d ds rest v a e = rw (a, e) refl

run_values-end : (fuel room : ℕ) → run_values (suc fuel) room (skip_spaces []) ≡ some []
unfolding run_values skip_spaces
run_values-end fuel zero = refl
run_values-end fuel (suc room) = refl

-- Up to `room` numbers of 32 bits, as `itoa` writes them, with a space in front of each, are read
-- back.
pub run_values-typed :
    (fuel room : ℕ) (ns : List ℕ)
    → length ns < fuel
    → length ns ≤ room
    → ((i : ℕ) → get_or ns i 0 < u32_mod)
    → run_values fuel room (skip_spaces (typed_numbers ns)) ≡ some ns
run_values-typed zero room ns f r small = absurd (omega arith)
run_values-typed (suc fuel) zero [] f r small = run_values-end fuel 0
run_values-typed (suc fuel) (suc room) [] f r small = run_values-end fuel (suc room)
run_values-typed (suc fuel) zero (n ∷ ns) f r small = absurd (omega arith)
run_values-typed (suc fuel) (suc room) (n ∷ ns) f r small =
    let d = digit_first (itoa n) (typed_numbers ns) (itoa-Every n) (length-itoa n) in
    let read =
      ap (read_number 0) (sym d.2)
      ∙ read_number-itoa n (typed_numbers ns) (small 0) (typed_numbers-stop ns) in
    let rest = run_values-typed fuel room ns (omega arith) (omega arith) (λ i. small (suc i)) in
    ap (run_values (suc fuel) (suc room)) (skip_spaces-typed n ns ∙ d.2)
    ∙ run_values-digit fuel room d.0 d.1 (typed_numbers ns) n d.3 read
    ∙ ap (λ o. o >>= (λ vs. some (n ∷ vs))) rest

-- The loop of `run` makes no progress on a byte that is neither a digit nor a space.
pub run_values_hangs :
    (fuel room c : ℕ) (cs : List ℕ)
    → is_digit c ≡ false
    → (c == space) ≡ false
    → run_values fuel (suc room) (c ∷ cs) ≡ none
unfolding run_values skip_spaces
run_values_hangs zero room c cs d s = refl
run_values_hangs (suc fuel) room c cs d s = rw (d, s) (run_values_hangs fuel room c cs d s)
