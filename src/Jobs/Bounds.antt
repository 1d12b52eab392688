-- ===== src/Jobs/Bounds.antt =====
-- kernel/djob.cpp, `Jobs::execute`: a result is a 32-bit number.
use quillos.Prelude.{
  ℕ, zero, suc, ◌+◌, ◌*◌, ◌/◌, ◌<◌, ◌≡◌, inl, inr, true, false, none, some, List, arith, length,
  get_or, ltb, leb, ◌==◌, Bool-cases, Option-cases, add32, u32_mod, some_eq,
}
use quillos.Jobs.Types.{JobType, job_sum, job_product, job_max, job_prime, job_echo, other}
use quillos.Jobs.Execute.{word, sum_loop, product_loop, max_loop, trial_loop, prime_loop, execute}

-- The elements are bytes.
abbrev pub IsBytes : List ℕ → Type 0
IsBytes bytes = (i : ℕ) → get_or bytes i 0 < 256

word-lt : (bytes : List ℕ) (i : ℕ) → IsBytes bytes → word bytes i < u32_mod
word-lt bytes i h = omega (arith, h (4 * i), h (4 * i + 1), h (4 * i + 2), h (4 * i + 3))

sum_loop-lt : (bytes : List ℕ) (n i sum : ℕ) → sum < u32_mod → sum_loop bytes n i sum < u32_mod
unfolding sum_loop
sum_loop-lt bytes zero i sum h = h
sum_loop-lt bytes (suc n) i sum h = sum_loop-lt bytes n (i + 1) _ (omega arith)

product_loop-lt :
    (bytes : List ℕ) (n i prod : ℕ) → prod < u32_mod → product_loop bytes n i prod < u32_mod
unfolding product_loop
product_loop-lt bytes zero i prod h = h
product_loop-lt bytes (suc n) i prod h = product_loop-lt bytes n (i + 1) _ (omega arith)

max_loop-lt :
    (bytes : List ℕ) (n i mx : ℕ) → IsBytes bytes → mx < u32_mod → max_loop bytes n i mx < u32_mod
unfolding max_loop
max_loop-lt bytes zero i mx b h = h
max_loop-lt bytes (suc n) i mx b h =
    max_loop-lt bytes n (i + 1) _ b (ground (arith, h, word-lt bytes i b))

prime_loop-lt :
    (fuel n i primes v : ℕ) → primes < u32_mod → prime_loop fuel n i primes ≡ some v → v < u32_mod
unfolding prime_loop
prime_loop-lt zero n i primes v h e = cc
prime_loop-lt (suc fuel) n i primes v h e = elim (Bool-cases (leb i n)) [
  | inr past ↦ let z = some_eq (rw past at e) in omega (arith, h, z)
  | inl more ↦ elim (Option-cases (trial_loop (suc fuel) i 2)) [
    | inl out ↦ let f : none ≡ some v = rw (more, out) at e in cc
    | inr (true, found) ↦
        prime_loop-lt fuel n (add32 i 1) (add32 primes 1) v (omega arith) (rw (more, found) at e)
    | inr (false, found) ↦ prime_loop-lt fuel n (add32 i 1) primes v h (rw (more, found) at e)
  ]
]

pub execute-lt :
    (fuel : ℕ) (kind : JobType) (bytes : List ℕ) (v : ℕ)
    → IsBytes bytes
    → length bytes < u32_mod
    → execute fuel kind bytes ≡ some v
    → v < u32_mod
unfolding execute
execute-lt fuel job_sum bytes v b h e =
    let z = some_eq e in omega (arith, z, sum_loop-lt bytes (length bytes / 4) 0 0 (omega arith))
execute-lt fuel job_product bytes v b h e =
    let z = some_eq e in
    omega (arith, z, product_loop-lt bytes (length bytes / 4) 0 1 (omega arith))
execute-lt fuel job_max bytes v b h e =
    let z = some_eq e in omega (arith, z, max_loop-lt bytes (length bytes / 4) 0 0 b (omega arith))
execute-lt fuel job_prime bytes v b h e = elim (Bool-cases (length bytes / 4 == 0)) [
  | inl empty ↦ let z = some_eq (rw empty at e) in omega (arith, z)
  | inr some_word ↦ elim (Bool-cases (ltb (word bytes 0) 2)) [
    | inl low ↦ let z = some_eq (rw (some_word, low) at e) in omega (arith, z)
    | inr high ↦ prime_loop-lt fuel (word bytes 0) 2 0 v (omega arith) (rw (some_word, high) at e)
  ]
]
execute-lt fuel job_echo bytes v b h e = let z = some_eq e in omega (arith, z, h)
execute-lt fuel (other k) bytes v b h e = let z = some_eq e in omega (arith, z)
