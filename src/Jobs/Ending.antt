-- ===== src/Jobs/Ending.antt =====
-- kernel/djob.cpp: which jobs end, and how many rounds they take at most.
use quillos.Prelude.{
  ℕ, zero, suc, ◌+◌, ◌/◌, ◌%◌, ◌≤◌, ◌<◌, ◌≡◌, refl, ap, ◌∙◌, inl, inr, Bool, true, false, some,
  List, arith, length, leb, ltb, ◌==◌, Bool-cases, add32, mul32, u32_mod,
}
use quillos.Jobs.Types.{JobType, job_sum, job_product, job_max, job_prime, job_echo, other}
use quillos.Jobs.Execute.{word, trial_loop, prime_loop, execute}

-- The inner loop ends at the candidate itself at the latest.
trial_loop-ends :
    (fuel i j : ℕ)
    → 1 ≤ j
    → j ≤ i
    → i < u32_mod
    → i < fuel + j
    → (b : Bool) × (trial_loop fuel i j ≡ some b)
unfolding trial_loop
trial_loop-ends zero i j pos le hi enough = absurd (omega arith)
trial_loop-ends (suc fuel) i j pos le hi enough = elim (Bool-cases (leb (mul32 j j) i)) [
  | inr past ↦ (true, rw past refl)
  | inl go ↦ elim (Bool-cases (i % j == 0)) [
    | inl divides ↦ (false, rw (go, divides) refl)
    | inr rest ↦ elim (Bool-cases (i == j)) [
      | inl same ↦
          let zero_left : i % j ≡ 0 = grind (arith, same) in
          absurd (ground (arith, zero_left, rest))
      | inr differ ↦
          let next : add32 j 1 ≡ j + 1 = ground (arith, le, hi, differ) in
          let below : j + 1 ≤ i = ground (arith, le, differ) in
          let r = trial_loop-ends fuel i (j + 1) (omega arith) below hi (omega arith) in
          let on : trial_loop (suc fuel) i j ≡ trial_loop fuel i (add32 j 1) = rw (go, rest) refl in
          (r.0, on ∙ ap (trial_loop fuel i) next ∙ r.1)
    ]
  ]
]

-- The outer loop, up to a bound that is not the last 32-bit number.
prime_loop-ends :
    (fuel n i primes : ℕ)
    → 2 ≤ i
    → i ≤ n + 1
    → n + 1 < u32_mod
    → n + n + 2 ≤ fuel + i
    → (v : ℕ) × (prime_loop fuel n i primes ≡ some v)
unfolding prime_loop
prime_loop-ends zero n i primes low le hi enough = absurd (omega arith)
prime_loop-ends (suc fuel) n i primes low le hi enough = elim (Bool-cases (leb i n)) [
  | inr past ↦ (primes, rw past refl)
  | inl go ↦
      let inside : i ≤ n = ground arith in
      let next : add32 i 1 ≡ i + 1 = omega arith in
      let (b, tried) =
        trial_loop-ends (suc fuel) i 2 (omega arith) low (omega arith) (omega arith) in
      let more : (p : ℕ) → (v : ℕ) × (prime_loop fuel n (i + 1) p ≡ some v) =
        λ p. prime_loop-ends fuel n (i + 1) p (omega arith) (omega arith) hi (omega arith) in
      elim (Bool-cases b) [
        | inl yes_prime ↦
            let (v, e) = more (add32 primes 1) in
            let found : trial_loop (suc fuel) i 2 ≡ some true = tried ∙ ap some yes_prime in
            let on : prime_loop (suc fuel) n i primes
                ≡ prime_loop fuel n (add32 i 1) (add32 primes 1) =
              rw (go, found) refl in
            (v, on ∙ ap (λ k. prime_loop fuel n k (add32 primes 1)) next ∙ e)
        | inr no_prime ↦
            let (v, e) = more primes in
            let found : trial_loop (suc fuel) i 2 ≡ some false = tried ∙ ap some no_prime in
            let on : prime_loop (suc fuel) n i primes ≡ prime_loop fuel n (add32 i 1) primes =
              rw (go, found) refl in
            (v, on ∙ ap (λ k. prime_loop fuel n k primes) next ∙ e)
      ]
]

-- Every job but a search for primes up to 2^32 - 1.
abbrev pub IsFinite : JobType → List ℕ → Type 0
IsFinite job_prime bytes = word bytes 0 + 1 < u32_mod
IsFinite job_sum bytes = Unit {0}
IsFinite job_product bytes = Unit {0}
IsFinite job_max bytes = Unit {0}
IsFinite job_echo bytes = Unit {0}
IsFinite (other k) bytes = Unit {0}

-- Enough fuel for a payload: twice its first word and two more.
abbrev pub job_rounds : List ℕ → ℕ
job_rounds bytes = word bytes 0 + word bytes 0 + 2

-- Such a job ends within these rounds.
pub execute-ends :
    (fuel : ℕ) (kind : JobType) (bytes : List ℕ)
    → IsFinite kind bytes
    → job_rounds bytes ≤ fuel
    → (v : ℕ) × (execute fuel kind bytes ≡ some v)
unfolding execute
execute-ends fuel job_sum bytes fin enough = (_, refl)
execute-ends fuel job_product bytes fin enough = (_, refl)
execute-ends fuel job_max bytes fin enough = (_, refl)
execute-ends fuel job_echo bytes fin enough = (_, refl)
execute-ends fuel (other k) bytes fin enough = (_, refl)
execute-ends fuel job_prime bytes fin enough = elim (Bool-cases (length bytes / 4 == 0)) [
  | inl empty ↦ (0, rw empty refl)
  | inr full ↦ elim (Bool-cases (ltb (word bytes 0) 2)) [
    | inl small ↦ (0, rw (full, small) refl)
    | inr large ↦
        let r =
          prime_loop-ends fuel (word bytes 0) 2 0 (omega arith) (ground (arith, large)) fin
            (omega arith) in
        (r.0, rw (full, large) r.1)
  ]
]
