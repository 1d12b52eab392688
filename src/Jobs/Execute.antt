-- ===== src/Jobs/Execute.antt =====
-- kernel/djob.cpp, namespace `Jobs`: what the execution of a job computes.
--
-- The payload is the list of its `len` bytes. The loops of JOB_PRIME run on fuel, and `none` means
-- that it ran out; the other loops run once for each word.
use quillos.Prelude.{
  ℕ, zero, suc, ◌+◌, ◌*◌, ◌/◌, ◌%◌, Bool, true, false, Option, none, some, List, length, get_or,
  ltb, leb, ◌==◌, if◌then◌else◌, add32, mul32,
}
use quillos.Jobs.Types.{JobType, job_sum, job_product, job_max, job_prime, job_echo, other}

-- `mem_copy(&val, data + i * 4, 4)`, on a little-endian machine
abbrev pub word : List ℕ → ℕ → ℕ
word bytes i =
    get_or bytes (4 * i) 0
    + 256 * get_or bytes (4 * i + 1) 0
    + 65536 * get_or bytes (4 * i + 2) 0
    + 16777216 * get_or bytes (4 * i + 3) 0

-- The loops of the first three kinds: `n` rounds from word `i` on.
unfoldable pub sum_loop : List ℕ → ℕ → ℕ → ℕ → ℕ
sum_loop bytes zero i sum = sum
sum_loop bytes (suc n) i sum = sum_loop bytes n (i + 1) (add32 sum (word bytes i))

unfoldable pub product_loop : List ℕ → ℕ → ℕ → ℕ → ℕ
product_loop bytes zero i prod = prod
product_loop bytes (suc n) i prod = product_loop bytes n (i + 1) (mul32 prod (word bytes i))

unfoldable pub max_loop : List ℕ → ℕ → ℕ → ℕ → ℕ
max_loop bytes zero i mx = mx
max_loop bytes (suc n) i mx =
    max_loop bytes n (i + 1) (if ltb mx (word bytes i) then word bytes i else mx)

-- The inner loop of JOB_PRIME, from the divisor `j` on: does it leave `is_prime` true?
unfoldable pub trial_loop : ℕ → ℕ → ℕ → Option Bool
trial_loop zero i j = none
trial_loop (suc fuel) i j =
    let rest = trial_loop fuel i (add32 j 1) in
    if leb (mul32 j j) i then if i % j == 0 then some false else rest else some true

-- The outer loop, from the candidate `i` on.
unfoldable pub prime_loop : ℕ → ℕ → ℕ → ℕ → Option ℕ
unfolding trial_loop
prime_loop zero n i primes = none
prime_loop (suc fuel) n i primes =
    let counted = prime_loop fuel n (add32 i 1) (add32 primes 1) in
    let passed = prime_loop fuel n (add32 i 1) primes in
    if leb i n
    then elim (trial_loop (suc fuel) i 2) [
      | none ↦ none
      | some true ↦ counted
      | some false ↦ passed
    ]
    else some primes

unfoldable pub execute : ℕ → JobType → List ℕ → Option ℕ
unfolding sum_loop product_loop max_loop prime_loop
execute fuel job_sum bytes = some (sum_loop bytes (length bytes / 4) 0 0)
execute fuel job_product bytes = some (product_loop bytes (length bytes / 4) 0 1)
execute fuel job_max bytes = some (max_loop bytes (length bytes / 4) 0 0)
execute fuel job_prime bytes =
    if length bytes / 4 == 0
    then some 0
    else if ltb (word bytes 0) 2
    then some 0
    else prime_loop fuel (word bytes 0) 2 0
execute fuel job_echo bytes = some (length bytes)
execute fuel (other k) bytes = some 0
