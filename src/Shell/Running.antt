-- ===== src/Shell/Running.antt =====
-- kernel/shell.cpp with djob.cpp: the command `run sum`, from the line that is typed to the result of
-- the job.
use quillos.Prelude.{
  get_or, get_or-drop, take_all, ℕ, zero, suc, ◌+◌, ◌*◌, ◌/◌, ◌≤◌, ◌<◌, ◌≡◌, refl, sym, ap, ◌∙◌,
  some, List, [], ◌∷◌, ◌++◌, arith, length, length-append, str_eq, if◌then◌else◌, ◌>>=◌, add32,
  u32_mod,
}
use quillos.Utils.{itoa}
use quillos.Network.Wire.{store32}
use quillos.Jobs.Types.{job_sum}
use quillos.Jobs.Execute.{word, sum_loop, execute}
use quillos.Shell.Types.{Shell, call_submit}
use quillos.Shell.Lines.{
  is_empty, space, skip_spaces, take_word, run_values, array_bytes, job_type_named, split_word,
  split_command,
}
use quillos.Shell.Names.{cmd_run, command_in, command_named}
use quillos.Shell.Commands.{quiet}
use quillos.Shell.Requests.{run_command, run_typed, run_call}
use quillos.Shell.{perform_named, perform, process_command}
use quillos.Shell.Numbers.{typed_numbers, length-itoa, skip_spaces-typed, run_values-typed}

-- The sum that JOB_SUM computes.
abbrev pub total : ℕ → List ℕ → ℕ
total sum [] = sum
total sum (v ∷ vs) = total (add32 sum v) vs

length-array_bytes : (vs : List ℕ) → length (array_bytes vs) ≡ 4 * length vs
unfolding array_bytes
length-array_bytes [] = omega arith
length-array_bytes (v ∷ vs) =
    omega (arith, length-append (store32 v) (array_bytes vs), length-array_bytes vs)

-- The words of an array of numbers are the numbers.
word-array_bytes :
    (vs : List ℕ) (i : ℕ)
    → ((j : ℕ) → get_or vs j 0 < u32_mod)
    → word (array_bytes vs) i ≡ get_or vs i 0
unfolding array_bytes
word-array_bytes [] i small = omega arith
word-array_bytes (v ∷ vs) zero small = let h = small 0 in omega arith
word-array_bytes (v ∷ vs) (suc i) small =
    let at : (k : ℕ)
        → get_or (array_bytes (v ∷ vs)) (4 * suc i + k) 0 ≡ get_or (array_bytes vs) (4 * i + k) 0 =
      λ k.
        ap (λ j. get_or (array_bytes (v ∷ vs)) j 0) (omega arith)
        ∙ sym (get_or-drop 4 (4 * i + k) (array_bytes (v ∷ vs)) 0) in
    let first : get_or (array_bytes (v ∷ vs)) (4 * suc i) 0 ≡ get_or (array_bytes vs) (4 * i) 0 =
      ap (λ j. get_or (array_bytes (v ∷ vs)) j 0) (omega arith)
      ∙ at 0
      ∙ ap (λ j. get_or (array_bytes vs) j 0) (omega arith) in
    let rest = word-array_bytes vs i (λ j. small (suc j)) in
    omega (arith, first, at 1, at 2, at 3, rest)

sum_loop-total :
    (bytes vs : List ℕ) (i sum : ℕ)
    → ((j : ℕ) → word bytes (i + j) ≡ get_or vs j 0)
    → sum_loop bytes (length vs) i sum ≡ total sum vs
unfolding sum_loop
sum_loop-total bytes [] i sum h = refl
sum_loop-total bytes (v ∷ vs) i sum h =
    let here : word bytes i ≡ v = ap (word bytes) (omega arith) ∙ h 0 in
    ap (λ w. sum_loop bytes (length vs) (i + 1) (add32 sum w)) here
    ∙ sum_loop-total bytes vs (i + 1) (add32 sum v) (λ j. ap (word bytes) (omega arith) ∙ h (suc j))

execute-total :
    (vs : List ℕ)
    → ((j : ℕ) → get_or vs j 0 < u32_mod)
    → execute 0 job_sum (array_bytes vs) ≡ some (total 0 vs)
unfolding execute
execute-total vs small =
    let rounds : length (array_bytes vs) / 4 ≡ length vs = omega (arith, length-array_bytes vs) in
    rw rounds (
      ap some (
        sum_loop-total (array_bytes vs) vs 0 0
          (λ j. ap (word (array_bytes vs)) (omega arith) ∙ word-array_bytes vs j small)))

abbrev sum_word : List ℕ
sum_word = b's' ∷ b'u' ∷ b'm' ∷ []

-- The argument of the command.
abbrev pub sum_arg : List ℕ → List ℕ
sum_arg ns = sum_word ++ typed_numbers ns

abbrev pub run_line : List ℕ → List ℕ
run_line ns = b'r' ∷ b'u' ∷ b'n' ∷ space ∷ sum_arg ns

length-typed_numbers : (ns : List ℕ) → length ns ≤ length (typed_numbers ns)
length-typed_numbers [] = omega arith
length-typed_numbers (n ∷ ns) =
    let both = length-append (itoa n) (typed_numbers ns) in
    omega (arith, length-typed_numbers ns, both)

sum_parts :
    (n : ℕ) (ns : List ℕ)
    → split_word 15 (sum_arg (n ∷ ns)) ≡ (sum_word, skip_spaces (typed_numbers (n ∷ ns)))
unfolding take_word
sum_parts n ns = refl

line_parts :
    (n : ℕ) (ns : List ℕ)
    → length (sum_arg (n ∷ ns)) ≤ 191
    → split_command (run_line (n ∷ ns)) ≡ (b'r' ∷ b'u' ∷ b'n' ∷ [], sum_arg (n ∷ ns))
unfolding take_word skip_spaces
line_parts n ns h = ap (λ a. (b'r' ∷ b'u' ∷ b'n' ∷ [], a)) (take_all 191 (sum_arg (n ∷ ns)) h)

named_run : command_named (b'r' ∷ b'u' ∷ b'n' ∷ []) ≡ some cmd_run
unfolding command_named command_in str_eq
named_run = refl

named_sum : job_type_named sum_word ≡ some job_sum
unfolding job_type_named
named_sum = refl

-- The loop has enough rounds for the numbers.
enough :
    (n : ℕ) (ns : List ℕ)
    → length ns < 32
    → ((i : ℕ) → get_or (n ∷ ns) i 0 < u32_mod)
    → let text = skip_spaces (typed_numbers (n ∷ ns)) in
      run_values (length text + 1) 32 text ≡ some (n ∷ ns)
enough n ns few small =
    let text = skip_spaces (typed_numbers (n ∷ ns)) in
    let long = ap length (skip_spaces-typed n ns) in
    let both = length-append (itoa n) (typed_numbers ns) in
    let one = length-itoa n in
    let rest = length-typed_numbers ns in
    run_values-typed (length text + 1) 32 (n ∷ ns) (omega (arith, long, both, one, rest))
      (omega arith) small

run_sum :
    {D : Type 0} (s : Shell D) (n : ℕ) (ns : List ℕ)
    → length ns < 32
    → ((i : ℕ) → get_or (n ∷ ns) i 0 < u32_mod)
    → run_command s (sum_arg (n ∷ ns)) ≡ some (s, call_submit job_sum (array_bytes (n ∷ ns)) ∷ [])
unfolding run_command
run_sum s n ns few small =
    let text = skip_spaces (typed_numbers (n ∷ ns)) in
    ap (λ p. run_typed s p.1 (job_type_named p.0)) (sum_parts n ns)
    ∙ ap (run_typed s text) named_sum
    ∙ ap (λ o. o >>= (λ vs. some (s, run_call job_sum vs))) (enough n ns few small)

-- The line `run sum` with up to 32 numbers of 32 bits, as `itoa` writes them, in an argument of at
-- most 191 bytes, submits one job whose bytes make JOB_SUM compute the sum of these numbers, to the
-- width of a word, and changes nothing in the shell.
pub process_command-run_sum :
    {D : Type 0} (received : List ℕ) (s : Shell D) (n : ℕ) (ns : List ℕ)
    → length ns < 32
    → length (sum_arg (n ∷ ns)) ≤ 191
    → ((i : ℕ) → get_or (n ∷ ns) i 0 < u32_mod)
    → let job = array_bytes (n ∷ ns) in
      (process_command received s (run_line (n ∷ ns)) ≡ some (s, call_submit job_sum job ∷ []))
      × (execute 0 job_sum job ≡ some (total 0 (n ∷ ns)))
unfolding process_command perform
process_command-run_sum received s n ns few fits small = (
  ap
        (λ (p : List ℕ × List ℕ).
          if is_empty p.0 then quiet s else perform_named received s p.1 (command_named p.0))
        (line_parts n ns fits)
      ∙ ap (perform_named received s (sum_arg (n ∷ ns))) named_run
      ∙ run_sum s n ns few small,
  execute-total (n ∷ ns) small,
)
