-- ===== src/Shell/Lines.antt =====
-- kernel/shell.cpp: how a line is taken apart, the numbers in it, and the paths built from it.
--
-- A text is the list of its bytes before the null byte. `none` is a write past the end of a buffer,
-- or, in `run_values`, the end of the fuel.
use Prim.Native.Nat.{bit_or}
use quillos.Prelude.{
  ℕ, zero, suc, ◌-◌, Bool, true, false, ◌&&◌, Option, none, some, List, [], ◌∷◌, ◌++◌, get_or, take,
  leb, ◌==◌, if◌then◌else◌, add32, mul32, ◌>>=◌, str_eq,
}
use quillos.Jobs.Types.{JobType, job_sum, job_product, job_max, job_prime, job_echo}
use quillos.Network.Wire.{store32, htonl}
use quillos.Filesystem.Types.{max_path_len}
use quillos.Filesystem.Paths.{slash, root, fs_strcpy}

abbrev pub space : ℕ
space = b' '

abbrev pub is_digit : ℕ → Bool
is_digit c = leb b'0' c && leb c b'9'

-- `while (s[i] == ' ') i++;`
unfoldable pub skip_spaces : List ℕ → List ℕ
skip_spaces [] = []
skip_spaces (c ∷ cs) = let rest = skip_spaces cs in if c == space then rest else c ∷ cs

-- At most `n` bytes up to a space or the end, and what follows them.
unfoldable pub take_word : ℕ → List ℕ → List ℕ × List ℕ
take_word zero text = ([], text)
take_word (suc n) [] = ([], [])
take_word (suc n) (c ∷ cs) =
    let rest = take_word n cs in if c == space then ([], c ∷ cs) else (c ∷ rest.0, rest.1)

-- The word of at most `n` bytes at the start, and what follows the spaces behind it.
abbrev pub split_word : ℕ → List ℕ → List ℕ × List ℕ
split_word n text = ((take_word n text).0, skip_spaces (take_word n text).1)

-- `cmd` and `arg` of `process_command`.
abbrev pub split_command : List ℕ → List ℕ × List ℕ
split_command input = let parts = split_word 63 (skip_spaces input) in (parts.0, take 191 parts.1)

-- The loop over decimal digits, from the value `val` on: the number, and what follows it.
unfoldable pub read_number : ℕ → List ℕ → ℕ × List ℕ
read_number val [] = (val, [])
read_number val (c ∷ cs) =
    let rest = read_number (add32 (mul32 val 10) (c - b'0')) cs in
    if is_digit c then rest else (val, c ∷ cs)

-- `build_path` into a buffer of 128 bytes.
abbrev pub build_path : List ℕ → List ℕ → Option (List ℕ)
build_path cwd name = fs_strcpy max_path_len (
    if get_or name 0 0 == slash
    then name
    else if str_eq cwd root
    then cwd ++ name
    else cwd ++ (slash ∷ name))

-- `htonl(0x0A000000 | last)`: the address 10.0.0.`last`.
abbrev pub node_address : ℕ → ℕ
node_address last = htonl (bit_or 0x0a000000 last)

-- The loop of `rjob` over the numbers, of which `n` still fit.
unfoldable pub rjob_values : ℕ → List ℕ → List ℕ
rjob_values zero text = []
rjob_values (suc n) [] = []
rjob_values (suc n) (c ∷ cs) =
    let r = read_number 0 (c ∷ cs) in let rest = rjob_values n (skip_spaces r.1) in r.0 ∷ rest

-- The loop of `run` over the numbers, of which `room` still fit, for at most `fuel` rounds.
unfoldable pub run_values : ℕ → ℕ → List ℕ → Option (List ℕ)
run_values zero room text = none
run_values (suc fuel) zero text = some []
run_values (suc fuel) (suc room) [] = some []
run_values (suc fuel) (suc room) (c ∷ cs) =
    let r = read_number 0 (c ∷ cs) in
    let more = run_values fuel room (skip_spaces r.1) in
    let same = run_values fuel (suc room) (skip_spaces (c ∷ cs)) in
    if is_digit c then more >>= (λ vs. some (r.0 ∷ vs)) else same

-- The bytes of an array of `uint32_t`.
unfoldable pub array_bytes : List ℕ → List ℕ
array_bytes [] = []
array_bytes (v ∷ vs) = store32 v ++ array_bytes vs

-- The chain of comparisons of `run`; `none` is an unknown type.
unfoldable pub job_type_named : List ℕ → Option JobType
unfolding str_eq
job_type_named name =
    if str_eq name (b's' ∷ b'u' ∷ b'm' ∷ [])
    then some job_sum
    else if str_eq name (b'p' ∷ b'r' ∷ b'o' ∷ b'd' ∷ b'u' ∷ b'c' ∷ b't' ∷ [])
    then some job_product
    else if str_eq name (b'm' ∷ b'a' ∷ b'x' ∷ [])
    then some job_max
    else if str_eq name (b'p' ∷ b'r' ∷ b'i' ∷ b'm' ∷ b'e' ∷ [])
    then some job_prime
    else if str_eq name (b'e' ∷ b'c' ∷ b'h' ∷ b'o' ∷ [])
    then some job_echo
    else none

-- `true` for a text without bytes: the tests of `safe_strlen(s) == 0`.
abbrev pub is_empty : List ℕ → Bool
is_empty [] = true
is_empty (c ∷ cs) = false
