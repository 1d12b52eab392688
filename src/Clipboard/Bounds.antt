-- ===== src/Clipboard/Bounds.antt =====
-- kernel/clipboard.cpp: the bounds of the buffer, and what is read back from it.
use quillos.Prelude.{
  ℕ, zero, suc, ◌+◌, ◌≤◌, ◌<◌, ◌≡◌, refl, some, List, [], ◌∷◌, ◌++◌, arith, length, get_or, take,
  take-append, drop, length-append, length-take, length-drop, ◌==◌, length-replicate,
  get_or-replicate_in,
}
use quillos.Clipboard.{Clipboard, max_size, clamp, init, set_bytes, empty}

-- The buffer keeps its size, the text is shorter, and a null byte follows it.
pub record IsValid (s : Clipboard) : Type 0 where
  pub sized : length s.buffer ≡ max_size
  pub bounded : s.size < max_size
  pub ended : get_or s.buffer s.size 1 ≡ 0

-- What a paste reads: the bytes of the buffer below the size.
abbrev pub text : Clipboard → List ℕ
text s = take s.size s.buffer

get_or-write :
    (n : ℕ) (xs ys : List ℕ) (y d : ℕ) → n ≤ length xs → get_or (take n xs ++ (y ∷ ys)) n d ≡ y
get_or-write zero xs ys y d h = refl
get_or-write (suc n) [] ys y d h = absurd (omega arith)
get_or-write (suc n) (x ∷ xs) ys y d h = get_or-write n xs ys y d (omega arith)

clamp_lem : (n : ℕ) → (clamp n < max_size) × (clamp n ≤ n)
clamp_lem n = ground arith

-- Any text is stored up to its first 4095 bytes, read back unchanged, and the buffer stays inside
-- its bounds and ends the text with a null byte.
pub set_bytes_lem :
    (s : Clipboard) (bytes : List ℕ) (len : ℕ)
    → IsValid s
    → len ≤ length bytes
    → let t = set_bytes s (some bytes) len in
      IsValid t × (text t ≡ take (clamp len) bytes) × (empty t ≡ (len == 0))
unfolding set_bytes empty
set_bytes_lem s bytes len v h =
    let c = clamp_lem len in
    let inside : clamp len ≤ length bytes = omega (arith, c.1) in
    let head = length-take (clamp len) bytes in
    let tail = length-drop (clamp len + 1) s.buffer in
    let all = length-append (take (clamp len) bytes) (0 ∷ drop (clamp len + 1) s.buffer) in
    (
      record {
        sized = omega (arith, all, head, tail, inside, c.0, v.sized);
        bounded = c.0;
        ended = get_or-write (clamp len) bytes (drop (clamp len + 1) s.buffer) 0 1 inside;
      },
      take-append (clamp len) bytes (0 ∷ drop (clamp len + 1) s.buffer) inside,
      ground arith,
    )

pub init-IsValid : IsValid init
unfolding init
init-IsValid = record {
  sized = length-replicate {A = ℕ} max_size 0;
  bounded = omega arith;
  ended = get_or-replicate_in {A = ℕ} max_size 0 0 1 (omega arith);
}
