-- ===== src/Clipboard.antt =====
-- kernel/clipboard.cpp and clipboard.h: the bounded clipboard.
--
-- The text given to `set` is the list of the bytes at its pointer, and a null pointer is `none`. The
-- string given to `set_str` is the list of its bytes before the null byte.
pub mod Bounds
mod Tests
use quillos.Prelude.{
  ℕ, ◌+◌, ◌-◌, ◌%◌, ◌^◌, ◌≤◌, ◌<◌, ◌≡◌, Bool, Option, none, some, List, [], ◌∷◌, ◌++◌, length, take,
  drop, set, replicate, leb, ◌==◌, if◌then◌else◌, u32_mod,
}

abbrev pub max_size : ℕ
max_size = 4096

pub record Clipboard : Type 0 where
  pub buffer : List ℕ
  pub size : ℕ

pub init : Clipboard
init = record { buffer = replicate max_size 0; size = 0 }

unfoldable pub clear : Clipboard → Clipboard
clear s = record { buffer = set s.buffer 0 0; size = 0 }

-- `if (len >= MAX_SIZE) len = MAX_SIZE - 1`
abbrev pub clamp : ℕ → ℕ
clamp len = if leb max_size len then max_size - 1 else len

-- The first `n` bytes of the text and a null byte, over what was in the buffer.
abbrev pub write : ℕ → List ℕ → List ℕ → List ℕ
write n bytes old = take n bytes ++ (0 ∷ drop (n + 1) old)

-- `set`
unfoldable pub set_bytes : Clipboard → Option (List ℕ) → ℕ → Clipboard
unfolding clear
set_bytes s none len = clear s
set_bytes s (some bytes) len = record {
  buffer = write (clamp len) bytes s.buffer;
  size = clamp len;
}

unfoldable pub set_str : Clipboard → Option (List ℕ) → Clipboard
unfolding set_bytes clear
set_str s none = clear s
set_str s (some str) = set_bytes s (some str) (length str % u32_mod)

unfoldable pub empty : Clipboard → Bool
empty s = s.size == 0
