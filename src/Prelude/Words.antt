-- ===== src/Prelude/Words.antt =====
-- Arithmetic of `uint32_t` and `uint64_t`, with the wrap-around written out.
use Prim.Native.Nat.{ℕ, ◌+◌, ◌-◌, ◌*◌, ◌%◌, ◌^◌}

abbrev pub u32_mod : ℕ
u32_mod = 2 ^ 32

abbrev pub u64_mod : ℕ
u64_mod = 2 ^ 64

abbrev pub add32 : ℕ → ℕ → ℕ
add32 x y = (x + y) % u32_mod

-- The operands are below 2^32.
abbrev pub sub32 : ℕ → ℕ → ℕ
sub32 x y = (x + u32_mod - y) % u32_mod

abbrev pub mul32 : ℕ → ℕ → ℕ
mul32 x y = (x * y) % u32_mod

abbrev pub add64 : ℕ → ℕ → ℕ
add64 x y = (x + y) % u64_mod

-- The operands are below 2^64.
abbrev pub sub64 : ℕ → ℕ → ℕ
sub64 x y = (x + u64_mod - y) % u64_mod

abbrev pub mul64 : ℕ → ℕ → ℕ
mul64 x y = (x * y) % u64_mod
