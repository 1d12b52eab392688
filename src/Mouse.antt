-- ===== src/Mouse.antt =====
-- kernel/mouse.cpp: the packets of the PS/2 mouse, and the pointer that they move.
--
-- The position is of type int32_t in the source, where a sum below zero is set to 0: on ℕ that is what
-- the subtraction gives. A movement is a byte in two's complement. The bits of a byte are written as
-- quotients and remainders.
pub mod Pointing
mod Tests
use quillos.Prelude.{
  ℕ, ◌+◌, ◌-◌, ◌/◌, ◌%◌, Bool, true, false, not, ◌&&◌, ◌||◌, Option, none, some, List, [], ◌∷◌,
  ◌++◌, replicate, leb, ltb, ◌==◌, if◌then◌else◌, add64,
}

-- The variables of namespace `Mouse` that packets change; `packet` has the bytes below `packet_idx`.
pub record Mouse : Type 0 where
  pub mouse_x : ℕ
  pub mouse_y : ℕ
  pub buttons : ℕ
  pub packet_count : ℕ
  pub packet : List ℕ

abbrev pub start : Mouse
start = record { mouse_x = 512; mouse_y = 384; buttons = 0; packet_count = 0; packet = [] }

abbrev pub at_most : ℕ → ℕ → ℕ
at_most limit n = if ltb limit n then limit else n

-- `v += (int8_t)d`, and `v -= (int8_t)d`, with the clamps to 0 and `limit`
pub forward : ℕ → ℕ → ℕ → ℕ
forward limit v d = if ltb d 128 then at_most limit (v + d) else at_most limit (v - (256 - d))

pub backward : ℕ → ℕ → ℕ → ℕ
backward limit v d = if ltb d 128 then at_most limit (v - d) else at_most limit (v + (256 - d))

-- A whole packet: those with an overflow bit, `flags & 0xC0`, are dropped.
pub move : Mouse → ℕ → ℕ → ℕ → Mouse
unfolding forward backward
move s flags dx dy = if not (flags / 64 % 4 == 0) then s else record s {
  mouse_x = forward 1023 s.mouse_x dx;
  mouse_y = backward 767 s.mouse_y dy;
  buttons = flags % 8;
  packet_count = add64 s.packet_count 1;
}

-- The packet with the new byte at its end.
pub take_byte : Mouse → List ℕ → Mouse
unfolding move
take_byte s [] = record s { packet = [] }
take_byte s (flags ∷ []) = record s { packet = flags ∷ [] }
take_byte s (flags ∷ dx ∷ []) = record s { packet = flags ∷ dx ∷ [] }
take_byte s (flags ∷ dx ∷ dy ∷ rest) = move (record s { packet = [] }) flags dx dy

abbrev pub is_start : List ℕ → Bool
is_start [] = true
is_start (b ∷ bs) = false

-- `(status & 0x21) == 0x21`, and `byte & 0x08`
abbrev pub from_mouse : ℕ → Bool
from_mouse status = (status % 2 == 1) && (status / 32 % 2 == 1)

abbrev pub is_flags : ℕ → Bool
is_flags byte = byte / 8 % 2 == 1

-- On the bytes of the status port and the data port.
pub mouse_irq : Mouse → ℕ → ℕ → Mouse
unfolding take_byte
mouse_irq s status byte =
    if not (from_mouse status)
    then s
    else if is_start s.packet && not (is_flags byte)
    then s
    else take_byte s (s.packet ++ (byte ∷ []))
