-- ===== src/Mouse/Tests.antt =====
-- The theorems about the mouse at concrete packets.
use quillos.Prelude.{◌+◌, ◌≡◌, refl, [], arith}
use quillos.Mouse.{Mouse, start, mouse_irq, move, take_byte, forward, backward}
use quillos.Mouse.Pointing.{IsValid, starts, interrupted, Pointed-IsValid, mouse_irq-packet}

-- 2 to the left, 3 upwards, with the left button.
abbrev moved : Mouse
moved = mouse_irq (mouse_irq (mouse_irq start 0x21 0x19) 0x21 254) 0x21 3

moved_run : moved ≡ record start { mouse_x = 510; mouse_y = 381; buttons = 1; packet_count = 1 }
unfolding mouse_irq take_byte move forward backward
moved_run = refl

Pointed-IsValid_example : IsValid moved
Pointed-IsValid_example =
    Pointed-IsValid (interrupted 0x21 3 (interrupted 0x21 254 (interrupted 0x21 0x19 starts)))

mouse_irq-packet_example :
    (moved.mouse_x + 256 ≡ 766)
    × (moved.mouse_y + 3 ≡ 384)
    × (moved.buttons ≡ 1)
    × (moved.packet_count ≡ 1)
    × (moved.packet ≡ [])
mouse_irq-packet_example =
    mouse_irq-packet start 0x21 0x21 0x21 0x19 254 3 refl refl refl refl refl refl (omega arith)
      (omega arith) (omega arith) (omega arith) (omega arith) (omega arith)
