-- ===== src/Mouse/Pointing.antt =====
-- kernel/mouse.cpp: where the pointer is, and what a packet does.
use quillos.Prelude.{
  ℕ, ◌+◌, ◌-◌, ◌*◌, ◌/◌, ◌%◌, ◌≤◌, ◌<◌, ◌≡◌, refl, true, not, ◌&&◌, List, [], ◌∷◌, ◌++◌, arith,
  length, ltb, ◌==◌, if_both, add64,
}
use quillos.Mouse.{
  Mouse, start, at_most, forward, backward, move, take_byte, is_start, from_mouse, is_flags,
  mouse_irq,
}

-- The pointer is on the screen, the buttons are three bits, and no packet is whole.
pub record IsValid (s : Mouse) : Type 0 where
  pub x_fits : s.mouse_x ≤ 1023
  pub y_fits : s.mouse_y ≤ 767
  pub buttons_fit : s.buttons < 8
  pub waiting : length s.packet < 3

at_most-le : (limit n : ℕ) → at_most limit n ≤ limit
at_most-le limit n = ground arith

forward-le : (limit v d : ℕ) → forward limit v d ≤ limit
unfolding forward
forward-le limit v d =
    if_both (λ n. n ≤ limit) (ltb d 128) _ _ (at_most-le limit (v + d))
      (at_most-le limit (v - (256 - d)))

backward-le : (limit v d : ℕ) → backward limit v d ≤ limit
unfolding backward
backward-le limit v d =
    if_both (λ n. n ≤ limit) (ltb d 128) _ _ (at_most-le limit (v - d))
      (at_most-le limit (v + (256 - d)))

with_packet :
    (s : Mouse) (packet : List ℕ)
    → IsValid s
    → length packet < 3
    → IsValid (record s { packet = packet })
with_packet s packet v h = record {
  x_fits = v.x_fits;
  y_fits = v.y_fits;
  buttons_fit = v.buttons_fit;
  waiting = h;
}

move-IsValid : (s : Mouse) (flags dx dy : ℕ) → IsValid s → IsValid (move s flags dx dy)
unfolding move
move-IsValid s flags dx dy v = if_both IsValid (not (flags / 64 % 4 == 0)) _ _ v (record {
  x_fits = forward-le 1023 s.mouse_x dx;
  y_fits = backward-le 767 s.mouse_y dy;
  buttons_fit = omega arith;
  waiting = v.waiting;
})

take_byte-IsValid : (s : Mouse) (packet : List ℕ) → IsValid s → IsValid (take_byte s packet)
unfolding take_byte
take_byte-IsValid s [] v = with_packet s [] v (omega arith)
take_byte-IsValid s (flags ∷ []) v = with_packet s (flags ∷ []) v (omega arith)
take_byte-IsValid s (flags ∷ dx ∷ []) v = with_packet s (flags ∷ dx ∷ []) v (omega arith)
take_byte-IsValid s (flags ∷ dx ∷ dy ∷ rest) v =
    move-IsValid (record s { packet = [] }) flags dx dy (with_packet s [] v (omega arith))

-- The states that interrupts lead to.
pub data Pointed : Mouse → Type 0 where
  starts : Pointed start
  interrupted : {s : Mouse} (status byte : ℕ) → Pointed s → Pointed (mouse_irq s status byte)

-- In every state that interrupts lead to, the pointer is on the screen of 1024 by 768 pixels, the
-- buttons are three bits, and fewer than three bytes wait.
pub Pointed-IsValid : {s : Mouse} → Pointed s → IsValid s
unfolding mouse_irq
Pointed-IsValid starts = record {
  x_fits = omega arith;
  y_fits = omega arith;
  buttons_fit = omega arith;
  waiting = omega arith;
}
Pointed-IsValid (interrupted {s = s} status byte h) =
    let v = Pointed-IsValid h in
    if_both IsValid (not (from_mouse status)) _ _ v (
      if_both IsValid (is_start s.packet && not (is_flags byte)) _ _ v
        (take_byte-IsValid s (s.packet ++ (byte ∷ [])) v))

-- A movement in two's complement that stays on the screen.
forward-exact :
    (limit v d : ℕ)
    → d < 256
    → 256 * (d / 128) ≤ v + d
    → v + d ≤ limit + 256 * (d / 128)
    → forward limit v d + 256 * (d / 128) ≡ v + d
unfolding forward
forward-exact limit v d small low high = ground arith

backward-exact :
    (limit v d : ℕ)
    → d < 256
    → d ≤ v + 256 * (d / 128)
    → v + 256 * (d / 128) ≤ limit + d
    → backward limit v d + d ≡ v + 256 * (d / 128)
unfolding backward
backward-exact limit v d small low high = ground arith

-- The three interrupts of a packet.
packet_moves :
    (s : Mouse) (a b c flags dx dy : ℕ)
    → s.packet ≡ []
    → from_mouse a ≡ true
    → from_mouse b ≡ true
    → from_mouse c ≡ true
    → is_flags flags ≡ true
    → mouse_irq (mouse_irq (mouse_irq s a flags) b dx) c dy
      ≡ move (record s { packet = [] }) flags dx dy
unfolding mouse_irq take_byte
packet_moves s a b c flags dx dy e ha hb hc hf = rw (e, ha, hb, hc, hf) refl

-- Three bytes from the mouse, the first of them flags without an overflow, make one packet when none
-- has begun: a movement in two's complement, to the right and upwards, that stays on the screen
-- moves the pointer by just that much; the buttons are the lowest three bits of the flags, the packet
-- is counted, and the next byte begins a packet.
pub mouse_irq-packet :
    (s : Mouse) (a b c flags dx dy : ℕ)
    → s.packet ≡ []
    → from_mouse a ≡ true
    → from_mouse b ≡ true
    → from_mouse c ≡ true
    → is_flags flags ≡ true
    → flags / 64 % 4 ≡ 0
    → dx < 256
    → dy < 256
    → 256 * (dx / 128) ≤ s.mouse_x + dx
    → s.mouse_x + dx ≤ 1023 + 256 * (dx / 128)
    → dy ≤ s.mouse_y + 256 * (dy / 128)
    → s.mouse_y + 256 * (dy / 128) ≤ 767 + dy
    → let t = mouse_irq (mouse_irq (mouse_irq s a flags) b dx) c dy in
      (t.mouse_x + 256 * (dx / 128) ≡ s.mouse_x + dx)
      × (t.mouse_y + dy ≡ s.mouse_y + 256 * (dy / 128))
      × (t.buttons ≡ flags % 8)
      × (t.packet_count ≡ add64 s.packet_count 1)
      × (t.packet ≡ [])
unfolding move
mouse_irq-packet s a b c flags dx dy e ha hb hc hf fine sx sy xl xh yl yh =
    let plain : (flags / 64 % 4 == 0) ≡ true = ground (arith, fine) in
    rw (packet_moves s a b c flags dx dy e ha hb hc hf, plain)
      (
        forward-exact 1023 s.mouse_x dx sx xl xh,
        backward-exact 767 s.mouse_y dy sy yl yh,
        refl,
        refl,
        refl,
      )
