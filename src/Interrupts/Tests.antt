-- ===== src/Interrupts/Tests.antt =====
-- The theorems about the interrupts at concrete registrations, and sequences of interrupts.
use quillos.Prelude.{ℕ, ◌≡◌, ◌≢◌, ◌≤◌, refl, false, true, not, none, some, [], ◌∷◌, arith, get_or}
use quillos.Memory.Bitmap.{bmp_test}
use quillos.Interrupts.{Interrupts, booted, irq_mask, irq_unmask, irq_register, irq_unregister}
use quillos.Interrupts.Lines.{is_none, boots, irq_register_opens}
use quillos.Interrupts.Cascade.{Connected, starts, connects, comes_through, comes_through-Connected}
use quillos.Interrupts.Dispatching.{handled, wrote, ticked, line_parts, Arrives, arrive_lem}

-- The mouse's line, which is one of the slave's; a handler is a number.
abbrev with_mouse : Interrupts ℕ
with_mouse = irq_register booted 12 7

not_cascade : ◌≢◌ {A = ℕ} 12 2
not_cascade e = omega (arith, e)

connected : Connected with_mouse
connected = connects 12 7 starts

comes_through-Connected_example :
    comes_through with_mouse.masks 12 ≡ not (is_none (get_or with_mouse.irq_handlers 12 none))
comes_through-Connected_example =
    comes_through-Connected with_mouse 12 connected (omega arith) not_cascade

irq_register_opens_example :
    (get_or with_mouse.irq_handlers 12 none ≡ some 7)
    × (bmp_test with_mouse.masks 12 ≡ false)
    × (8 ≤ 12 → bmp_test with_mouse.masks 2 ≡ false)
irq_register_opens_example = irq_register_opens booted 12 7 boots (omega arith)

-- The mouse and the timer: the timer's handler is 5.
abbrev both : Interrupts ℕ
both = irq_register with_mouse 0 5

arrive_lem_example : Arrives both [] ((12, 9) ∷ (0, 8) ∷ [])
unfolding irq_register
arrive_lem_example =
    arrive_lem both [] ((12, 9) ∷ (0, 8) ∷ []) refl (omega arith, (omega arith, tt))

both_run : line_parts both.irq_handlers ((12, 9) ∷ (0, 8) ∷ []) ≡ (
    handled 7 9 ∷ wrote 0xa0 0x20 ∷ wrote 0x20 0x20 ∷ handled 5 8 ∷ wrote 0x20 0x20 ∷ ticked 8 ∷ [])
unfolding irq_register
both_run = refl

-- A line of the slave stays behind the cascade when line 2 is unregistered after it.
abbrev behind : Interrupts ℕ
behind = irq_unregister with_mouse 2

behind_run : (bmp_test behind.masks 12 ≡ false) × (bmp_test behind.masks 2 ≡ true)
unfolding bmp_test irq_register irq_unregister irq_unmask irq_mask
behind_run = (refl, refl)
