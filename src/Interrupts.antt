-- ===== src/Interrupts.antt =====
-- kernel/idt.cpp: the interrupt lines of the two PICs, their handlers and the dispatch.
--
-- `masks` has the mask registers of the master and the slave, behind the ports 0x21 and 0xA1, which
-- read as what was last written. The rest of the system is a state that
-- the parameters `run` (a handler on the frame), `outb` and `timer_tick` change.
pub mod Lines
pub mod Cascade
pub mod Dispatching
mod Tests
use Prim.Native.Nat.{bit_and, bit_or}
use quillos.Prelude.{
  ℕ, ◌+◌, ◌-◌, ◌%◌, ◌^◌, Bool, true, false, Option, none, some, List, [], ◌∷◌, get_or, set, modify,
  replicate, leb, ltb, ◌==◌, if◌then◌else◌, add64,
}

-- The variables of idt.cpp and the mask registers.
pub record Interrupts (H : Type 0) : Type 0 where
  pub irq_handlers : List (Option H)
  pub irq_counts : List ℕ
  pub masks : List ℕ

-- The register and the bit of a line.
abbrev pub port : ℕ → ℕ
port irq = if ltb irq 8 then 0 else 1

abbrev pub line : ℕ → ℕ
line irq = if ltb irq 8 then irq else irq - 8

pub irq_mask : List ℕ → ℕ → List ℕ
irq_mask masks irq = modify 0 masks (port irq) (λ val. bit_or val (2 ^ line irq % 256))

abbrev pub clear_line : List ℕ → ℕ → List ℕ
clear_line masks irq = modify 0 masks (port irq) (λ val. bit_and val (255 - 2 ^ line irq % 256))

-- A line of the slave needs line 2 of the master.
pub irq_unmask : List ℕ → ℕ → List ℕ
irq_unmask masks irq =
    if leb 8 irq then clear_line (clear_line masks irq) 2 else clear_line masks irq

module _ {H : Type 0} where
  -- The variables as the loader sets them, and the masks that `pic_remap` ends with.
  abbrev pub booted : Interrupts H
  booted = record {
    irq_handlers = replicate 16 none;
    irq_counts = replicate 16 0;
    masks = 0xff ∷ 0xff ∷ [];
  }

  pub irq_register : Interrupts H → ℕ → H → Interrupts H
  irq_register s irq handler = if leb 16 irq then s else record s {
    irq_handlers = set s.irq_handlers irq (some handler);
    masks = irq_unmask s.masks irq;
  }

  pub irq_unregister : Interrupts H → ℕ → Interrupts H
  irq_unregister s irq =
      if leb 16 irq
      then s
      else record s { irq_handlers = set s.irq_handlers irq none; masks = irq_mask s.masks irq }

abbrev pub count_irq : {H : Type 0} → Interrupts H → ℕ → Interrupts H
count_irq s irq = record s { irq_counts = modify 0 s.irq_counts irq (λ n. add64 n 1) }

module _ {H W : Type 0} (run : H → ℕ → W → W) (outb : ℕ → ℕ → W → W)
    (timer_tick : W → ℕ → W × ℕ) where
  -- To the slave, for its lines, and to the master.
  abbrev pub pic_send_eoi : ℕ → W → W
  pic_send_eoi irq w = outb 0x20 0x20 (if leb 8 irq then outb 0xa0 0x20 w else w)

  -- The handler gets the frame.
  abbrev pub call : Option H → ℕ → W → W
  call none frame w = w
  call (some handler) frame w = run handler frame w

  -- On the number of the interrupt and the address of the frame: the new states, and the stack pointer
  -- to go on with.
  pub irq_dispatch : Interrupts H → W → ℕ → ℕ → Interrupts H × W × ℕ
  irq_dispatch s w int_no frame =
      let irq = (int_no + 256 - 32) % 256 in
      let handled = call (get_or s.irq_handlers irq none) frame w in
      let ended = pic_send_eoi irq handled in
      let ticked = timer_tick ended frame in
      if leb 16 irq
      then (s, w, frame)
      else if irq == 0
      then (count_irq s irq, ticked.0, ticked.1)
      else (count_irq s irq, ended, frame)
