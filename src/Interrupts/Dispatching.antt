-- ===== src/Interrupts/Dispatching.antt =====
-- kernel/idt.cpp: what a sequence of interrupts does, in which order.
use quillos.Prelude.{
  ℕ, ◌+◌, ◌-◌, ◌%◌, ◌<◌, ◌≡◌, refl, sym, ap, ◌∙◌, inl, inr, true, false, Option, none, some, List,
  [], ◌∷◌, ◌++◌, arith, length, get_or, get_or-modify, length-modify, leb, ltb, ◌==◌, if◌then◌else◌,
  add64, u64_mod, append_assoc, append_nil, Bool-cases,
}
use quillos.Interrupts.{Interrupts, count_irq, call, pic_send_eoi, irq_dispatch}

-- What an interrupt does to the rest of the system, one after the other: a handler runs on a frame, a
-- byte goes to a port, and the scheduler's tick gets a frame.
pub data Event (H : Type 0) : Type 0 where
  handled : H → ℕ → Event H
  wrote : ℕ → ℕ → Event H
  ticked : ℕ → Event H

module _ {H : Type 0} where
  abbrev pub note : List (Event H) → Event H → List (Event H)
  note events e = events ++ (e ∷ [])

  abbrev run : H → ℕ → List (Event H) → List (Event H)
  run handler frame events = note events (handled handler frame)

  abbrev outb : ℕ → ℕ → List (Event H) → List (Event H)
  outb p value events = note events (wrote p value)

  abbrev tick : List (Event H) → ℕ → List (Event H) × ℕ
  tick events frame = (note events (ticked frame), frame)

  -- Interrupts as their lines and frames, one behind the other: the state, and what happened.
  unfoldable pub arrive :
      Interrupts H → List (Event H) → List (ℕ × ℕ) → Interrupts H × List (Event H)
  arrive s events [] = (s, events)
  arrive s events ((irq, frame) ∷ ints) =
      let r = irq_dispatch run outb tick s events (32 + irq) frame in arrive r.0 r.1 ints

  -- What should happen on a line: its handler, then the end for each PIC on the way, then the tick.
  abbrev pub handler_part : Option H → ℕ → List (Event H)
  handler_part none frame = []
  handler_part (some h) frame = handled h frame ∷ []

  abbrev pub eoi_part : ℕ → List (Event H)
  eoi_part irq = if ltb irq 8 then wrote 0x20 0x20 ∷ [] else wrote 0xa0 0x20 ∷ wrote 0x20 0x20 ∷ []

  abbrev pub tick_part : ℕ → ℕ → List (Event H)
  tick_part irq frame = if irq == 0 then ticked frame ∷ [] else []

  abbrev pub line_part : List (Option H) → ℕ → ℕ → List (Event H)
  line_part handlers irq frame =
      handler_part (get_or handlers irq none) frame ++ (eoi_part irq ++ tick_part irq frame)

  abbrev pub line_parts : List (Option H) → List (ℕ × ℕ) → List (Event H)
  line_parts handlers [] = []
  line_parts handlers ((irq, frame) ∷ ints) =
      line_part handlers irq frame ++ line_parts handlers ints

-- How often a line is among the interrupts, and whether all are on one of the 16 lines.
abbrev pub times : ℕ → List (ℕ × ℕ) → ℕ
times i [] = 0
times i ((irq, frame) ∷ ints) = (if irq == i then 1 else 0) + times i ints

abbrev pub AreLines : List (ℕ × ℕ) → Type 0
AreLines [] = Unit {0}
AreLines ((irq, frame) ∷ ints) = (irq < 16) × AreLines ints

module _ {H : Type 0} where
  handler_events :
      (o : Option H) (frame : ℕ) (events : List (Event H))
      → call run outb tick o frame events ≡ events ++ handler_part o frame
  handler_events none frame events = sym (append_nil events)
  handler_events (some h) frame events = refl

  eoi_events :
      (irq : ℕ) (events : List (Event H))
      → pic_send_eoi run outb tick irq events ≡ events ++ eoi_part irq
  eoi_events irq events = elim (Bool-cases (leb 8 irq)) [
    | inl x ↦
        let y : ltb irq 8 ≡ false = ground arith in
        rw (x, y) (append_assoc events (wrote 0xa0 0x20 ∷ []) (wrote 0x20 0x20 ∷ []))
    | inr x ↦ let y : ltb irq 8 ≡ true = ground arith in rw (x, y) refl
  ]

  flat : (xs ys zs ws : List (Event H)) → ((xs ++ ys) ++ zs) ++ ws ≡ xs ++ (ys ++ (zs ++ ws))
  flat xs ys zs ws = append_assoc (xs ++ ys) zs ws ∙ append_assoc xs ys (zs ++ ws)

  -- One interrupt on a line.
  dispatch_line :
      (s : Interrupts H) (events : List (Event H)) (irq frame : ℕ)
      → irq < 16
      → irq_dispatch run outb tick s events (32 + irq) frame
        ≡ (count_irq s irq, events ++ line_part s.irq_handlers irq frame, frame)
  unfolding irq_dispatch
  dispatch_line s events irq frame inside =
      let number : (32 + irq + 256 - 32) % 256 ≡ irq = omega arith in
      let line : leb 16 irq ≡ false = ground (arith, inside) in
      let o = get_or s.irq_handlers irq none in
      let first = handler_events o frame events in
      let both =
        ap (pic_send_eoi run outb tick irq) first
        ∙ eoi_events irq (events ++ handler_part o frame) in
      let handled_and_ended = pic_send_eoi run outb tick irq (call run outb tick o frame events) in
      let shown = λ (ws : List (Event H)).
        ap (λ l. l ++ ws) both ∙ flat events (handler_part o frame) (eoi_part irq) ws in
      elim (Bool-cases (irq == 0)) [
        | inl z ↦
            let go : irq_dispatch run outb tick s events (32 + irq) frame
                ≡ (count_irq s irq, note handled_and_ended (ticked frame), frame) =
              rw (number, line, z) refl in
            let ticks : tick_part irq frame ≡ ticked frame ∷ [] = rw z refl in
            go
            ∙ ap (λ l. (count_irq s irq, l, frame))
                (shown (ticked frame ∷ [])
                  ∙ ap (λ ws. events ++ (handler_part o frame ++ (eoi_part irq ++ ws))) (sym ticks))
        | inr nz ↦
            let go : irq_dispatch run outb tick s events (32 + irq) frame
                ≡ (count_irq s irq, handled_and_ended, frame) =
              rw (number, line, nz) refl in
            let none_ticks : tick_part irq frame ≡ [] = rw nz refl in
            go
            ∙ ap (λ l. (count_irq s irq, l, frame))
                (sym (append_nil handled_and_ended)
                  ∙ shown []
                  ∙ ap (λ ws. events ++ (handler_part o frame ++ (eoi_part irq ++ ws)))
                      (sym none_ticks))
      ]

  -- What holds of a sequence of interrupts from the state `s` and the events `events` on.
  abbrev pub Arrives : Interrupts H → List (Event H) → List (ℕ × ℕ) → Type 0
  Arrives s events ints =
      let r = arrive s events ints in
      (r.1 ≡ events ++ line_parts s.irq_handlers ints)
      × (r.0.irq_handlers ≡ s.irq_handlers)
      × (r.0.masks ≡ s.masks)
      × ((i : ℕ)
          → get_or r.0.irq_counts i 0 % u64_mod
            ≡ (get_or s.irq_counts i 0 + times i ints) % u64_mod)

  counted :
      (s : Interrupts H) (irq i k : ℕ)
      → irq < length s.irq_counts
      → (get_or (count_irq s irq).irq_counts i 0 + k) % u64_mod
        ≡ (get_or s.irq_counts i 0 + ((if irq == i then 1 else 0) + k)) % u64_mod
  counted s irq i k h =
      let read = get_or-modify 0 s.irq_counts irq i (λ n. add64 n 1) h in
      elim (Bool-cases (irq == i)) [
        | inl hit ↦
            let same : irq ≡ i = ground arith in
            let at : get_or s.irq_counts irq 0 ≡ get_or s.irq_counts i 0 =
              ap (λ j. get_or s.irq_counts j 0) same in
            rw (read, hit, at) (omega arith)
        | inr miss ↦ rw (read, miss) (omega arith)
      ]

  -- A sequence of interrupts on the 16 lines: for each in turn, the handler of its line runs on the
  -- frame if there is one, and only then the end goes to the PICs of the line, the slave's first, and
  -- for line 0 the scheduler's tick comes last. Each line's counter goes up by the interrupts on it,
  -- modulo 2^64, and the handlers and the masks stay.
  pub arrive_lem :
      (s : Interrupts H) (events : List (Event H)) (ints : List (ℕ × ℕ))
      → length s.irq_counts ≡ 16
      → AreLines ints
      → Arrives s events ints
  unfolding arrive
  arrive_lem s events [] table lines = (sym (append_nil events), refl, refl, λ i. omega arith)
  arrive_lem s events ((irq, frame) ∷ ints) table lines =
      let one = dispatch_line s events irq frame lines.0 in
      let part = line_part s.irq_handlers irq frame in
      let long = length-modify 0 s.irq_counts irq (λ n. add64 n 1) in
      let rest = arrive_lem (count_irq s irq) (events ++ part) ints (long ∙ table) lines.1 in
      let inside : irq < length s.irq_counts = omega (arith, table, lines.0) in
      let step = ap (λ (r : Interrupts H × List (Event H) × ℕ). arrive r.0 r.1 ints) one in
      (
        ap (λ (r : Interrupts H × List (Event H)). r.1) step
            ∙ rest.0
            ∙ append_assoc events part (line_parts s.irq_handlers ints),
        ap (λ (r : Interrupts H × List (Event H)). r.0.irq_handlers) step ∙ rest.1,
        ap (λ (r : Interrupts H × List (Event H)). r.0.masks) step ∙ rest.2,
        λ i.
            ap (λ (r : Interrupts H × List (Event H)). get_or r.0.irq_counts i 0 % u64_mod) step
            ∙ rest.3 i
            ∙ counted s irq i (times i ints) inside,
      )
