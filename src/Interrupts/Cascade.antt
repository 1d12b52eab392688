-- ===== src/Interrupts/Cascade.antt =====
-- kernel/idt.cpp: the lines that come through to the processor, over the cascade for the slave's.
use quillos.Prelude.{
  ℕ, ◌≤◌, ◌<◌, ◌≡◌, ◌≢◌, refl, sym, ap, ◌∙◌, inl, inr, Bool, true, false, not, ◌&&◌, ◌||◌, none,
  some, Option, List, arith, length, get_or, get_or-replicate, get_or-set, set, ltb, leb, ◌==◌,
  Bool-cases, if_cases,
}
use quillos.Memory.Bitmap.{bmp_test, bmp_test-set, bmp_test-clear}
use quillos.Interrupts.{Interrupts, booted, irq_unmask, irq_register, irq_unregister}
use quillos.Interrupts.Lines.{
  is_none, Registered, boots, registers, unregisters, IsValid, Registered-IsValid, irq_mask-bmp_set,
  clear_line-bmp_clear, irq_unmask_lem,
}

-- A line of the slave comes through if the cascade, line 2, is open too.
abbrev pub comes_through : List ℕ → ℕ → Bool
comes_through masks i = not (bmp_test masks i) && (ltb i 8 || not (bmp_test masks 2))

module _ {H : Type 0} where
  abbrev HasOpenCascade : Interrupts H → Type 0
  HasOpenCascade s =
      (i : ℕ) → 8 ≤ i → is_none (get_or s.irq_handlers i none) ≡ false → bmp_test s.masks 2 ≡ false

  register-HasOpenCascade :
      (s : Interrupts H) (irq : ℕ) (handler : H)
      → IsValid s
      → HasOpenCascade s
      → HasOpenCascade (irq_register s irq handler)
  unfolding irq_register irq_unmask
  register-HasOpenCascade s irq handler v open_cascade =
      if_cases HasOpenCascade (leb 16 irq) _ _ (λ out. open_cascade)
        (λ inside i eight has.
          (let low : irq < 16 = ground (arith, inside) in
            elim (Bool-cases (leb 8 irq)) [
              | inl slave ↦ (irq_unmask_lem s.masks irq v.bits low).cascade (ground (arith, slave))
              | inr master ↦
                  let differ : (irq == i) ≡ false = ground (arith, master, eight) in
                  let read = get_or-set s.irq_handlers irq i (some handler) none in
                  let before : is_none (get_or s.irq_handlers i none) ≡ false =
                    ap is_none (sym (read ∙ rw differ refl)) ∙ has in
                  let was = open_cascade i eight before in
                  let test = bmp_test-clear s.masks 16 irq v.bits low 2 in
                  rw master (
                    ap (λ m. bmp_test m 2) (clear_line-bmp_clear s.masks irq low)
                    ∙ test
                    ∙ rw was (ground arith))
            ]))

  unregister-HasOpenCascade :
      (s : Interrupts H) (irq : ℕ)
      → IsValid s
      → irq ≢ 2
      → HasOpenCascade s
      → HasOpenCascade (irq_unregister s irq)
  unfolding irq_unregister
  unregister-HasOpenCascade s irq v ne open_cascade =
      if_cases HasOpenCascade (leb 16 irq) _ _ (λ out. open_cascade)
        (λ inside i eight has.
          (let low : irq < 16 = ground (arith, inside) in
            let not_two : (irq == 2) ≡ false = elim (Bool-cases (irq == 2)) [
              | inl e ↦ absurd (ne (ground (arith, e)))
              | inr e ↦ e
            ] in
            let read = get_or-set s.irq_handlers irq i none none in
            let room : ltb irq (length s.irq_handlers) ≡ true = ground (arith, low, v.table) in
            let test = bmp_test-set s.masks 16 irq v.bits low 2 in
            elim (Bool-cases (irq == i)) [
              | inl hit ↦
                  let gone : get_or (set s.irq_handlers irq none) i none ≡ none =
                    read ∙ rw (hit, room) refl in
                  let bad : true ≡ false = sym (ap is_none gone) ∙ has in cc
              | inr differ ↦
                  let before : is_none (get_or s.irq_handlers i none) ≡ false =
                    ap is_none (sym (read ∙ rw differ refl)) ∙ has in
                  let was = open_cascade i eight before in
                  ap (λ m. bmp_test m 2) (irq_mask-bmp_set s.masks irq low)
                  ∙ test
                  ∙ rw (not_two, was) refl
            ]))

  -- The states that registrations lead to after `pic_remap` while nobody unregisters the cascade.
  pub data Connected : Interrupts H → Type 0 where
    starts : Connected booted
    connects :
        {s : Interrupts H} (irq : ℕ) (handler : H)
        → Connected s
        → Connected (irq_register s irq handler)
    disconnects :
        {s : Interrupts H} (irq : ℕ) → irq ≢ 2 → Connected s → Connected (irq_unregister s irq)

  Connected-Registered : {s : Interrupts H} → Connected s → Registered s
  Connected-Registered starts = boots
  Connected-Registered (connects irq handler c) = registers irq handler (Connected-Registered c)
  Connected-Registered (disconnects irq ne c) = unregisters irq (Connected-Registered c)

  Connected-IsValid : {s : Interrupts H} → Connected s → IsValid s
  Connected-IsValid c = Registered-IsValid (Connected-Registered c)

  Connected-HasOpenCascade : {s : Interrupts H} → Connected s → HasOpenCascade s
  Connected-HasOpenCascade starts = λ i eight has.
      let blank = ap is_none (get_or-replicate {A = Option H} 16 i none) in
      let bad : true ≡ false = sym blank ∙ has in cc
  Connected-HasOpenCascade (connects {s = s} irq handler c) =
      register-HasOpenCascade s irq handler (Connected-IsValid c) (Connected-HasOpenCascade c)
  Connected-HasOpenCascade (disconnects {s = s} irq ne c) =
      unregister-HasOpenCascade s irq (Connected-IsValid c) ne (Connected-HasOpenCascade c)

  -- In every state that calls of irq_register, and of irq_unregister for lines other than 2, lead to
  -- after the remapping, with which all lines are masked, each line other than 2 comes through, which
  -- for the slave's lines needs the cascade open too, exactly if it has a handler.
  pub comes_through-Connected :
      (s : Interrupts H) (i : ℕ)
      → Connected s
      → i < 16
      → i ≢ 2
      → comes_through s.masks i ≡ not (is_none (get_or s.irq_handlers i none))
  comes_through-Connected s i c low ne =
      let own = (Connected-IsValid c).matches i low ne in
      elim (Bool-cases (is_none (get_or s.irq_handlers i none))) [
        | inl absent ↦ let masked = own ∙ absent in rw (masked, absent) refl
        | inr present ↦
            let clear = own ∙ present in
            elim (Bool-cases (ltb i 8)) [
              | inl master ↦ rw (clear, present, master) refl
              | inr slave ↦
                  let two = Connected-HasOpenCascade c i (ground (arith, slave)) present in
                  rw (clear, present, slave, two) refl
            ]
      ]
