-- ===== src/Interrupts/Lines.antt =====
-- kernel/idt.cpp: which interrupt lines are masked.
use Prim.Native.Nat.{bit_and, bit_or}
use mathlib.Core.Path.{subst}
use quillos.Prelude.{
  ℕ, zero, suc, get_or-replicate, ◌-◌, ◌/◌, ◌%◌, ◌^◌, ◌≤◌, ◌<◌, ◌≡◌, ◌≢◌, refl, sym, ap, ◌∙◌, inl,
  inr, Bool, true, false, not, ◌&&◌, ◌||◌, Option, none, some, List, [], ◌∷◌, arith, length, get_or,
  get_or-set, set, length-set, modify, leb, ltb, ◌==◌, if◌then◌else◌, if_cases, Bool-cases,
  passes_below, passes_below_lem,
}
use quillos.Memory.Bitmap.{
  bmp_set, bmp_clear, bmp_test, IsBitmap, bmp_test-set, bmp_test-clear, bmp_set-IsBitmap,
  bmp_clear-IsBitmap,
}
use quillos.Interrupts.{
  Interrupts, port, line, irq_mask, clear_line, irq_unmask, booted, irq_register, irq_unregister,
}

power_table : passes_below 8 (λ k. 2 ^ k % 256 == 2 ^ k) ≡ true
unfolding passes_below
power_table = refl

power_lem : (k : ℕ) → k < 8 → 2 ^ k % 256 ≡ 2 ^ k
power_lem k h =
    let e = passes_below_lem 8 k (λ k. 2 ^ k % 256 == 2 ^ k) h power_table in ground (arith, e)

port_lem : (irq : ℕ) → irq < 16 → port irq ≡ irq / 8
port_lem irq h = ground arith

line_lem : (irq : ℕ) → irq < 16 → line irq ≡ irq % 8
line_lem irq h = ground arith

bit_lem : (irq : ℕ) → irq < 16 → 2 ^ line irq % 256 ≡ 2 ^ (irq % 8)
bit_lem irq h = ap (λ k. 2 ^ k % 256) (line_lem irq h) ∙ power_lem (irq % 8) (omega arith)

-- The mask registers are a bitmap of the lines.
pub irq_mask-bmp_set :
    (masks : List ℕ) (irq : ℕ) → irq < 16 → irq_mask masks irq ≡ bmp_set masks irq
unfolding irq_mask bmp_set
irq_mask-bmp_set masks irq h =
    ap (λ i. modify 0 masks i (λ val. bit_or val (2 ^ line irq % 256))) (port_lem irq h)
    ∙ ap (λ m. modify 0 masks (irq / 8) (λ val. bit_or val m)) (bit_lem irq h)

pub clear_line-bmp_clear :
    (masks : List ℕ) (irq : ℕ) → irq < 16 → clear_line masks irq ≡ bmp_clear masks irq
unfolding bmp_clear
clear_line-bmp_clear masks irq h =
    ap (λ i. modify 0 masks i (λ val. bit_and val (255 - 2 ^ line irq % 256))) (port_lem irq h)
    ∙ ap (λ m. modify 0 masks (irq / 8) (λ val. bit_and val (255 - m))) (bit_lem irq h)

not_two : (q : ℕ) → q ≢ 2 → (2 == q) ≡ false
not_two q ne = elim (Bool-cases (2 == q)) [ inl e ↦ absurd (ne (ground (arith, e))) | inr e ↦ e ]

itself_off : (irq : ℕ) (b c : Bool) → (not c && (not (irq == irq) && b)) ≡ false
itself_off irq b c = let e : (irq == irq) ≡ true = ground arith in rw e (ground arith)

-- What an unmasking leaves of the bitmap.
pub record Unmasked (masks after : List ℕ) (irq : ℕ) : Type 0 where
  pub bits : IsBitmap after 16
  pub others : (q : ℕ) → q ≢ 2 → bmp_test after q ≡ (not (irq == q) && bmp_test masks q)
  pub itself : bmp_test after irq ≡ false
  pub cascade : 8 ≤ irq → bmp_test after 2 ≡ false

pub irq_unmask_lem :
    (masks : List ℕ) (irq : ℕ)
    → IsBitmap masks 16
    → irq < 16
    → Unmasked masks (irq_unmask masks irq) irq
unfolding irq_unmask
irq_unmask_lem masks irq v h =
    let one = clear_line-bmp_clear masks irq h in
    let w = bmp_clear-IsBitmap masks 16 irq v h in
    let test = bmp_test-clear masks 16 irq v h in
    let two =
      ap (λ m. clear_line m 2) one ∙ clear_line-bmp_clear (bmp_clear masks irq) 2 (omega arith) in
    let test2 = bmp_test-clear (bmp_clear masks irq) 16 2 w (omega arith) in
    if_cases (λ after. Unmasked masks after irq) (leb 8 irq) _ _
      (λ slave.
        subst (λ after. Unmasked masks after irq) (sym two)
          (record {
            bits = bmp_clear-IsBitmap (bmp_clear masks irq) 16 2 w (omega arith);
            others = λ q ne.
                (let differ : (2 == q) ≡ false = not_two q ne in test2 q ∙ rw differ (test q));
            itself = test2 irq ∙ rw (test irq) (itself_off irq (bmp_test masks irq) (2 == irq));
            cascade = λ eight. test2 2;
          }))
      (λ master.
        subst (λ after. Unmasked masks after irq) (sym one)
          (record {
            bits = w;
            others = λ q ne. test q;
            itself = test irq ∙ itself_off irq (bmp_test masks irq) false;
            cascade = λ eight. absurd (ground (arith, eight, master));
          }))

abbrev pub is_none {ℓ} : {A : Type ℓ} → Option A → Bool
is_none none = true
is_none (some a) = false

choice : (c b : Bool) → (not c && b) ≡ (if c then false else b)
choice true b = refl
choice false b = refl

choice_or : (c b : Bool) → (c || b) ≡ (if c then true else b)
choice_or true b = refl
choice_or false b = refl

booted_bytes : (i : ℕ) → get_or {A = ℕ} (0xff ∷ 0xff ∷ []) i 0 < 256
booted_bytes zero = omega arith
booted_bytes (suc zero) = omega arith
booted_bytes (suc (suc i)) = omega arith

all_masked : passes_below 16 (bmp_test (0xff ∷ 0xff ∷ [])) ≡ true
unfolding passes_below bmp_test
all_masked = refl

module _ {H : Type 0} where
  -- The own mask bit of each line but the cascade is clear exactly if the line has a handler.
  pub record IsValid (s : Interrupts H) : Type 0 where
    pub bits : IsBitmap s.masks 16
    pub table : length s.irq_handlers ≡ 16
    pub matches :
        (i : ℕ) → i < 16 → i ≢ 2 → bmp_test s.masks i ≡ is_none (get_or s.irq_handlers i none)

  masked_out :
      (xs : List (Option H)) (i irq : ℕ) (o : Option H) (b : Bool)
      → irq < length xs
      → b ≡ is_none (get_or xs i none)
      → (if irq == i then is_none o else b) ≡ is_none (get_or (set xs irq o) i none)
  masked_out xs i irq o b h e =
      let read = get_or-set xs irq i o none in
      let inside : ltb irq (length xs) ≡ true = ground (arith, h) in
      elim (Bool-cases (irq == i)) [
        | inl hit ↦ rw (read, hit, inside) refl
        | inr miss ↦ rw (read, miss) e
      ]

  irq_register-IsValid :
      (s : Interrupts H) (irq : ℕ) (handler : H) → IsValid s → IsValid (irq_register s irq handler)
  unfolding irq_register
  irq_register-IsValid s irq handler v =
      if_cases IsValid (leb 16 irq) _ _ (λ out. v)
        (λ inside.
          (let u = irq_unmask_lem s.masks irq v.bits (ground (arith, inside)) in
            record {
              bits = u.bits;
              table = length-set s.irq_handlers irq (some handler) ∙ v.table;
              matches = λ i h ne.
                  u.others i ne
                  ∙ choice (irq == i) (bmp_test s.masks i)
                  ∙ masked_out s.irq_handlers i irq (some handler) (bmp_test s.masks i)
                      (ground (arith, inside, v.table)) (v.matches i h ne);
            }))

  irq_unregister-IsValid : (s : Interrupts H) (irq : ℕ) → IsValid s → IsValid (irq_unregister s irq)
  unfolding irq_unregister
  irq_unregister-IsValid s irq v =
      if_cases IsValid (leb 16 irq) _ _ (λ out. v)
        (λ inside.
          (let h : irq < 16 = ground (arith, inside) in
            let same = irq_mask-bmp_set s.masks irq h in
            record {
              bits =
                  subst (λ m. IsBitmap m 16) (sym same) (bmp_set-IsBitmap s.masks 16 irq v.bits h);
              table = length-set s.irq_handlers irq none ∙ v.table;
              matches = λ i hi ne.
                  ap (λ m. bmp_test m i) same
                  ∙ bmp_test-set s.masks 16 irq v.bits h i
                  ∙ choice_or (irq == i) (bmp_test s.masks i)
                  ∙ masked_out s.irq_handlers i irq none (bmp_test s.masks i)
                      (ground (arith, inside, v.table)) (v.matches i hi ne);
            }))

  booted-IsValid : IsValid (booted {H = H})
  booted-IsValid = record {
    bits = record { bytes = booted_bytes; room = omega arith };
    table = refl;
    matches = λ i h ne.
        passes_below_lem 16 i (bmp_test (0xff ∷ 0xff ∷ [])) h all_masked
        ∙ ap is_none (sym (get_or-replicate {A = Option H} 16 i none));
  }

  -- The states that registrations lead to after `pic_remap`.
  pub data Registered : Interrupts H → Type 0 where
    boots : Registered booted
    registers :
        {s : Interrupts H} (irq : ℕ) (handler : H)
        → Registered s
        → Registered (irq_register s irq handler)
    unregisters : {s : Interrupts H} (irq : ℕ) → Registered s → Registered (irq_unregister s irq)

  -- They are valid.
  pub Registered-IsValid : {s : Interrupts H} → Registered s → IsValid s
  Registered-IsValid boots = booted-IsValid
  Registered-IsValid (registers {s = s} irq handler r) =
      irq_register-IsValid s irq handler (Registered-IsValid r)
  Registered-IsValid (unregisters {s = s} irq r) =
      irq_unregister-IsValid s irq (Registered-IsValid r)

  -- On such a state, a registration on one of the 16 lines sets the handler and opens the line, and
  -- for a line of the slave also the cascade.
  pub irq_register_opens :
      (s : Interrupts H) (irq : ℕ) (handler : H)
      → Registered s
      → irq < 16
      → let t = irq_register s irq handler in
        (get_or t.irq_handlers irq none ≡ some handler)
        × (bmp_test t.masks irq ≡ false)
        × (8 ≤ irq → bmp_test t.masks 2 ≡ false)
  unfolding irq_register
  irq_register_opens s irq handler r h =
      let v = Registered-IsValid r in
      let u = irq_unmask_lem s.masks irq v.bits h in
      let inside : leb 16 irq ≡ false = ground (arith, h) in
      let at = get_or-set s.irq_handlers irq irq (some handler) none in
      let self : (irq == irq) ≡ true = ground arith in
      let room : ltb irq (length s.irq_handlers) ≡ true = ground (arith, h, v.table) in
      rw inside (at ∙ rw (self, room) refl, u.itself, u.cascade)
