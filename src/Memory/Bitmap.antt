-- ===== src/Memory/Bitmap.antt =====
-- kernel/memory.cpp, `bmp_set`, `bmp_clear` and `bmp_test`: one bit for each page, eight to a byte.
use Prim.Native.Nat.{bit_and, bit_or}
use quillos.Prelude.{
  ℕ, zero, suc, ◌+◌, ◌-◌, ◌*◌, ◌/◌, ◌%◌, ◌^◌, ◌≤◌, ◌<◌, ◌≡◌, refl, ap, ◌∙◌, inl, inr, Bool, true,
  false, not, ◌&&◌, ◌||◌, List, arith, length, get_or, modify, length-modify, get_or-modify, ltb,
  ◌==◌, if◌then◌else◌, Bool-cases, passes_below, passes_below_lem, agree, agree→eq, one_if,
  replicate, get_or-replicate_in, get_or-out, length-replicate,
}

-- `pmm_bitmap[page / 8] |= (uint8_t)(1 << (page % 8))`
unfoldable pub bmp_set : List ℕ → ℕ → List ℕ
bmp_set bm page = modify 0 bm (page / 8) (λ b. bit_or b (2 ^ (page % 8)))

-- `pmm_bitmap[page / 8] &= (uint8_t)~(1 << (page % 8))`
unfoldable pub bmp_clear : List ℕ → ℕ → List ℕ
bmp_clear bm page = modify 0 bm (page / 8) (λ b. bit_and b (255 - 2 ^ (page % 8)))

unfoldable pub bmp_test : List ℕ → ℕ → Bool
bmp_test bm page = not (bit_and (get_or bm (page / 8) 0) (2 ^ (page % 8)) == 0)

-- How many of the pages below `n` are marked used.
unfoldable pub count_used : List ℕ → ℕ → ℕ
count_used bm zero = 0
count_used bm (suc n) = count_used bm n + one_if (bmp_test bm n)

-- The list is an array of `uint8_t` that has a bit for each page below `n`.
pub record IsBitmap (bm : List ℕ) (n : ℕ) : Type 0 where
  pub bytes : (i : ℕ) → get_or bm i 0 < 256
  pub room : n ≤ 8 * length bm

abbrev bit : ℕ → ℕ → Bool
bit b k = not (bit_and b (2 ^ k) == 0)

-- A check of every byte against every pair of bit numbers.
abbrev each_bit : (ℕ → ℕ → ℕ → Bool) → Bool
each_bit p = passes_below 256 (λ b. passes_below 8 (λ k. passes_below 8 (p b k)))

each_bit_sound :
    (p : ℕ → ℕ → ℕ → Bool)
    → each_bit p ≡ true
    → (b k j : ℕ) → b < 256
    → k < 8
    → j < 8
    → p b k j ≡ true
each_bit_sound p e b k j hb hk hj =
    let at_b = passes_below_lem 256 b (λ c. passes_below 8 (λ k. passes_below 8 (p c k))) hb e in
    let at_k = passes_below_lem 8 k (λ k. passes_below 8 (p b k)) hk at_b in
    passes_below_lem 8 j (p b k) hj at_k

set_table :
    each_bit (λ b k j.
      agree (bit (bit_or b (2 ^ k)) j) ((k == j) || bit b j) && ltb (bit_or b (2 ^ k)) 256)
    ≡ true
unfolding passes_below
set_table = refl

clear_table :
    each_bit (λ b k j.
      agree (bit (bit_and b (255 - 2 ^ k)) j) (not (k == j) && bit b j)
      && ltb (bit_and b (255 - 2 ^ k)) 256)
    ≡ true
unfolding passes_below
clear_table = refl

and_true : (a b : Bool) → (a && b) ≡ true → (a ≡ true) × (b ≡ true)
and_true a b h = ground arith

set_bits :
    (b k j : ℕ)
    → b < 256
    → k < 8
    → j < 8
    → (bit (bit_or b (2 ^ k)) j ≡ ((k == j) || bit b j)) × (bit_or b (2 ^ k) < 256)
set_bits b k j hb hk hj =
    let row = and_true _ _ (each_bit_sound _ set_table b k j hb hk hj) in
    (agree→eq _ _ row.0, ground (arith, row.1))

clear_bits :
    (b k j : ℕ)
    → b < 256
    → k < 8
    → j < 8
    → (bit (bit_and b (255 - 2 ^ k)) j ≡ (not (k == j) && bit b j))
      × (bit_and b (255 - 2 ^ k) < 256)
clear_bits b k j hb hk hj =
    let row = and_true _ _ (each_bit_sound _ clear_table b k j hb hk hj) in
    (agree→eq _ _ row.0, ground (arith, row.1))

module _ (bm : List ℕ) (n p : ℕ) (v : IsBitmap bm n) (h : p < n) where
  byte_in : p / 8 < length bm
  byte_in = omega (arith, v.room)

  -- Setting a page's bit marks that page used and changes no other page.
  pub bmp_test-set : (q : ℕ) → bmp_test (bmp_set bm p) q ≡ ((p == q) || bmp_test bm q)
  unfolding bmp_test bmp_set
  bmp_test-set q =
      let written = get_or-modify 0 bm (p / 8) (q / 8) (λ b. bit_or b (2 ^ (p % 8))) byte_in in
      elim (Bool-cases (p / 8 == q / 8)) [
        | inl e ↦
            let e' : p / 8 ≡ q / 8 = ground arith in
            let bits =
              set_bits (get_or bm (p / 8) 0) (p % 8) (q % 8) (v.bytes (p / 8)) (omega arith)
                (omega arith) in
            let same : (p % 8 == q % 8) ≡ (p == q) = ground arith in
            rw (written, e) (bits.0 ∙ rw (same, e') refl)
        | inr ne ↦ let differ : (p == q) ≡ false = ground arith in rw (written, ne, differ) refl
      ]

  -- Clearing it marks that page free and changes no other page.
  pub bmp_test-clear : (q : ℕ) → bmp_test (bmp_clear bm p) q ≡ (not (p == q) && bmp_test bm q)
  unfolding bmp_test bmp_clear
  bmp_test-clear q =
      let written =
        get_or-modify 0 bm (p / 8) (q / 8) (λ b. bit_and b (255 - 2 ^ (p % 8))) byte_in in
      elim (Bool-cases (p / 8 == q / 8)) [
        | inl e ↦
            let e' : p / 8 ≡ q / 8 = ground arith in
            let bits =
              clear_bits (get_or bm (p / 8) 0) (p % 8) (q % 8) (v.bytes (p / 8)) (omega arith)
                (omega arith) in
            let same : (p % 8 == q % 8) ≡ (p == q) = ground arith in
            rw (written, e) (bits.0 ∙ rw (same, e') refl)
        | inr ne ↦ let differ : (p == q) ≡ false = ground arith in rw (written, ne, differ) refl
      ]

  bytes-modify :
      (f : ℕ → ℕ)
      → f (get_or bm (p / 8) 0) < 256
      → (i : ℕ) → get_or (modify 0 bm (p / 8) f) i 0 < 256
  bytes-modify f small i = ground (arith, get_or-modify 0 bm (p / 8) i f byte_in, v.bytes i)

  pub bmp_set-IsBitmap : IsBitmap (bmp_set bm p) n
  unfolding bmp_set
  bmp_set-IsBitmap = record {
    bytes =
        bytes-modify (λ b. bit_or b (2 ^ (p % 8)))
          (set_bits (get_or bm (p / 8) 0) (p % 8) 0 (v.bytes (p / 8)) (omega arith)
            (omega arith)).1;
    room = rw (length-modify 0 bm (p / 8) (λ b. bit_or b (2 ^ (p % 8)))) v.room;
  }

  pub bmp_clear-IsBitmap : IsBitmap (bmp_clear bm p) n
  unfolding bmp_clear
  bmp_clear-IsBitmap = record {
    bytes =
        bytes-modify (λ b. bit_and b (255 - 2 ^ (p % 8)))
          (clear_bits (get_or bm (p / 8) 0) (p % 8) 0 (v.bytes (p / 8)) (omega arith)
            (omega arith)).1;
    room = rw (length-modify 0 bm (p / 8) (λ b. bit_and b (255 - 2 ^ (p % 8)))) v.room;
  }

  count_used-set_upto :
      (m : ℕ)
      → count_used (bmp_set bm p) m + (if ltb p m then one_if (bmp_test bm p) else 0)
        ≡ count_used bm m + (if ltb p m then 1 else 0)
  unfolding count_used
  count_used-set_upto zero = ground arith
  count_used-set_upto (suc m) = elim (Bool-cases (p == m)) [
    | inl e ↦
        let e' : p ≡ m = ground arith in
        let t : bmp_test (bmp_set bm p) m ≡ true = rw (bmp_test-set m, e) refl in
        ground (arith, count_used-set_upto m, t, ap (bmp_test bm) e')
    | inr ne ↦
        let t : bmp_test (bmp_set bm p) m ≡ bmp_test bm m = rw (bmp_test-set m, ne) refl in
        ground (arith, count_used-set_upto m, t)
  ]

  count_used-clear_upto :
      (m : ℕ)
      → count_used (bmp_clear bm p) m + (if ltb p m then one_if (bmp_test bm p) else 0)
        ≡ count_used bm m
  unfolding count_used
  count_used-clear_upto zero = ground arith
  count_used-clear_upto (suc m) = elim (Bool-cases (p == m)) [
    | inl e ↦
        let e' : p ≡ m = ground arith in
        let t : bmp_test (bmp_clear bm p) m ≡ false = rw (bmp_test-clear m, e) refl in
        ground (arith, count_used-clear_upto m, t, ap (bmp_test bm) e')
    | inr ne ↦
        let t : bmp_test (bmp_clear bm p) m ≡ bmp_test bm m = rw (bmp_test-clear m, ne) refl in
        ground (arith, count_used-clear_upto m, t)
  ]

  pub count_used-set : count_used (bmp_set bm p) n + one_if (bmp_test bm p) ≡ count_used bm n + 1
  count_used-set = ground (arith, count_used-set_upto n)

  pub count_used-clear : count_used (bmp_clear bm p) n + one_if (bmp_test bm p) ≡ count_used bm n
  count_used-clear = ground (arith, count_used-clear_upto n)

pub count_used-le : (bm : List ℕ) (n : ℕ) → count_used bm n ≤ n
unfolding count_used
count_used-le bm zero = omega arith
count_used-le bm (suc n) = ground (arith, count_used-le bm n)

-- A page that is free leaves the count below its bound.
pub count_used-lt : (bm : List ℕ) (n p : ℕ) → p < n → bmp_test bm p ≡ false → count_used bm n < n
unfolding count_used
count_used-lt bm zero p h e = absurd (omega arith)
count_used-lt bm (suc n) p h e = elim (Bool-cases (p == n)) [
  | inl hit ↦
      let hit' : p ≡ n = ground arith in ground (arith, count_used-le bm n, ap (bmp_test bm) hit')
  | inr miss ↦ let below : p < n = ground arith in ground (arith, count_used-lt bm n p below e)
]

-- If every page below `n` is used, the count is `n`.
pub count_used-full :
    (bm : List ℕ) (n : ℕ) → ((p : ℕ) → p < n → bmp_test bm p ≡ true) → count_used bm n ≡ n
unfolding count_used
count_used-full bm zero h = refl
count_used-full bm (suc n) h =
    ground (arith, count_used-full bm n (λ p q. h p (omega arith)), h n (omega arith))

ones_table : passes_below 8 (λ k. bit 0xff k) ≡ true
unfolding passes_below
ones_table = refl

-- In a bitmap of bytes 0xFF every page is used.
pub bmp_test-ones : (bytes p : ℕ) → p < 8 * bytes → bmp_test (replicate bytes 0xff) p ≡ true
unfolding bmp_test
bmp_test-ones bytes p h =
    rw (get_or-replicate_in {A = ℕ} bytes (p / 8) 0xff 0 (omega arith))
      (passes_below_lem 8 (p % 8) (λ k. bit 0xff k) (omega arith) ones_table)

pub ones-IsBitmap : (bytes n : ℕ) → n ≤ 8 * bytes → IsBitmap (replicate bytes 0xff) n
ones-IsBitmap bytes n h = record {
  bytes = λ i. elim (Bool-cases (ltb i bytes)) [
    | inl inside ↦ rw (get_or-replicate_in {A = ℕ} bytes i 0xff 0 (ground arith)) (omega arith)
    | inr out ↦
        rw
          (get_or-out {A = ℕ} (replicate bytes 0xff) i 0
            (ground (arith, length-replicate {A = ℕ} bytes 0xff)))
          (omega arith)
  ];
  room = omega (arith, length-replicate {A = ℕ} bytes 0xff);
}
