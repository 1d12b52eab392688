-- ===== src/Memory/Pmm/Boot.antt =====
-- kernel/memory.cpp, `pmm_init`: which pages are free once the memory map has been read.
use quillos.Prelude.{
  ℕ, ◌+◌, ◌-◌, ◌/◌, ◌%◌, ◌≤◌, ◌<◌, ◌≡◌, refl, sym, ◌∙◌, ◌≢◌, inl, inr, Bool, true, false, not, ◌&&◌,
  ◌||◌, some, List, [], ◌∷◌, arith, replicate, ltb, leb, ◌==◌, if◌then◌else◌, Bool-cases, add64,
  u64_mod,
}
use quillos.Memory.Bitmap.{count_used-full, bmp_test-ones, ones-IsBitmap}
use quillos.Memory.Pmm.{
  page_size, MemmapEntry, is_usable, Pmm, highest_addr, bitmap_region, release_entry, release_run,
  release_usable, reserve_run, all_used, pmm_init,
}
use quillos.Memory.Pmm.Allocation.{IsValid, is_used}
use quillos.Memory.Pmm.Runs.{in_run, release_run_lem, reserve_run_lem}

-- Page `p` lies in the usable region `e`.
abbrev pub covers : MemmapEntry → ℕ → Bool
covers e p = is_usable e && in_run (e.base / page_size) (e.length / page_size) p

abbrev pub covered : List MemmapEntry → ℕ → Bool
covered [] p = false
covered (e ∷ es) p = covers e p || covered es p

-- What Limine documents of its memory map: entries lie in the address space; usable entries are
-- aligned to pages and do not overlap.
abbrev pub IsMemmap : List MemmapEntry → Type 0
IsMemmap [] = Unit {0}
IsMemmap (e ∷ es) =
    (e.base + e.length < u64_mod)
    × (is_usable e ≡ true → (e.base % page_size ≡ 0) × (e.length % page_size ≡ 0))
    × ((p : ℕ) → covers e p ≡ true → covered es p ≡ false)
    × IsMemmap es

highest_addr-le : (es : List MemmapEntry) (top : ℕ) → top ≤ highest_addr top es
unfolding highest_addr
highest_addr-le [] top = omega arith
highest_addr-le (e ∷ es) top = ground (
  arith,
  highest_addr-le es (if ltb top (add64 e.base e.length) then add64 e.base e.length else top),
)

highest_addr-lt : (es : List MemmapEntry) (top : ℕ) → top < u64_mod → highest_addr top es < u64_mod
unfolding highest_addr
highest_addr-lt [] top h = h
highest_addr-lt (e ∷ es) top h =
    highest_addr-lt es (if ltb top (add64 e.base e.length) then add64 e.base e.length else top)
      (ground arith)

-- Every entry of `es` ends below page `n`.
abbrev Within : List MemmapEntry → ℕ → Type 0
Within [] n = Unit {0}
Within (e ∷ es) n = (e.base / page_size + e.length / page_size ≤ n) × Within es n

highest_addr-Within :
    (es : List MemmapEntry) (top n : ℕ)
    → IsMemmap es
    → highest_addr top es / page_size ≤ n
    → Within es n
unfolding highest_addr
highest_addr-Within [] top n m h = tt
highest_addr-Within (e ∷ es) top n m h =
    let top' = (if ltb top (add64 e.base e.length) then add64 e.base e.length else top) in
    let above = highest_addr-le es top' in
    (ground (arith, above, m.0), highest_addr-Within es top' n m.3 h)

release_entry_lem :
    (e : MemmapEntry) (s : Pmm)
    → IsValid s
    → e.base / page_size + e.length / page_size ≤ s.highest_page
    → ((q : ℕ) → covers e q ≡ true → is_used s q ≡ true)
    → IsValid (release_entry s e)
      × ((release_entry s e).highest_page ≡ s.highest_page)
      × ((q : ℕ) → is_used (release_entry s e) q ≡ (not (covers e q) && is_used s q))
release_entry_lem e s v w u = elim (Bool-cases (is_usable e)) [
  | inr skip ↦
      let same : release_entry s e ≡ s = rw skip refl in rw same (v, refl, λ q. ground arith)
  | inl taken ↦
      let n = e.length / page_size in
      let page = e.base / page_size in
      let run = release_run_lem n page s v w (λ q i. u q (ground arith)) in
      let go : release_entry s e ≡ release_run n page s = rw taken refl in
      rw go (run.0, run.1, λ q. run.2 q ∙ ground arith)
]

-- The pass over the map releases exactly the pages of the usable regions.
release_usable_lem :
    (es : List MemmapEntry) (s : Pmm)
    → IsMemmap es
    → Within es s.highest_page
    → IsValid s
    → ((q : ℕ) → covered es q ≡ true → is_used s q ≡ true)
    → IsValid (release_usable es s)
      × ((release_usable es s).highest_page ≡ s.highest_page)
      × ((q : ℕ) → is_used (release_usable es s) q ≡ (not (covered es q) && is_used s q))
unfolding release_usable
release_usable_lem [] s m w v u = (v, refl, λ q. refl)
release_usable_lem (e ∷ es) s m w v u =
    let one = release_entry_lem e s v w.0 (λ q c. u q (ground arith)) in
    let w' : Within es (release_entry s e).highest_page = rw one.1 w.1 in
    let out : (q : ℕ) → covered es q ≡ true → covers e q ≡ false = λ q c.
      elim (Bool-cases (covers e q)) [ inl x ↦ absurd (ground (arith, m.2 q x)) | inr x ↦ x ] in
    let ih =
      release_usable_lem es (release_entry s e) m.3 w' one.0
        (λ q c. one.2 q ∙ ground (arith, out q c, u q)) in
    (ih.0, ih.1 ∙ one.1, λ q. ih.2 q ∙ rw (one.2 q) (ground arith))

-- The pages that hold the bitmap.
abbrev pub in_bitmap : List MemmapEntry → ℕ → Bool
in_bitmap es q =
    let bytes = (highest_addr 0 es / page_size + 7) / 8 in
    in_run (bitmap_region bytes es / page_size) ((bytes + page_size - 1) / page_size) q

bitmap_region-Within :
    (es : List MemmapEntry) (bytes n : ℕ)
    → IsMemmap es
    → Within es n
    → bitmap_region bytes es ≢ 0
    → bitmap_region bytes es / page_size + (bytes + page_size - 1) / page_size ≤ n
unfolding bitmap_region
bitmap_region-Within [] bytes n m w h = absurd (h refl)
bitmap_region-Within (e ∷ es) bytes n m w h =
    elim (Bool-cases (is_usable e && leb bytes e.length)) [
      | inl fits ↦
          let aligned = m.1 (ground arith) in
          let room : bytes ≤ e.length = ground arith in rw fits (omega arith)
      | inr no_fit ↦ rw no_fit (bitmap_region-Within es bytes n m.3 w.1 (λ z. h (rw no_fit z)))
    ]

all_used-IsValid : (es : List MemmapEntry) (mem : ℕ → ℕ) → IsValid (all_used es mem)
all_used-IsValid es mem =
    let top = highest_addr-lt es 0 (omega arith) in
    let h = highest_addr 0 es / page_size in
    let bytes = (h + 7) / 8 in
    record {
      bits = ones-IsBitmap bytes h (omega arith);
      counted =
          sym
            (count_used-full (replicate bytes 0xff) h (λ p q. bmp_test-ones bytes p (omega arith)));
      hint_in = omega arith;
      small = omega arith;
    }

covered-in : (es : List MemmapEntry) (n q : ℕ) → Within es n → covered es q ≡ true → q < n
covered-in [] n q w c = absurd (cc)
covered-in (e ∷ es) n q w c = elim (Bool-cases (covers e q)) [
  | inl x ↦ ground arith
  | inr x ↦ covered-in es n q w.1 (ground arith)
]

-- After `pmm_init` on a map as Limine documents it, the allocator is well formed, and a page is free
-- exactly if it lies in a usable region and is not one of the pages that hold the bitmap itself: so
-- neither reserved memory nor the bitmap is ever handed out.
pub pmm_init_lem :
    (es : List MemmapEntry) (mem : ℕ → ℕ) (s : Pmm)
    → IsMemmap es
    → pmm_init es mem ≡ some s
    → IsValid s
      × (s.highest_page ≡ highest_addr 0 es / page_size)
      × ((q : ℕ) → q < s.highest_page → is_used s q ≡ (in_bitmap es q || not (covered es q)))
unfolding pmm_init
pmm_init_lem es mem s m e =
    let s0 = all_used es mem in
    let h = highest_addr 0 es / page_size in
    let bytes = (h + 7) / 8 in
    let w = highest_addr-Within es 0 h m (omega arith) in
    let set0 : (q : ℕ) → q < h → is_used s0 q ≡ true =
      λ q hq. bmp_test-ones bytes q (omega arith) in
    elim (Bool-cases (s0.bitmap_phys == 0)) [
      | inl none_big ↦ absurd (ground arith)
      | inr found ↦
          let placed = bitmap_region-Within es bytes h m w (ground arith) in
          let freed =
            release_usable_lem es s0 m w (all_used-IsValid es mem)
              (λ q c. set0 q (covered-in es h q w c)) in
          let n = (bytes + page_size - 1) / page_size in
          let own = bitmap_region bytes es / page_size in
          let kept =
            reserve_run_lem n own (release_usable es s0) freed.0 (omega (arith, placed, freed.1)) in
          let e' : reserve_run n own (release_usable es s0) ≡ s = ground (arith, e, found) in
          rw (← e') (
            kept.0,
            kept.1 ∙ freed.1,
            λ q hq.
                kept.2 q ∙ rw (freed.2 q, set0 q (omega (arith, kept.1, freed.1))) (ground arith),
          )
    ]
