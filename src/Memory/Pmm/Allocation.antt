-- ===== src/Memory/Pmm/Allocation.antt =====
-- kernel/memory.cpp: the invariant of the page allocator, and what allocating and freeing a page do.
use quillos.Prelude.{
  ℕ, zero, suc, ◌+◌, ◌-◌, ◌*◌, ◌/◌, ◌^◌, ◌≤◌, ◌<◌, ◌≡◌, refl, ap, ◌⊎◌, inl, inr, Bool, true, false,
  not, ◌&&◌, ◌||◌, none, some, List, arith, ltb, leb, ◌==◌, if◌then◌else◌, Bool-cases,
}
use quillos.Memory.Bitmap.{
  bmp_test, count_used, IsBitmap, bmp_test-set, bmp_test-clear, bmp_set-IsBitmap,
  bmp_clear-IsBitmap, count_used-set, count_used-clear, count_used-le,
}
use quillos.Memory.Pmm.{page_size, Pmm, first_free, claim, pmm_alloc_page, pmm_free_page}

-- The bitmap covers every page, `used` is the number of pages marked used, and page numbers are those
-- of a 64-bit address space.
pub record IsValid (s : Pmm) : Type 0 where
  pub bits : IsBitmap s.bitmap s.highest_page
  pub counted : s.used ≡ count_used s.bitmap s.highest_page
  pub hint_in : s.search_hint ≤ s.highest_page
  pub small : s.highest_page ≤ 2 ^ 52

-- The page numbered `p` is marked used.
abbrev pub is_used : Pmm → ℕ → Bool
is_used s p = bmp_test s.bitmap p

-- The search finds the first free page of its range, or there is none.
pub first_free_lem :
    (bm : List ℕ) (n i : ℕ)
    → ((p : ℕ) × (first_free bm n i ≡ some p) × (i ≤ p) × (p < i + n) × (bmp_test bm p ≡ false))
      ⊎ ((first_free bm n i ≡ none) × ((p : ℕ) → i ≤ p → p < i + n → bmp_test bm p ≡ true))
unfolding first_free
first_free_lem bm zero i = inr (refl, λ p a b. absurd (omega arith))
first_free_lem bm (suc n) i = elim (Bool-cases (bmp_test bm i)) [
  | inl taken ↦ elim (first_free_lem bm n (i + 1)) [
    | inl (p, e, a, b, free) ↦ inl (p, rw taken e, omega arith, omega arith, free)
    | inr (e, full) ↦ inr (
      rw taken e,
      λ p a b. elim (Bool-cases (p == i)) [
        | inl here ↦ let here' : p ≡ i = ground arith in rw here' taken
        | inr later ↦ full p (ground arith) (omega arith)
      ],
    )
  ]
  | inr free ↦ inl (i, rw free refl, omega arith, omega arith, free)
]

claim-IsValid :
    (s : Pmm) (i : ℕ)
    → IsValid s
    → i < s.highest_page
    → bmp_test s.bitmap i ≡ false
    → IsValid (claim s i).0
claim-IsValid s i v h free = record {
  bits = bmp_set-IsBitmap s.bitmap s.highest_page i v.bits h;
  counted = ground (
    arith,
    count_used-set s.bitmap s.highest_page i v.bits h,
    count_used-le s.bitmap s.highest_page,
    v.counted,
    v.small,
  );
  hint_in = omega arith;
  small = v.small;
}

-- What an allocation from `s` may give.
abbrev pub Allocates : Pmm → Pmm × ℕ → Type 0
Allocates s r =
    ((p : ℕ) × (p < s.highest_page)
      × (is_used s p ≡ false)
      × (r.1 ≡ p * page_size)
      × IsValid r.0
      × (r.0.highest_page ≡ s.highest_page)
      × (r.0.used ≡ s.used + 1)
      × ((q : ℕ) → is_used r.0 q ≡ ((p == q) || is_used s q))
      × ((a : ℕ) → r.0.mem a ≡ (if a / page_size == p then 0 else s.mem a)))
    ⊎ ((r ≡ (s, 0)) × ((p : ℕ) → p < s.highest_page → is_used s p ≡ true))

claim-Allocates :
    (s : Pmm) (i : ℕ)
    → IsValid s
    → i < s.highest_page
    → bmp_test s.bitmap i ≡ false
    → Allocates s (claim s i)
claim-Allocates s i v h free = inl (
  i,
  h,
  free,
  omega (arith, v.small),
  claim-IsValid s i v h free,
  refl,
  omega (arith, count_used-le s.bitmap s.highest_page, v.counted, v.small),
  bmp_test-set s.bitmap s.highest_page i v.bits h,
  λ a. refl,
)

-- `pmm_alloc_page` marks exactly one free page used, zeroes exactly that page, counts it and returns
-- its address; it returns 0 and changes nothing only if every page is used.
pub pmm_alloc_page_lem : (s : Pmm) → IsValid s → Allocates s (pmm_alloc_page s)
unfolding pmm_alloc_page
pmm_alloc_page_lem s v =
    elim (first_free_lem s.bitmap (s.highest_page - s.search_hint) s.search_hint) [
      | inl (p, e, a, b, free) ↦
          let got : pmm_alloc_page s ≡ claim s p = rw (e, pmm_alloc_page) refl in
          rw got (claim-Allocates s p v (omega (arith, v.hint_in)) free)
      | inr (e, above) ↦ elim (first_free_lem s.bitmap s.search_hint 0) [
        | inl (p, f, a, b, free) ↦
            let got : pmm_alloc_page s ≡ claim s p =
              rw (e, pmm_alloc_page) (rw (f, pmm_alloc_page) refl) in
            rw got (claim-Allocates s p v (omega (arith, v.hint_in)) free)
        | inr (f, below) ↦
            let got : pmm_alloc_page s ≡ (s, 0) =
              rw (e, pmm_alloc_page) (rw (f, pmm_alloc_page) refl) in
            rw got (
              inr (
                refl,
                λ p h. elim (Bool-cases (ltb p s.search_hint)) [
                  | inl low ↦ below p (omega arith) (ground arith)
                  | inr high ↦ above p (ground arith) (ground arith)
                ],
              ))
      ]
    ]

-- `pmm_free_page` keeps the allocator well formed and marks exactly the page of the address free; an
-- address above the last page changes nothing.
pub pmm_free_page_lem :
    (s : Pmm) (phys : ℕ)
    → IsValid s
    → IsValid (pmm_free_page s phys)
      × ((q : ℕ)
          → q < s.highest_page
          → is_used (pmm_free_page s phys) q ≡ (not (phys / page_size == q) && is_used s q))
unfolding pmm_free_page
pmm_free_page_lem s phys v =
    let page = phys / page_size in
    elim (Bool-cases (leb s.highest_page page)) [
      | inl e ↦ rw e (v, λ q h. let far : (page == q) ≡ false = ground arith in rw far refl)
      | inr e ↦
          let h : page < s.highest_page = ground arith in
          elim (Bool-cases (bmp_test s.bitmap page)) [
            | inl t ↦
                rw (e, t)
                  (
                    record {
                      bits = bmp_clear-IsBitmap s.bitmap s.highest_page page v.bits h;
                      counted = ground (
                        arith,
                        count_used-clear s.bitmap s.highest_page page v.bits h,
                        count_used-le s.bitmap s.highest_page,
                        v.counted,
                        v.small,
                      );
                      hint_in = ground (arith, v.hint_in);
                      small = v.small;
                    },
                    λ q hq. bmp_test-clear s.bitmap s.highest_page page v.bits h q,
                  )
            | inr t ↦
                rw (e, t)
                  (
                    v,
                    λ q hq. elim (Bool-cases (page == q)) [
                      | inl x ↦
                          let x' : page ≡ q = ground arith in
                          ground (arith, ap (bmp_test s.bitmap) x')
                      | inr x ↦ rw x refl
                    ],
                  )
          ]
    ]
