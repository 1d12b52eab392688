-- ===== src/Memory/Pmm/Reporting.antt =====
-- kernel/memory.cpp: a page given back, and the number of free pages that the allocator reports.
use quillos.Prelude.{
  ℕ, ◌-◌, ◌/◌, ◌<◌, ◌≡◌, refl, sym, ap, ◌∙◌, inl, inr, false, arith, ◌==◌, Bool-cases,
}
use quillos.Memory.Bitmap.{bmp_test, count_used, count_used-le}
use quillos.Memory.Pmm.{page_size, Pmm, pmm_alloc_page, pmm_free_page, pmm_free_pages}
use quillos.Memory.Pmm.Allocation.{IsValid, is_used, pmm_alloc_page_lem, pmm_free_page_lem}

-- A page that is allocated and freed at once leaves every page as it was.
pub free-alloc :
    (s : Pmm) (q : ℕ)
    → IsValid s
    → ((p : ℕ) × (p < s.highest_page) × (is_used s p ≡ false))
    → q < s.highest_page
    → let (t, phys) = pmm_alloc_page s in is_used (pmm_free_page t phys) q ≡ is_used s q
free-alloc s q v (p, hp, free) hq = elim (pmm_alloc_page_lem s v) [
  | inl (i, hi, was, e, valid, top, u, marks, zeroed) ↦
      let phys = (pmm_alloc_page s).1 in
      let freed = (pmm_free_page_lem (pmm_alloc_page s).0 phys valid).1 q (rw top hq) in
      let page : phys / page_size ≡ i = omega arith in
      elim (Bool-cases (i == q)) [
        | inl x ↦
            let x' : i ≡ q = ground arith in
            freed ∙ rw (page, x) (sym was ∙ ap (bmp_test s.bitmap) x')
        | inr x ↦ freed ∙ rw (page, x) (marks q ∙ rw x refl)
      ]
  | inr (e, full) ↦ absurd (ground (arith, full p hp))
]

-- The pages below the highest that are marked free.
abbrev pub free_pages : Pmm → ℕ
free_pages s = s.highest_page - count_used s.bitmap s.highest_page

-- `pmm_free_pages` takes the used pages, which count every hole and reserved range of the address
-- space, from the usable pages only. So whenever some page is not usable memory and some page is
-- free, it reports fewer pages than are free.
pub pmm_free_pages_short :
    (s : Pmm)
    → IsValid s
    → s.total < s.highest_page
    → 0 < free_pages s
    → pmm_free_pages s < free_pages s
unfolding pmm_free_pages
pmm_free_pages_short s v h f =
    ground (arith, v.counted, v.small, count_used-le s.bitmap s.highest_page)
