-- ===== src/Memory/Pmm.antt =====
-- kernel/memory.cpp: the physical page allocator.
--
-- The bitmap is a list of bytes; the rest of physical memory is a function from address to byte.
-- The memory map is the list of Limine's entries. `irq_save` and `irq_restore` only shut out
-- interrupts, which a sequence of calls does not have.
pub mod Allocation
pub mod Reporting
pub mod Runs
pub mod Boot
use quillos.Prelude.{
  ℕ, zero, suc, ◌+◌, ◌-◌, ◌*◌, ◌/◌, ◌%◌, ◌^◌, ◌≤◌, ◌<◌, ◌≡◌, Bool, true, false, not, ◌&&◌, ◌||◌,
  Option, none, some, List, [], ◌∷◌, length, get_or, replicate, ltb, leb, ◌==◌, if◌then◌else◌,
  add64, sub64, mul64, u64_mod,
}
use quillos.Memory.Bitmap.{bmp_set, bmp_clear, bmp_test}

abbrev pub page_size : ℕ
page_size = 4096

-- `limine_memmap_entry`; `kind` is its `type`.
pub record MemmapEntry : Type 0 where
  pub base : ℕ
  pub length : ℕ
  pub kind : ℕ

abbrev pub memmap_usable : ℕ
memmap_usable = 0

pub record Pmm : Type 0 where
  pub bitmap : List ℕ
  pub bitmap_phys : ℕ
  pub bitmap_bytes : ℕ
  pub highest_page : ℕ
  pub total : ℕ
  pub used : ℕ
  pub search_hint : ℕ
  pub mem : ℕ → ℕ

abbrev pub is_usable : MemmapEntry → Bool
is_usable e = e.kind == memmap_usable

-- Pass 1 of `pmm_init`: the highest address, and the usable pages.
unfoldable pub highest_addr : ℕ → List MemmapEntry → ℕ
highest_addr top [] = top
highest_addr top (e ∷ es) =
    highest_addr (if ltb top (add64 e.base e.length) then add64 e.base e.length else top) es

unfoldable pub total_pages : ℕ → List MemmapEntry → ℕ
total_pages n [] = n
total_pages n (e ∷ es) = total_pages (if is_usable e then add64 n (e.length / page_size) else n) es

-- Pass 2: where the bitmap goes; 0 if no region is big enough.
unfoldable pub bitmap_region : ℕ → List MemmapEntry → ℕ
bitmap_region bytes [] = 0
bitmap_region bytes (e ∷ es) =
    if is_usable e && leb bytes e.length then e.base else bitmap_region bytes es

-- The loop of pass 3 over the pages of one region: `n` pages from `page` on.
unfoldable pub release_run : ℕ → ℕ → Pmm → Pmm
release_run zero page s = s
release_run (suc n) page s =
    release_run n (page + 1) (record s { bitmap = bmp_clear s.bitmap page; used = sub64 s.used 1 })

-- Pass 3 on one entry of the map, and on all.
abbrev pub release_entry : Pmm → MemmapEntry → Pmm
release_entry s e =
    if is_usable e then release_run (e.length / page_size) (e.base / page_size) s else s

unfoldable pub release_usable : List MemmapEntry → Pmm → Pmm
release_usable [] s = s
release_usable (e ∷ es) s = release_usable es (release_entry s e)

-- `if (!bmp_test(page)) { bmp_set(page); pmm_used++; }`
abbrev pub reserve_page : Pmm → ℕ → Pmm
reserve_page s page =
    if bmp_test s.bitmap page
    then s
    else record s { bitmap = bmp_set s.bitmap page; used = add64 s.used 1 }

-- Pass 4, and the loops of `heap_init` and `heap_grow` over the pages that they take.
unfoldable pub reserve_run : ℕ → ℕ → Pmm → Pmm
reserve_run zero page s = s
reserve_run (suc n) page s = reserve_run n (page + 1) (reserve_page s page)

-- What passes 1 and 2 leave, with every page marked used.
abbrev pub all_used : List MemmapEntry → (ℕ → ℕ) → Pmm
all_used es mem =
    let highest = highest_addr 0 es / page_size in
    let bytes = (highest + 7) / 8 in
    record {
      bitmap = replicate bytes 0xff;
      bitmap_phys = bitmap_region bytes es;
      bitmap_bytes = bytes;
      highest_page = highest;
      total = total_pages 0 es;
      used = highest;
      search_hint = 0;
      mem = mem;
    }

-- `pmm_init`, once Limine has answered; `none` is `false`.
unfoldable pub pmm_init : List MemmapEntry → (ℕ → ℕ) → Option Pmm
pmm_init es mem =
    let s = all_used es mem in
    if s.bitmap_phys == 0
    then none
    else some (
        reserve_run ((s.bitmap_bytes + page_size - 1) / page_size) (s.bitmap_phys / page_size)
          (release_usable es s))

-- The search of `pmm_alloc_page`: the first free page among the `n` from `i` on.
unfoldable pub first_free : List ℕ → ℕ → ℕ → Option ℕ
first_free bm zero i = none
first_free bm (suc n) i = if bmp_test bm i then first_free bm n (i + 1) else some i

-- The bytes of page `page` are zeroed.
abbrev pub zero_page : (ℕ → ℕ) → ℕ → ℕ → ℕ
zero_page mem page a = if a / page_size == page then 0 else mem a

-- The body of both loops at the page that they find.
abbrev pub claim : Pmm → ℕ → Pmm × ℕ
claim s i = (
  record s {
    bitmap = bmp_set s.bitmap i;
    used = add64 s.used 1;
    search_hint = i + 1;
    mem = zero_page s.mem i;
  },
  mul64 i page_size,
)

unfoldable pub pmm_alloc_page : Pmm → Pmm × ℕ
pmm_alloc_page s = elim (first_free s.bitmap (s.highest_page - s.search_hint) s.search_hint) [
  | some i ↦ claim s i
  | none ↦ elim (first_free s.bitmap s.search_hint 0) [ some i ↦ claim s i | none ↦ (s, 0) ]
]

pub pmm_free_page : Pmm → ℕ → Pmm
pmm_free_page s phys =
    let page = phys / page_size in
    if leb s.highest_page page
    then s
    else if bmp_test s.bitmap page
    then record s {
      bitmap = bmp_clear s.bitmap page;
      used = sub64 s.used 1;
      search_hint = if ltb page s.search_hint then page else s.search_hint;
    }
    else s

-- `pmm_free_pages`
pub pmm_free_pages : Pmm → ℕ
pmm_free_pages s = if ltb s.used s.total then sub64 s.total s.used else 0

pub pmm_total_bytes : Pmm → ℕ
pmm_total_bytes s = mul64 s.total page_size
