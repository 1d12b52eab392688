-- ===== src/Memory/Tests.antt =====
-- The page allocator's and the heap's theorems at concrete states, and runs of their operations.
use quillos.Prelude.{
  ℕ, ◌-◌, ◌/◌, ◌<◌, ◌≡◌, refl, true, false, not, ◌||◌, some, List, [], ◌∷◌, arith,
}
use quillos.Memory.Bitmap.{bmp_test, bmp_set, bmp_clear}
use quillos.Memory.Pmm.{
  Pmm, MemmapEntry, page_size, highest_addr, bitmap_region, release_run, release_usable,
  reserve_run, all_used, pmm_init, first_free, pmm_alloc_page,
}
use quillos.Memory.Pmm.Allocation.{IsValid, is_used, Allocates, pmm_alloc_page_lem}
use quillos.Memory.Pmm.Boot.{IsMemmap, in_bitmap, covered, pmm_init_lem}
use quillos.Memory.Heap.{Block, Heap, block_magic, kmalloc}
use quillos.Memory.Heap.Invariant
use quillos.Memory.Heap.Allocating.{Gives, kmalloc_lem}
use quillos.Memory.Heap.Releasing.{Frees, kfree_lem}

-- Four usable pages behind page 0, and three reserved ones.
abbrev memmap : List MemmapEntry
memmap =
    record { base = 0x1000; length = 0x4000; kind = 0 }
    ∷ record { base = 0x5000; length = 0x3000; kind = 1 }
    ∷ []

abbrev blank_mem : ℕ → ℕ
blank_mem a = 0

memmap-IsMemmap : IsMemmap memmap
memmap-IsMemmap = (
  omega arith,
  λ u. (refl, refl),
  λ p c. refl,
  (omega arith, λ u. absurd (cc u), λ p c. refl, tt),
)

abbrev booted : Pmm
booted = reserve_run 1 1 (release_usable memmap (all_used memmap blank_mem))

booted-eq : pmm_init memmap blank_mem ≡ some booted
unfolding pmm_init highest_addr bitmap_region
booted-eq = refl

pmm_init_lem_example :
    IsValid booted
    × (booted.highest_page ≡ highest_addr 0 memmap / page_size)
    × ((q : ℕ)
        → q < booted.highest_page
        → is_used booted q ≡ (in_bitmap memmap q || not (covered memmap q)))
pmm_init_lem_example = pmm_init_lem memmap blank_mem booted memmap-IsMemmap booted-eq

booted-IsValid : IsValid booted
booted-IsValid = (pmm_init_lem memmap blank_mem booted memmap-IsMemmap booted-eq).0

-- Page 1 holds the bitmap, so the first page to hand out is page 2.
first_allocation : (pmm_alloc_page booted).1 ≡ 0x2000
unfolding pmm_alloc_page first_free bmp_test bmp_set bmp_clear reserve_run release_usable
    release_run highest_addr bitmap_region
first_allocation = refl

pmm_alloc_page_lem_example : Allocates booted (pmm_alloc_page booted)
pmm_alloc_page_lem_example = pmm_alloc_page_lem booted booted-IsValid

-- A heap of 64 KB in a region of 128 KB, with one allocation in use.
abbrev region : Heap
region = record {
  pmm = booted;
  blocks =
      record { addr = 0xffff800000010000; magic = block_magic; free = false; size = 64 }
      ∷ record {
        addr = 0xffff800000010058;
        magic = block_magic;
        free = true;
        size = 0x10000 - 64 - 48;
      }
      ∷ [];
  region_start = 0xffff800000010000;
  committed = 0x10000;
  max_bytes = 0x20000;
  phys_base = 0x10000;
  alloc_count = 1;
  alloc_bytes = 64;
}

region-IsValid : Invariant.IsValid region
region-IsValid = record {
  tiled = (refl, refl, (refl, refl, refl));
  merged = (refl, (refl, tt));
  counted = refl;
  weighed = refl;
  within = omega arith;
  limited = omega arith;
  addressed = omega arith;
  begun = omega arith;
}

kmalloc_lem_example :
    (h' : Heap) × (p : ℕ) × (kmalloc 0x20000 region 0x10001 ≡ some (h', p))
    × Gives region 0x10001 h' p
kmalloc_lem_example = kmalloc_lem 0x20000 region 0x10001 region-IsValid (omega arith) (omega arith)

abbrev no_headers : ℕ → Block
no_headers a = record { addr = 0; magic = 0; free = false; size = 0 }

kfree_lem_example : Frees no_headers region 0xffff800000010018
kfree_lem_example = kfree_lem no_headers region 0xffff800000010018 region-IsValid (omega arith)
