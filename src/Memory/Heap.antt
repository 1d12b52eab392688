-- ===== src/Memory/Heap.antt =====
-- kernel/memory.cpp: the kernel heap, a linear list of blocks with split and coalesce.
--
-- A block is its header with the address at which it lies; the list is the chain of `next` pointers
-- from `heap_head`. A pointer that `kfree` gets is looked up in the list: for a pointer to no header of
-- the list, the bytes in front of it are the parameter `memory`, as a merged block's old header.
-- The bitmap and the counters of the page allocator are part of the state, since growing reserves
-- pages. `kcalloc` is its call of `kmalloc`; the bytes that it zeroes are the caller's.
pub mod Invariant
pub mod Placing
pub mod Growing
pub mod Releasing
pub mod Allocating
pub mod Overflow
pub mod Reaching
mod Tests
use quillos.Prelude.{
  ℕ, zero, suc, ◌+◌, ◌-◌, ◌*◌, ◌/◌, ◌%◌, ◌^◌, ◌≤◌, ◌<◌, ◌≡◌, Bool, true, false, not, ◌&&◌, ◌||◌,
  Option, none, some, List, [], ◌∷◌, ltb, leb, ◌==◌, if◌then◌else◌, add64, sub64, mul64, u64_mod,
}
use quillos.Memory.Pmm.{Pmm, MemmapEntry, is_usable, page_size, reserve_run}

pub record Block : Type 0 where
  pub addr : ℕ
  pub magic : ℕ
  pub free : Bool
  pub size : ℕ

pub record Heap : Type 0 where
  pub pmm : Pmm
  pub blocks : List Block
  pub region_start : ℕ
  pub committed : ℕ
  pub max_bytes : ℕ
  pub phys_base : ℕ
  pub alloc_count : ℕ
  pub alloc_bytes : ℕ

abbrev pub heap_initial_pages : ℕ
heap_initial_pages = 16

abbrev pub heap_max_pages : ℕ
heap_max_pages = 1024

abbrev pub heap_grow_pages : ℕ
heap_grow_pages = 16

abbrev pub block_magic : ℕ
block_magic = 0xcafeb00c

abbrev pub min_split : ℕ
min_split = 32

-- `sizeof(Block)`
abbrev pub header : ℕ
header = 24

-- `(n + 15) & ~15ULL`
abbrev pub align16 : ℕ → ℕ
align16 n = add64 n 15 - add64 n 15 % 16

-- `(n + PAGE_SIZE - 1) & ~(PAGE_SIZE - 1)`
abbrev pub align_page : ℕ → ℕ
align_page n = add64 n 4095 - add64 n 4095 % page_size

abbrev pub is_intact : Block → Bool
is_intact b = b.magic == block_magic

-- The first byte after the block.
abbrev pub block_end : Block → ℕ
block_end b = add64 (add64 b.addr header) b.size

-- The block of `kmalloc` at the place that it takes, split if the rest is worth a block.
pub take_block : Block → ℕ → List Block → List Block
take_block b size bs =
    if leb (add64 (add64 size header) min_split) b.size
    then record b { free = false; size = size }
      ∷ record {
        addr = add64 (add64 b.addr header) size;
        magic = block_magic;
        free = true;
        size = sub64 (sub64 b.size size) header;
      }
      ∷ bs
    else record b { free = false } ∷ bs

-- The size that the taken block has.
abbrev pub granted : Block → ℕ → ℕ
granted b size = if leb (add64 (add64 size header) min_split) b.size then size else b.size

-- What the first-fit search ends with: the address and the size of the block that it took, and the
-- new list.
pub data Placed : Type 0 where
  corrupt missing : Placed
  placed : ℕ → ℕ → List Block → Placed

abbrev pub keep : Block → Placed → Placed
keep b corrupt = corrupt
keep b missing = missing
keep b (placed a n bs) = placed a n (b ∷ bs)

pub place : ℕ → List Block → Placed
place size [] = missing
place size (b ∷ bs) =
    if not (is_intact b)
    then corrupt
    else if b.free && leb size b.size
    then placed b.addr (granted b size) (take_block b size bs)
    else keep b (place size bs)

-- `new_block` is linked to the end and merged with the last block if that is free and adjacent. (The
-- list is never empty when `heap_grow` comes here.)
pub append_block : Block → List Block → List Block
append_block n [] = n ∷ []
append_block n (b ∷ []) =
    if b.free && (block_end b == n.addr)
    then record b { size = add64 b.size (add64 header n.size) } ∷ []
    else b ∷ n ∷ []
append_block n (b ∷ c ∷ bs) = b ∷ append_block n (c ∷ bs)

-- The bytes that `heap_grow` asks for, before the region's limit.
abbrev pub grow_request : ℕ → ℕ
grow_request min_bytes =
    if ltb (heap_grow_pages * page_size) (add64 min_bytes header)
    then align_page (add64 min_bytes header)
    else heap_grow_pages * page_size

abbrev pub grow_bytes : Heap → ℕ → ℕ
grow_bytes h min_bytes =
    if ltb h.max_bytes (add64 h.committed (grow_request min_bytes))
    then sub64 h.max_bytes h.committed
    else grow_request min_bytes

pub heap_grow : Heap → ℕ → Heap × Bool
heap_grow h min_bytes =
    let grow = grow_bytes h min_bytes in
    if ltb grow (header + min_split) then (h, false) else (
      record h {
        pmm = reserve_run (grow / page_size) (add64 h.phys_base h.committed / page_size) h.pmm;
        blocks =
            append_block
              (record {
                addr = add64 h.region_start h.committed;
                magic = block_magic;
                free = true;
                size = sub64 grow header;
              })
              h.blocks;
        committed = add64 h.committed grow;
      },
      true,
    )

-- The state and the pointer; 0 is null. `none` means that the fuel for the retries ran out.
pub kmalloc : ℕ → Heap → ℕ → Option (Heap × ℕ)
kmalloc zero h size = none
kmalloc (suc fuel) h size =
    if size == 0
    then some (h, 0)
    else let n = align16 size in
      let (grown, ok) = heap_grow h n in
      let again = kmalloc fuel grown n in
      elim (place n h.blocks) [
        | corrupt ↦ some (h, 0)
        | placed a got bs ↦ some (
          record h {
            blocks = bs;
            alloc_count = add64 h.alloc_count 1;
            alloc_bytes = add64 h.alloc_bytes got;
          },
          add64 a header,
        )
        | missing ↦ if ok then again else some (grown, 0)
      ]

pub kcalloc : ℕ → Heap → ℕ → ℕ → Option (Heap × ℕ)
unfolding kmalloc
kcalloc fuel h count elem_size = kmalloc fuel h (mul64 count elem_size)

-- Merge `b` with the next block if that is free.
pub absorb : Block → List Block → List Block
absorb b [] = b ∷ []
absorb b (c ∷ cs) =
    if is_intact c && c.free
    then record b { size = add64 b.size (add64 header c.size) } ∷ cs
    else b ∷ c ∷ cs

-- Merge the block at `a` into `b`, which lies before it in the list, if `b` is free and adjacent.
pub join_at : ℕ → Block → List Block → List Block
join_at a b [] = b ∷ []
join_at a b (c ∷ cs) =
    if (c.addr == a) && is_intact b && b.free && (block_end b == c.addr)
    then record b { size = add64 b.size (add64 header c.size) } ∷ cs
    else b ∷ c ∷ cs

-- The block at `a` is set free and merged with its neighbours.
pub release : ℕ → List Block → List Block
unfolding absorb join_at
release a [] = []
release a (b ∷ bs) =
    if b.addr == a then absorb (record b { free = true }) bs else join_at a b (release a bs)

pub find_block : ℕ → List Block → Option Block
find_block a [] = none
find_block a (b ∷ bs) = if b.addr == a then some b else find_block a bs

-- The `Block` that the header is read as, in the list or in the memory; `none` is a pointer to
-- memory that reads as a block in use but is no header of the list, where the list gets lost.
pub kfree : (ℕ → Block) → Heap → ℕ → Option Heap
unfolding find_block release
kfree memory h ptr =
    let a = sub64 ptr header in
    if ptr == 0 then some h else elim (find_block a h.blocks) [
      | none ↦ if not (is_intact (memory a)) || (memory a).free then some h else none
      | some b ↦
          if not (is_intact b) || b.free
          then some h
          else some (record h {
            blocks = release a h.blocks;
            alloc_count = sub64 h.alloc_count 1;
            alloc_bytes = sub64 h.alloc_bytes b.size;
          })
    ]

-- `heap_free_bytes`, `heap_block_count` and `heap_largest_free` walk the list.
pub heap_free_bytes : ℕ → List Block → ℕ
heap_free_bytes n [] = n
heap_free_bytes n (b ∷ bs) = heap_free_bytes (if b.free then add64 n b.size else n) bs

pub heap_block_count : ℕ → List Block → ℕ
heap_block_count n [] = n
heap_block_count n (b ∷ bs) = heap_block_count (add64 n 1) bs

pub heap_largest_free : ℕ → List Block → ℕ
heap_largest_free n [] = n
heap_largest_free n (b ∷ bs) = heap_largest_free (if b.free && ltb n b.size then b.size else n) bs

-- `heap_init`: the largest usable region, as the base and the length; and the heap in it.
unfoldable pub largest_region : ℕ × ℕ → List MemmapEntry → ℕ × ℕ
largest_region best [] = best
largest_region best (e ∷ es) =
    largest_region (if is_usable e && ltb best.1 e.length then (e.base, e.length) else best) es

-- The physical address behind the bitmap, if the bitmap lies at the start of the region.
abbrev pub skip_bitmap : Pmm → ℕ → ℕ
skip_bitmap s base =
    let bitmap_end = add64 s.bitmap_phys s.bitmap_bytes in
    if leb s.bitmap_phys base && ltb base bitmap_end then align_page bitmap_end else base

abbrev pub cap_max : ℕ → ℕ
cap_max remaining =
    if ltb (heap_max_pages * page_size) remaining then heap_max_pages * page_size else remaining

-- The one free block over the initial pages, in the largest region; `hhdm` is the offset of the
-- direct map.
abbrev pub fresh_heap : ℕ → List MemmapEntry → Pmm → Heap
fresh_heap hhdm es s =
    let (base, len) = largest_region (0, 0) es in
    let heap_phys = skip_bitmap s base in
    let start = add64 hhdm heap_phys in
    let initial = heap_initial_pages * page_size in
    record {
      pmm = reserve_run heap_initial_pages (heap_phys / page_size) s;
      blocks =
          record { addr = start; magic = block_magic; free = true; size = initial - header } ∷ [];
      region_start = start;
      committed = initial;
      max_bytes = cap_max (sub64 (add64 base len) heap_phys);
      phys_base = heap_phys;
      alloc_count = 0;
      alloc_bytes = 0;
    }

-- `none` is `false`.
unfoldable pub heap_init : ℕ → List MemmapEntry → Pmm → Option Heap
unfolding largest_region
heap_init hhdm es s =
    if ltb (largest_region (0, 0) es).1 (heap_initial_pages * page_size)
    then none
    else some (fresh_heap hhdm es s)
