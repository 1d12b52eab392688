-- ===== src/Memory/Heap/Tests.antt =====
-- A run of the heap from `heap_init` on, in the upper half of the address space.
use quillos.Prelude.{◌-◌, ◌≡◌, refl, true, false, some, List, [], ◌∷◌, arith, replicate}
use quillos.Memory.Pmm.{Pmm, MemmapEntry}
use quillos.Memory.Heap.{
  Heap, block_magic, place, take_block, kmalloc, largest_region, fresh_heap, heap_init,
}
use quillos.Memory.Heap.Invariant.{Spread}
use quillos.Memory.Heap.Reaching.{Reached, boots, allocates, live_apart}

abbrev pages : Pmm
pages = record {
  bitmap = replicate 64 0;
  bitmap_phys = 0;
  bitmap_bytes = 64;
  highest_page = 512;
  total = 512;
  used = 0;
  search_hint = 0;
  mem = λ a. 0;
}

abbrev big_region : List MemmapEntry
big_region = record { base = 0x100000; length = 0x40000; kind = 0 } ∷ []

abbrev fresh : Heap
fresh = fresh_heap 0xffff800000000000 big_region pages

fresh_run : heap_init 0xffff800000000000 big_region pages ≡ some fresh
unfolding heap_init largest_region
fresh_run = refl

abbrev with_one : Heap
with_one = record fresh {
  blocks =
      record { addr = 0xffff800000100000; magic = block_magic; free = false; size = 112 }
      ∷ record {
        addr = 0xffff800000100088;
        magic = block_magic;
        free = true;
        size = 0x10000 - 112 - 48;
      }
      ∷ [];
  alloc_count = 1;
  alloc_bytes = 112;
}

one_run : kmalloc 0x40000 fresh 100 ≡ some (with_one, 0xffff800000100018)
unfolding kmalloc place take_block largest_region
one_run = refl

reached : Reached with_one
unfolding largest_region
reached =
    allocates 0x40000 100 (with_one, 0xffff800000100018)
      (boots 0xffff800000000000 big_region pages fresh fresh_run (omega arith) (omega arith))
      (omega arith) (omega arith) one_run

live_apart_example : Spread 0xffff800000100000 ((0xffff800000100000, 112) ∷ []) 0xffff800000110000
unfolding largest_region
live_apart_example = live_apart reached
