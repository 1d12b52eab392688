-- ===== src/Memory/Heap/Overflow.antt =====
-- kernel/memory.cpp: sizes at which the 64-bit arithmetic of the heap wraps, and the heap that
-- `heap_init` makes.
use quillos.Prelude.{
  ℕ, suc, ◌+◌, ◌-◌, ◌≤◌, ◌<◌, ◌^◌, ◌≡◌, refl, ap, ◌≢◌, inl, inr, Bool, true, false, ◌||◌, some,
  List, [], ◌∷◌, arith, ltb, ◌==◌, Bool-cases, add64, u64_mod,
}
use quillos.Memory.Pmm.{Pmm, MemmapEntry}
use quillos.Memory.Heap.{
  Block, Heap, header, align16, Placed, corrupt, missing, placed, place, kmalloc, grow_request,
  grow_bytes, fresh_heap, heap_init, largest_region,
}
use quillos.Memory.Heap.Invariant.{live, IsValid}
use quillos.Memory.Heap.Placing.{PlacedWell, NoFit, place_lem}
use quillos.Memory.Heap.Allocating.{kmalloc-placed, taken}

abbrev pub has_free : List Block → Bool
has_free [] = false
has_free (b ∷ bs) = b.free || has_free bs

NoFit-zero : (bs : List Block) → NoFit 0 bs → has_free bs ≡ false
NoFit-zero [] w = refl
NoFit-zero (b ∷ bs) w = elim (Bool-cases b.free) [
  | inl x ↦ absurd (omega (arith, w.0 x))
  | inr x ↦ rw x (NoFit-zero bs w.1)
]

huge_by :
    (fuel : ℕ) (h : Heap) (size : ℕ) (r : Placed)
    → IsValid h
    → (size == 0) ≡ false
    → align16 size ≡ 0
    → has_free h.blocks ≡ true
    → place (align16 size) h.blocks ≡ r
    → PlacedWell h.region_start h.blocks (h.region_start + h.committed) 0 r
    → (h' : Heap) × (p : ℕ) × (kmalloc (suc fuel) h size ≡ some (h', p)) × (p ≢ 0)
huge_by fuel h size corrupt v nz z f e w = absurd w
huge_by fuel h size missing v nz z f e w = absurd (ground (arith, NoFit-zero h.blocks w))
huge_by fuel h size (placed a g bs) v nz z f e w = (
  taken h g bs,
  add64 a header,
  kmalloc-placed fuel h size nz a g bs e,
  omega (arith, w.4, v.within, v.addressed),
)

-- A request for one of the 15 largest sizes is rounded up to 0: `kmalloc` then does not fail but
-- returns a block of any free size, although no region of the heap is that large.
pub kmalloc_huge :
    (fuel : ℕ) (h : Heap) (size : ℕ)
    → IsValid h
    → has_free h.blocks ≡ true
    → u64_mod - 16 < size
    → size < u64_mod
    → (h.max_bytes < size)
      × ((h' : Heap) × (p : ℕ) × (kmalloc (suc fuel) h size ≡ some (h', p)) × (p ≢ 0))
kmalloc_huge fuel h size v f big small =
    let z : align16 size ≡ 0 = omega arith in
    let nz : (size == 0) ≡ false = ground arith in
    let found =
      place_lem 0 h.region_start (h.region_start + h.committed) h.blocks v.tiled v.merged
        (omega (arith, v.within, v.addressed)) (omega (arith, v.within, v.limited)) in
    (
      omega (arith, v.limited),
      huge_by fuel h size (place 0 h.blocks) v nz z f (ap (λ n. place n h.blocks) z) found,
    )

-- `heap_grow` compares `heap_committed + grow` with the limit, and the sum wraps: a request that is
-- within `heap_committed` bytes of 2^64 passes the test, and the new block is larger than the whole
-- region.
pub grow_bytes_wraps :
    (h : Heap) (min_bytes : ℕ)
    → IsValid h
    → u64_mod ≤ h.committed + grow_request min_bytes
    → (grow_bytes h min_bytes ≡ grow_request min_bytes) × (h.max_bytes < grow_bytes h min_bytes)
grow_bytes_wraps h min_bytes v over =
    let below : grow_request min_bytes < u64_mod = ground arith in
    let passes : ltb h.max_bytes (add64 h.committed (grow_request min_bytes)) ≡ false =
      ground (arith, v.within, v.limited) in
    let same : grow_bytes h min_bytes ≡ grow_request min_bytes = rw passes refl in
    (same, rw same (omega (arith, v.within, v.limited)))

fresh_heap-IsValid :
    (hhdm : ℕ) (es : List MemmapEntry) (s : Pmm)
    → let h = fresh_heap hhdm es s in
      h.committed ≤ h.max_bytes → h.region_start + h.max_bytes < 2 ^ 64 → IsValid h
fresh_heap-IsValid hhdm es s within addressed = record {
  tiled = (refl, refl, omega arith);
  merged = (refl, tt);
  counted = refl;
  weighed = refl;
  within = within;
  limited = ground arith;
  addressed = addressed;
  begun = omega arith;
}

-- The heap that `heap_init` makes holds no allocation and is well formed, if the part of its region
-- behind the bitmap holds the initial 64 KB, which `heap_init` does not check, and ends in the address
-- space.
pub heap_init-IsValid :
    (hhdm : ℕ) (es : List MemmapEntry) (s : Pmm) (h : Heap)
    → heap_init hhdm es s ≡ some h
    → h.committed ≤ h.max_bytes
    → h.region_start + h.max_bytes < 2 ^ 64
    → IsValid h × (live h.blocks ≡ [])
unfolding heap_init
heap_init-IsValid hhdm es s h e within addressed =
    elim (Bool-cases (ltb (largest_region (0, 0) es).1 65536)) [
      | inl small ↦ absurd (ground arith)
      | inr large ↦
          let same : fresh_heap hhdm es s ≡ h = ground (arith, e, large) in
          let v = fresh_heap-IsValid hhdm es s (rw (← same) at within) (rw (← same) at addressed) in
          rw (← same) (v, refl)
    ]
