-- ===== src/Memory/Heap/Reaching.antt =====
-- kernel/memory.cpp: the heaps that `heap_init`, `kmalloc` and `kfree` lead to.
use mathlib.Core.Path.{subst}
use quillos.Prelude.{
  ℕ, ◌+◌, ◌-◌, ◌≤◌, ◌<◌, ◌^◌, ◌≡◌, refl, sym, ap, ◌∙◌, inl, inr, true, List, arith, ◌==◌, some,
  Bool-cases, some_eq,
}
use quillos.Memory.Pmm.{Pmm, MemmapEntry}
use quillos.Memory.Heap.{Block, Heap, kmalloc, kfree, heap_init}
use quillos.Memory.Heap.Invariant.{live, IsValid, Spread, live-Spread}
use quillos.Memory.Heap.Allocating.{kmalloc_lem}
use quillos.Memory.Heap.Releasing.{kfree_lem}
use quillos.Memory.Heap.Overflow.{heap_init-IsValid}

-- The heaps that lead from `heap_init`, in a region that holds the initial pages, over calls that
-- return: any `kfree`, and each `kmalloc` of at most 2^62 bytes.
pub data Reached : Heap → Type 0 where
  boots :
      (hhdm : ℕ) (es : List MemmapEntry) (s : Pmm) (h : Heap)
      → heap_init hhdm es s ≡ some h
      → h.committed ≤ h.max_bytes
      → h.region_start + h.max_bytes < 2 ^ 64
      → Reached h
  allocates :
      {h : Heap} (fuel size : ℕ) (r : Heap × ℕ)
      → Reached h
      → size ≤ 2 ^ 62
      → h.max_bytes - h.committed < fuel
      → kmalloc fuel h size ≡ some r
      → Reached r.0
  frees :
      {h : Heap} (memory : ℕ → Block) (ptr : ℕ) (h' : Heap)
      → Reached h
      → kfree memory h ptr ≡ some h'
      → Reached h'

kfree_null :
    (memory : ℕ → Block) (h : Heap) (ptr : ℕ) → (ptr == 0) ≡ true → kfree memory h ptr ≡ some h
unfolding kfree
kfree_null memory h ptr z = rw z refl

kfree-IsValid :
    (memory : ℕ → Block) (h h' : Heap) (ptr : ℕ)
    → IsValid h
    → kfree memory h ptr ≡ some h'
    → IsValid h'
kfree-IsValid memory h h' ptr v e = elim (Bool-cases (ptr == 0)) [
  | inl z ↦ subst IsValid (some_eq (sym (kfree_null memory h ptr z) ∙ e)) v
  | inr nz ↦ elim (kfree_lem memory h ptr v (λ z. ground (arith, z, nz))) [
    | inl (absent, r) ↦ let same : h ≡ h' = ground (arith, e, r) in subst IsValid same v
    | inr (c, found, inl (free, r)) ↦ subst IsValid (some_eq (sym r ∙ e)) v
    | inr (c, found, inr (used, (g, r, valid, ins, again))) ↦
        subst IsValid (some_eq (sym r ∙ e)) valid
  ]
]

Reached-IsValid : {h : Heap} → Reached h → IsValid h
Reached-IsValid (boots hhdm es s h e within addressed) =
    (heap_init-IsValid hhdm es s h e within addressed).0
Reached-IsValid (allocates {h = h} fuel size r reached modest enough e) =
    let (g, p, e', gives) = kmalloc_lem fuel h size (Reached-IsValid reached) modest enough in
    let same : g ≡ r.0 = ap (λ (x : Heap × ℕ). x.0) (some_eq (sym e' ∙ e)) in
    subst IsValid same gives.0
Reached-IsValid (frees {h = h} memory ptr h' reached e) =
    kfree-IsValid memory h h' ptr (Reached-IsValid reached) e

-- In every heap that calls which return lead to from `heap_init`, in a region that holds the initial
-- pages and with requests of at most 2^62 bytes, the allocations, headers included, lie in the
-- committed region one behind the other: no two of them share a byte.
pub live_apart :
    {h : Heap} → Reached h → Spread h.region_start (live h.blocks) (h.region_start + h.committed)
live_apart {h} reached =
    live-Spread h.region_start (h.region_start + h.committed) h.blocks
      (Reached-IsValid reached).tiled
