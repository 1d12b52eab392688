-- ===== src/Memory/Heap/Allocating.antt =====
-- kernel/memory.cpp, `kmalloc`: it always answers, and what its answer means.
use quillos.Prelude.{
  ℕ, zero, suc, ◌+◌, ◌-◌, ◌≤◌, ◌<◌, ◌^◌, ◌≡◌, refl, ◌∙◌, ◌⊎◌, inl, inr, true, false, some, List,
  arith, ◌==◌, Bool-cases, add64,
}
use quillos.Memory.Heap.{
  Block, Heap, header, align16, Placed, corrupt, missing, placed, place, heap_grow, kmalloc,
}
use quillos.Memory.Heap.Invariant.{
  live, Inserts, length-Inserts, sizes-Inserts, IsValid, sizes-Tiles,
}
use quillos.Memory.Heap.Placing.{PlacedWell, place_lem}
use quillos.Memory.Heap.Growing.{heap_grow_lem}

-- The heap `h'` is `h` with at most one more allocation, of at least `size` bytes behind `p`.
abbrev pub Gives : Heap → ℕ → Heap → ℕ → Type 0
Gives h size h' p =
    IsValid h'
    × (((p ≡ 0) × (live h'.blocks ≡ live h.blocks))
        ⊎ ((a : ℕ) × (g : ℕ) × (p ≡ a + header)
            × (size ≤ g)
            × (h'.region_start ≤ a)
            × (p + g ≤ h'.region_start + h'.committed)
            × Inserts (a, g) (live h.blocks) (live h'.blocks)))

-- The state after the search has taken a block.
abbrev pub taken : Heap → ℕ → List Block → Heap
taken h g bs = record h {
  blocks = bs;
  alloc_count = add64 h.alloc_count 1;
  alloc_bytes = add64 h.alloc_bytes g;
}

taken-Gives :
    (h : Heap) (size n a g : ℕ) (bs : List Block)
    → IsValid h
    → size ≤ n
    → PlacedWell h.region_start h.blocks (h.region_start + h.committed) n (placed a g bs)
    → Gives h size (taken h g bs) (add64 a header)
taken-Gives h size n a g bs v le (tiles, merged, big, low, high, ins, front) =
    let more = length-Inserts ins in
    let heavier = sizes-Inserts ins in
    let fits = sizes-Tiles h.region_start (h.region_start + h.committed) bs tiles in
    (
      record {
        tiled = tiles;
        merged = merged;
        counted = omega (arith, v.counted, v.within, v.limited, v.addressed);
        weighed = omega (arith, v.weighed, v.within, v.limited, v.addressed);
        within = v.within;
        limited = v.limited;
        addressed = v.addressed;
        begun = v.begun;
      },
      inr (
        a,
        g,
        omega (arith, v.within, v.addressed),
        omega arith,
        low,
        omega (arith, v.within, v.addressed),
        ins,
      ),
    )

module _ (fuel : ℕ) (h : Heap) (size : ℕ) (nz : (size == 0) ≡ false) where
  pub kmalloc-placed :
      (a g : ℕ) (bs : List Block)
      → place (align16 size) h.blocks ≡ placed a g bs
      → kmalloc (suc fuel) h size ≡ some (taken h g bs, add64 a header)
  unfolding kmalloc
  kmalloc-placed a g bs e = rw (nz, e) refl

  kmalloc-retry :
      place (align16 size) h.blocks ≡ missing
      → (heap_grow h (align16 size)).1 ≡ true
      → kmalloc (suc fuel) h size ≡ kmalloc fuel (heap_grow h (align16 size)).0 (align16 size)
  unfolding kmalloc
  kmalloc-retry e ok = rw (nz, e, ok) refl

  kmalloc-null :
      place (align16 size) h.blocks ≡ missing
      → (heap_grow h (align16 size)).1 ≡ false
      → kmalloc (suc fuel) h size ≡ some ((heap_grow h (align16 size)).0, 0)
  unfolding kmalloc
  kmalloc-null e ok = rw (nz, e, ok) refl

-- `kmalloc` answers, and gives what it should.
abbrev pub Answers : ℕ → Heap → ℕ → Type 0
Answers fuel h size =
    (h' : Heap) × (p : ℕ) × (kmalloc fuel h size ≡ some (h', p)) × Gives h size h' p

kmalloc_zero : (fuel : ℕ) (h : Heap) → IsValid h → Answers (suc fuel) h 0
unfolding kmalloc
kmalloc_zero fuel h v = (h, 0, refl, (v, inl (refl, refl)))

-- An answer from the grown heap, for a size that was rounded up, is one from the heap before.
Gives-weaken :
    (h g h' : Heap) (size n p : ℕ)
    → live g.blocks ≡ live h.blocks
    → size ≤ n
    → Gives g n h' p
    → Gives h size h' p
Gives-weaken h g h' size n p same le (v, inl (z, l)) = (v, inl (z, l ∙ same))
Gives-weaken h g h' size n p same le (v, inr (a, got, at, big, low, high, ins)) =
    (v, inr (a, got, at, omega arith, low, high, rw same at ins))

answer_by :
    (fuel : ℕ) (h : Heap) (size : ℕ) (r : Placed)
    → IsValid h
    → 0 < h.committed
    → size ≤ 2 ^ 62
    → (size == 0) ≡ false
    → (((heap_grow h (align16 size)).1 ≡ true)
        → Answers fuel (heap_grow h (align16 size)).0 (align16 size))
    → place (align16 size) h.blocks ≡ r
    → PlacedWell h.region_start h.blocks (h.region_start + h.committed) (align16 size) r
    → Answers (suc fuel) h size
answer_by fuel h size corrupt v pos modest nz retry e w = absurd w
answer_by fuel h size (placed a g bs) v pos modest nz retry e w = (
  taken h g bs,
  add64 a header,
  kmalloc-placed fuel h size nz a g bs e,
  taken-Gives h size (align16 size) a g bs v (omega arith) w,
)
answer_by fuel h size missing v pos modest nz retry e w =
    let grown = heap_grow_lem h (align16 size) v pos (omega arith) in
    let g = (heap_grow h (align16 size)).0 in
    elim grown.3 [
      | inl (ok, more) ↦
          let (h', p, eq, gives) = retry ok in
          (
            h',
            p,
            kmalloc-retry fuel h size nz e ok ∙ eq,
            Gives-weaken h g h' size (align16 size) p grown.1 (omega arith) gives,
          )
      | inr (bad, same) ↦ (g, 0, kmalloc-null fuel h size nz e bad, (grown.0, inl (refl, grown.1)))
    ]

-- In a well-formed heap, with fuel above the bytes that the region has left, `kmalloc` of at most 2^62
-- bytes returns. It returns null and leaves the allocations alone, or it returns the address behind
-- the header of one new allocation that is at least as large as asked and lies inside the region; all
-- others stay. The heap stays well formed.
pub kmalloc_lem :
    (fuel : ℕ) (h : Heap) (size : ℕ)
    → IsValid h
    → size ≤ 2 ^ 62
    → h.max_bytes - h.committed < fuel
    → (h' : Heap) × (p : ℕ) × (kmalloc fuel h size ≡ some (h', p)) × Gives h size h' p
kmalloc_lem zero h size v modest enough = absurd (omega arith)
kmalloc_lem (suc fuel) h size v modest enough = elim (Bool-cases (size == 0)) [
  | inl z ↦ let z' : size ≡ 0 = ground arith in rw z' (kmalloc_zero fuel h v)
  | inr nz ↦
      let n = align16 size in
      let grown = heap_grow_lem h n v v.begun (omega arith) in
      let retry : (heap_grow h n).1 ≡ true → Answers fuel (heap_grow h n).0 n = λ ok.
        let further : h.committed + 56 ≤ (heap_grow h n).0.committed = elim grown.3 [
          | inl (x, more) ↦ omega arith
          | inr (x, same) ↦ absurd (ground arith)
        ] in
        kmalloc_lem fuel (heap_grow h n).0 n grown.0 (omega arith)
          (omega (arith, grown.2, grown.0.within)) in
      answer_by fuel h size (place n h.blocks) v v.begun modest nz retry refl (
        place_lem n h.region_start (h.region_start + h.committed) h.blocks v.tiled v.merged
          (omega (arith, v.within, v.addressed)) (omega (arith, v.within, v.limited)))
]
