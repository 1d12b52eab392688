-- ===== src/Memory/Heap/Invariant.antt =====
-- kernel/memory.cpp: the well-formed heaps, and the allocations that a heap holds.
use quillos.Prelude.{
  ℕ, ◌+◌, ◌≤◌, ◌<◌, ◌^◌, ◌≡◌, Bool, false, ◌&&◌, List, [], ◌∷◌, arith, ap, ◌*◌, length,
  if◌then◌else◌,
}
use quillos.Memory.Heap.{Block, Heap, block_magic, header, heap_max_pages}
use quillos.Memory.Pmm.{page_size}

-- The blocks lie one behind the other from address `a` to address `e`, each with its magic number.
abbrev pub Tiles : ℕ → List Block → ℕ → Type 0
Tiles a [] e = a ≡ e
Tiles a (b ∷ bs) e = (b.addr ≡ a) × (b.magic ≡ block_magic) × Tiles (a + header + b.size) bs e

abbrev pub head_free : List Block → Bool
head_free [] = false
head_free (b ∷ bs) = b.free

-- No two neighbours are free.
abbrev pub Merged : List Block → Type 0
Merged [] = Unit {0}
Merged (b ∷ bs) = ((b.free && head_free bs) ≡ false) × Merged bs

-- The allocations that are in use, as the address of the header and the size, in address order.
abbrev pub live : List Block → List (ℕ × ℕ)
live [] = []
live (b ∷ bs) = if b.free then live bs else (b.addr, b.size) ∷ live bs

abbrev pub sizes : List (ℕ × ℕ) → ℕ
sizes [] = 0
sizes ((a, n) ∷ l) = n + sizes l

-- `ys` is `xs` with `x` put in somewhere.
pub data Inserts (x : ℕ × ℕ) : List (ℕ × ℕ) → List (ℕ × ℕ) → Type 0 where
  here : {xs : List (ℕ × ℕ)} → Inserts x xs (x ∷ xs)
  there : {y : ℕ × ℕ} {xs ys : List (ℕ × ℕ)} → Inserts x xs ys → Inserts x (y ∷ xs) (y ∷ ys)

pub length-Inserts :
    {x : ℕ × ℕ} {xs ys : List (ℕ × ℕ)} → Inserts x xs ys → length ys ≡ length xs + 1
length-Inserts here = omega arith
length-Inserts (there i) = omega (arith, length-Inserts i)

pub sizes-Inserts : {x : ℕ × ℕ} {xs ys : List (ℕ × ℕ)} → Inserts x xs ys → sizes ys ≡ sizes xs + x.1
sizes-Inserts here = omega arith
sizes-Inserts (there i) = omega (arith, sizes-Inserts i)

-- The blocks tile the committed region, no two neighbours are free, the two statistics are those of
-- the list, and the region is not empty, within its limit, and ends in the address space.
pub record IsValid (h : Heap) : Type 0 where
  pub tiled : Tiles h.region_start h.blocks (h.region_start + h.committed)
  pub merged : Merged h.blocks
  pub counted : h.alloc_count ≡ length (live h.blocks)
  pub weighed : h.alloc_bytes ≡ sizes (live h.blocks)
  pub within : h.committed ≤ h.max_bytes
  pub limited : h.max_bytes ≤ heap_max_pages * page_size
  pub addressed : h.region_start + h.max_bytes < 2 ^ 64
  pub begun : 0 < h.committed

pub Tiles-le : (a e : ℕ) (bs : List Block) → Tiles a bs e → a ≤ e
Tiles-le a e [] t = omega arith
Tiles-le a e (b ∷ bs) t = omega (arith, Tiles-le (a + header + b.size) e bs t.2)

-- The allocations lie inside the region, behind their headers, and do not overlap.
abbrev pub Spread : ℕ → List (ℕ × ℕ) → ℕ → Type 0
Spread a [] e = a ≤ e
Spread a ((p, n) ∷ l) e = (a ≤ p) × Spread (p + header + n) l e

Spread-mono : (a b e : ℕ) (l : List (ℕ × ℕ)) → a ≤ b → Spread b l e → Spread a l e
Spread-mono a b e [] h s = omega arith
Spread-mono a b e ((p, n) ∷ l) h s = (omega arith, s.1)

pub live-Spread : (a e : ℕ) (bs : List Block) → Tiles a bs e → Spread a (live bs) e
live-Spread a e [] t = omega arith
live-Spread a e (b ∷ bs) t =
    let rest = live-Spread (a + header + b.size) e bs t.2 in
    ground (
      arith,
      rest,
      Spread-mono a (a + header + b.size) e (live bs) (omega arith) rest,
      ap (λ p. Spread (p + header + b.size) (live bs) e) t.0,
    )

-- The sizes of the allocations and their headers fit the region.
pub sizes-Tiles :
    (a e : ℕ) (bs : List Block) → Tiles a bs e → a + sizes (live bs) + length (live bs) ≤ e
sizes-Tiles a e [] t = omega arith
sizes-Tiles a e (b ∷ bs) t = ground (arith, sizes-Tiles (a + header + b.size) e bs t.2)
