-- ===== src/Memory/Heap/Placing.antt =====
-- kernel/memory.cpp, `kmalloc`: the first-fit search and the split.
use quillos.Prelude.{
  ℕ, ◌+◌, ◌≤◌, ◌<◌, ◌^◌, ◌≡◌, refl, inl, inr, true, false, not, ◌&&◌, List, [], ◌∷◌, arith, leb,
  Bool-cases, add64, sub64,
}
use quillos.Memory.Heap.{
  Block, header, min_split, is_intact, take_block, granted, Placed, corrupt, missing, placed, keep,
  place,
}
use quillos.Memory.Heap.Invariant.{Tiles, head_free, Merged, live, Inserts, here, there, Tiles-le}

-- Every free block is smaller than `n`.
abbrev pub NoFit : ℕ → List Block → Type 0
NoFit n [] = Unit {0}
NoFit n (b ∷ bs) = (b.free ≡ true → b.size < n) × NoFit n bs

-- What the search may end with on the blocks `bs` from `a` to `e`.
abbrev pub PlacedWell : ℕ → List Block → ℕ → ℕ → Placed → Type 0
PlacedWell a bs e n corrupt = ⊥
PlacedWell a bs e n missing = NoFit n bs
PlacedWell a bs e n (placed p g bs') =
    Tiles a bs' e
    × Merged bs'
    × (n ≤ g)
    × (a ≤ p)
    × (p + header + g ≤ e)
    × Inserts (p, g) (live bs) (live bs')
    × (head_free bs' ≡ true → head_free bs ≡ true)

take_block-PlacedWell :
    (a e n : ℕ) (b : Block) (bs : List Block)
    → Tiles a (b ∷ bs) e
    → Merged (b ∷ bs)
    → e < 2 ^ 64
    → e ≤ a + 2 ^ 62
    → b.free ≡ true
    → n ≤ b.size
    → PlacedWell a (b ∷ bs) e n (placed b.addr (granted b n) (take_block b n bs))
unfolding take_block
take_block-PlacedWell a e n b bs t m he span f fit =
    let top = Tiles-le (a + header + b.size) e bs t.2 in
    elim (Bool-cases (leb (add64 (add64 n header) min_split) b.size)) [
      | inl split ↦
          let room : n + header + min_split ≤ b.size = ground arith in
          let follows : add64 (add64 b.addr header) n ≡ a + header + n = omega (arith, t.0) in
          let meets : a + header + n + header + sub64 (sub64 b.size n) header
              ≡ a + header + b.size =
            omega arith in
          rw split (
            (t.0, t.1, (follows, refl, rw meets t.2)),
            (refl, (ground arith, m.1)),
            omega arith,
            omega (arith, t.0),
            omega (arith, t.0),
            rw f here,
            λ x. f,
          )
      | inr whole ↦
          rw whole (t, (refl, m.1), fit, omega (arith, t.0), omega (arith, t.0), rw f here, λ x. f)
    ]

-- A block that does not serve is kept in front of what the search does with the rest.
keep-PlacedWell :
    (n a e : ℕ) (b : Block) (bs : List Block) (r : Placed)
    → Tiles a (b ∷ bs) e
    → Merged (b ∷ bs)
    → (b.free && leb n b.size) ≡ false
    → PlacedWell (a + header + b.size) bs e n r
    → PlacedWell a (b ∷ bs) e n (keep b r)
keep-PlacedWell n a e b bs corrupt t m no_use w = w
keep-PlacedWell n a e b bs missing t m no_use w = (λ f. ground arith, w)
keep-PlacedWell n a e b bs (placed p g bs') t m no_use (tiles, merged, big, low, high, ins, front) =
    (
      (t.0, t.1, tiles),
      (
        elim (Bool-cases (head_free bs')) [
          | inl x ↦ ground (arith, front x)
          | inr x ↦ ground arith
        ],
        merged,
      ),
      big,
      omega arith,
      high,
      elim (Bool-cases b.free) [ inl x ↦ rw x ins | inr x ↦ rw x (there ins) ],
      λ x. x,
    )

-- The search never meets a bad magic number. It takes part of a free block that is large enough, or
-- the whole block, and leaves every other allocation as it was; it fails only if no free block is
-- large enough.
pub place_lem :
    (n a e : ℕ) (bs : List Block)
    → Tiles a bs e
    → Merged bs
    → e < 2 ^ 64
    → e ≤ a + 2 ^ 62
    → PlacedWell a bs e n (place n bs)
unfolding place
place_lem n a e [] t m he span = tt
place_lem n a e (b ∷ bs) t m he span =
    let intact : not (is_intact b) ≡ false = ground (arith, t.1) in
    elim (Bool-cases (b.free && leb n b.size)) [
      | inl hit ↦
          let fit : n ≤ b.size = ground arith in
          rw (intact, hit) (take_block-PlacedWell a e n b bs t m he span (ground arith) fit)
      | inr miss ↦
          rw (intact, miss)
            (keep-PlacedWell n a e b bs (place n bs) t m miss
              (place_lem n (a + header + b.size) e bs t.2 m.1 he (omega arith)))
    ]
