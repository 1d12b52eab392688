-- ===== src/Memory/Heap/Releasing.antt =====
-- kernel/memory.cpp, `kfree`: what it does to the list of blocks.
use quillos.Prelude.{
  ℕ, ◌+◌, ◌<◌, ◌^◌, ◌≡◌, refl, sym, ap, ◌∙◌, ◌≢◌, ◌⊎◌, inl, inr, true, false, not, ◌&&◌,
  if◌then◌else◌, some_eq, none, some, List, [], ◌∷◌, arith, ◌==◌, Bool-cases, Option-cases, add64,
  sub64,
}
use quillos.Memory.Heap.{
  Block, Heap, block_magic, header, is_intact, block_end, absorb, join_at, release, find_block,
  kfree,
}
use quillos.Memory.Heap.Invariant.{
  Tiles, head_free, Merged, live, Inserts, here, there, length-Inserts, sizes-Inserts, IsValid,
  Tiles-le, sizes-Tiles,
}

-- A free block in front of well-formed blocks takes in the next one if that is free.
absorb_lem :
    (a e : ℕ) (b : Block) (bs : List Block)
    → Tiles a (b ∷ bs) e
    → Merged bs
    → b.free ≡ true
    → e < 2 ^ 64
    → Tiles a (absorb b bs) e
      × Merged (absorb b bs)
      × (live (absorb b bs) ≡ live bs)
      × (head_free (absorb b bs) ≡ true)
unfolding absorb
absorb_lem a e b [] t m f he = (t, (rw f refl, tt), rw f refl, f)
absorb_lem a e b (c ∷ cs) t m f he =
    let intact : is_intact c ≡ true = ground (arith, t.2.1) in
    let top = Tiles-le (a + header + b.size + header + c.size) e cs t.2.2 in
    elim (Bool-cases c.free) [
      | inl x ↦
          let wide = record b { size = add64 b.size (add64 header c.size) } in
          let go : absorb b (c ∷ cs) ≡ wide ∷ cs = rw (intact, x) refl in
          let meets : a + header + wide.size ≡ a + header + b.size + header + c.size =
            omega arith in
          let apart : head_free cs ≡ false = ground (arith, m.0) in
          rw go ((t.0, t.1, rw meets t.2.2), (rw (f, apart) refl, m.1), rw (f, x) refl, f)
      | inr x ↦
          let go : absorb b (c ∷ cs) ≡ b ∷ c ∷ cs = rw (intact, x) refl in
          rw go (t, (rw (f, x) refl, m), rw f refl, f)
    ]

-- What the blocks behind `b`, from `start` on, are like when `b` looks for the block at `a`.
abbrev Behind : ℕ → ℕ → Block → List Block → Type 0
Behind a start b r =
    ((start ≡ a) × (head_free r ≡ true)) ⊎ ((start ≢ a) × ((b.free && head_free r) ≡ false))

join_at_lem :
    (a a0 e : ℕ) (b : Block) (r : List Block)
    → Tiles a0 (b ∷ r) e
    → Merged r
    → Behind a (a0 + header + b.size) b r
    → e < 2 ^ 64
    → Tiles a0 (join_at a b r) e
      × Merged (join_at a b r)
      × (live (join_at a b r) ≡ live (b ∷ r))
      × (head_free (join_at a b r) ≡ b.free)
unfolding join_at
join_at_lem a a0 e b [] t m w he = (t, (ground arith, tt), refl, refl)
join_at_lem a a0 e b (c ∷ cs) t m w he =
    let intact : is_intact b ≡ true = ground (arith, t.1) in
    let top = Tiles-le (a0 + header + b.size + header + c.size) e cs t.2.2 in
    let adjacent : (block_end b == c.addr) ≡ true = ground (arith, t.0, t.2.0) in
    elim w [
      | inl (at, cf) ↦
          let hit : (c.addr == a) ≡ true = ground (arith, t.2.0) in
          elim (Bool-cases b.free) [
            | inl x ↦
                let wide = record b { size = add64 b.size (add64 header c.size) } in
                let go : join_at a b (c ∷ cs) ≡ wide ∷ cs = rw (hit, intact, x, adjacent) refl in
                let meets : a0 + header + wide.size ≡ a0 + header + b.size + header + c.size =
                  omega arith in
                let apart : head_free cs ≡ false = ground (arith, m.0) in
                rw go ((t.0, t.1, rw meets t.2.2), (rw (x, apart) refl, m.1), rw (x, cf) refl, refl)
            | inr x ↦
                let go : join_at a b (c ∷ cs) ≡ b ∷ c ∷ cs = rw (hit, intact, x) refl in
                rw go (t, (rw x refl, m), refl, refl)
          ]
      | inr (off, apart) ↦
          let miss : (c.addr == a) ≡ false = ground (arith, t.2.0) in
          let go : join_at a b (c ∷ cs) ≡ b ∷ c ∷ cs = rw miss refl in
          rw go (t, (apart, m), refl, refl)
    ]

-- Whether the released block is the first of the blocks.
abbrev Front : ℕ → ℕ → List Block → List Block → Type 0
Front a a0 bs r = ((a0 ≡ a) × (head_free r ≡ true)) ⊎ ((a0 ≢ a) × (head_free r ≡ head_free bs))

-- A block that the list finds at `a` is free.
abbrev Freed : ℕ → List Block → Type 0
Freed a bs = (d : Block) → find_block a bs ≡ some d → d.free ≡ true

absorb-Freed :
    (a : ℕ) (b : Block) (bs : List Block)
    → (b.addr == a) ≡ true
    → b.free ≡ true
    → Freed a (absorb b bs)
unfolding absorb find_block
absorb-Freed a b [] hit f d e = ground (arith, e)
absorb-Freed a b (c ∷ cs) hit f d e = elim (Bool-cases (is_intact c && c.free)) [
  | inl x ↦
      let wide = record b { size = add64 b.size (add64 header c.size) } in
      let same : wide ≡ d = some_eq (rw (x, hit) at e) in sym (ap (λ (y : Block). y.free) same) ∙ f
  | inr x ↦
      let same : b ≡ d = some_eq (rw (x, hit) at e) in sym (ap (λ (y : Block). y.free) same) ∙ f
]

-- Blocks that lie behind `a` have no header at `a`.
behind-Freed : (a a0 e : ℕ) (bs : List Block) → Tiles a0 bs e → a < a0 → Freed a bs
unfolding find_block
behind-Freed a a0 e [] t low d f = cc
behind-Freed a a0 e (b ∷ bs) t low d f =
    let miss : (b.addr == a) ≡ false = ground (arith, t.0) in
    behind-Freed a (a0 + header + b.size) e bs t.2 (omega arith) d (rw miss at f)

join_at-Freed :
    (a a0 e : ℕ) (b : Block) (r : List Block)
    → Tiles a0 r e
    → (b.addr == a) ≡ false
    → Freed a r
    → Freed a (join_at a b r)
unfolding join_at find_block
join_at-Freed a a0 e b [] t miss rest d f = absurd (ground (arith, f, miss))
join_at-Freed a a0 e b (c ∷ cs) t miss rest d f =
    elim (Bool-cases ((c.addr == a) && is_intact b && b.free && (block_end b == c.addr))) [
      | inl x ↦
          let at : a0 ≡ a = ground (arith, x, t.0) in
          behind-Freed a (a0 + header + c.size) e cs t.2 (omega arith) d (rw (x, miss) at f)
      | inr x ↦ rest d (rw (x, miss) at f)
    ]

-- Releasing a block that is in use takes its allocation off and no other, and keeps the blocks tiled
-- and merged.
release_lem :
    (a a0 e : ℕ) (bs : List Block) (c : Block)
    → Tiles a0 bs e
    → Merged bs
    → e < 2 ^ 64
    → find_block a bs ≡ some c
    → c.free ≡ false
    → Tiles a0 (release a bs) e
      × Merged (release a bs)
      × Inserts (a, c.size) (live (release a bs)) (live bs)
      × Front a a0 bs (release a bs)
      × Freed a (release a bs)
unfolding find_block release
release_lem a a0 e [] c t m he found f = absurd (ground arith)
release_lem a a0 e (b ∷ bs) c t m he found f = elim (Bool-cases (b.addr == a)) [
  | inl hit ↦
      let same : b ≡ c = ground (arith, found, hit) in
      let used : b.free ≡ false = ap (λ (x : Block). x.free) same ∙ f in
      let go : release a (b ∷ bs) ≡ absorb (record b { free = true }) bs = rw hit refl in
      let r = absorb_lem a0 e (record b { free = true }) bs t m.1 refl he in
      let at : a0 ≡ a = ground (arith, t.0) in
      let ea : b.addr ≡ a = ground (arith, hit) in
      let es : b.size ≡ c.size = ap (λ (x : Block). x.size) same in
      rw go (
        r.0,
        r.1,
        rw (r.2, used, ea, es) here,
        inl (at, r.3),
        absorb-Freed a (record b { free = true }) bs hit refl,
      )
  | inr miss ↦
      let found' : find_block a bs ≡ some c = ground (arith, found, miss) in
      let ih = release_lem a (a0 + header + b.size) e bs c t.2 m.1 he found' f in
      let go : release a (b ∷ bs) ≡ join_at a b (release a bs) = rw miss refl in
      let behind : Behind a (a0 + header + b.size) b (release a bs) = elim ih.3 [
        | inl x ↦ inl x
        | inr (off, h) ↦ inr (off, rw h m.0)
      ] in
      let j = join_at_lem a a0 e b (release a bs) (t.0, t.1, ih.0) ih.1 behind he in
      let off : a0 ≢ a = ground (arith, t.0) in
      rw go (
        j.0,
        j.1,
        rw j.2 (elim (Bool-cases b.free) [ inl x ↦ rw x ih.2 | inr x ↦ rw x (there ih.2) ]),
        inr (off, j.3),
        join_at-Freed a (a0 + header + b.size) e b (release a bs) ih.0 miss ih.4,
      )
]

-- A later call for the block at `a`, whose header reads as it was left, merged or not.
abbrev pub Ignored : Heap → ℕ → Type 0
Ignored h ptr =
    (memory : ℕ → Block)
    → is_intact (memory (sub64 ptr header)) ≡ true
    → (memory (sub64 ptr header)).free ≡ true
    → kfree memory h ptr ≡ some h

-- What `kfree` gives at a pointer that is not null.
abbrev pub Frees : (ℕ → Block) → Heap → ℕ → Type 0
Frees memory h ptr =
    let a = sub64 ptr header in
    let r = kfree memory h ptr in
    ((find_block a h.blocks ≡ none)
      × (r ≡ (if is_intact (memory a) && not (memory a).free then none else some h)))
    ⊎ ((c : Block) × (find_block a h.blocks ≡ some c)
        × (((c.free ≡ true) × (r ≡ some h))
            ⊎ ((c.free ≡ false)
                × ((h' : Heap) × (r ≡ some h')
                    × IsValid h'
                    × Inserts (a, c.size) (live h'.blocks) (live h.blocks)
                    × Ignored h' ptr))))

-- A header that is no longer in the list is not freed again.
kfree_absent :
    (memory : ℕ → Block) (h : Heap) (ptr : ℕ)
    → (ptr == 0) ≡ false
    → find_block (sub64 ptr header) h.blocks ≡ none
    → kfree memory h ptr ≡ (
        if is_intact (memory (sub64 ptr header)) && not (memory (sub64 ptr header)).free
        then none
        else some h)
unfolding kfree
kfree_absent memory h ptr nz e =
    let m = memory (sub64 ptr header) in
    elim (Bool-cases (is_intact m)) [
      | inl x ↦ elim (Bool-cases m.free) [
        | inl y ↦ rw (nz, e, x, y) refl
        | inr y ↦ rw (nz, e, x, y) refl
      ]
      | inr x ↦ rw (nz, e, x) refl
    ]

kfree_twice :
    (h : Heap) (ptr : ℕ) → (ptr == 0) ≡ false → Freed (sub64 ptr header) h.blocks → Ignored h ptr
unfolding kfree
kfree_twice h ptr nz freed memory intact free =
    let a = sub64 ptr header in
    elim (Option-cases (find_block a h.blocks)) [
      | inl e ↦ kfree_absent memory h ptr nz e ∙ rw (intact, free) refl
      | inr (c, e) ↦
          let f = freed c e in
          elim (Bool-cases (is_intact c)) [
            | inl x ↦ rw (nz, e, x, f) refl
            | inr x ↦ rw (nz, e, x) refl
          ]
    ]

find_block-intact :
    (a a0 e : ℕ) (bs : List Block) (c : Block)
    → Tiles a0 bs e
    → find_block a bs ≡ some c
    → is_intact c ≡ true
unfolding find_block
find_block-intact a a0 e [] c t f = absurd (ground arith)
find_block-intact a a0 e (b ∷ bs) c t f = elim (Bool-cases (b.addr == a)) [
  | inl hit ↦
      let same : b ≡ c = ground (arith, f, hit) in
      let m : c.magic ≡ block_magic = ap (λ (x : Block). x.magic) (sym same) ∙ t.1 in ground arith
  | inr miss ↦ find_block-intact a (a0 + header + b.size) e bs c t.2 (ground (arith, f, miss))
]

-- A pointer to an allocation gives that allocation up: it alone leaves the heap, the block is merged
-- with its free neighbours, the heap stays well formed, and a second call with the pointer changes
-- nothing, while the memory in front of it reads as the header that the first call left. A pointer
-- to a free block, or one to memory that does not read as a block in use, changes nothing.
pub kfree_lem : (memory : ℕ → Block) (h : Heap) (ptr : ℕ) → IsValid h → ptr ≢ 0 → Frees memory h ptr
unfolding kfree
kfree_lem memory h ptr v nn =
    let a = sub64 ptr header in
    let nz : (ptr == 0) ≡ false = ground (arith, nn) in
    elim (Option-cases (find_block a h.blocks)) [
      | inl e ↦ inl (e, kfree_absent memory h ptr nz e)
      | inr (c, e) ↦
          let intact =
            find_block-intact a h.region_start (h.region_start + h.committed) h.blocks c v.tiled
              e in
          elim (Bool-cases c.free) [
            | inl x ↦
                let go : kfree memory h ptr ≡ some h = rw (nz, e, intact, x) refl in
                inr (c, e, inl (x, go))
            | inr x ↦
                let h' = record h {
                  blocks = release a h.blocks;
                  alloc_count = sub64 h.alloc_count 1;
                  alloc_bytes = sub64 h.alloc_bytes c.size;
                } in
                let go : kfree memory h ptr ≡ some h' = rw (nz, e, intact, x) refl in
                let r =
                  release_lem a h.region_start (h.region_start + h.committed) h.blocks c v.tiled
                    v.merged (omega (arith, v.within, v.addressed)) e x in
                let fits =
                  sizes-Tiles h.region_start (h.region_start + h.committed) h.blocks v.tiled in
                inr (
                  c,
                  e,
                  inr (
                    x,
                    (
                      h',
                      go,
                      record {
                        tiled = r.0;
                        merged = r.1;
                        counted =
                            omega
                              (arith, v.counted, length-Inserts r.2, fits, v.within, v.addressed);
                        weighed =
                            omega
                              (arith, v.weighed, sizes-Inserts r.2, fits, v.within, v.addressed);
                        within = v.within;
                        limited = v.limited;
                        addressed = v.addressed;
                        begun = v.begun;
                      },
                      r.2,
                      kfree_twice h' ptr nz r.4,
                    ),
                  ),
                )
          ]
    ]
