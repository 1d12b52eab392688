-- ===== src/Memory/Heap/Growing.antt =====
-- kernel/memory.cpp, `heap_grow`: the new block at the end of the region.
use quillos.Prelude.{
  ℕ, ◌+◌, ◌≤◌, ◌<◌, ◌^◌, ◌≡◌, refl, sym, ap, ◌∙◌, ◌⊎◌, inl, inr, true, false, ◌&&◌, List, [], ◌∷◌,
  arith, ltb, ◌==◌, Bool-cases, add64, sub64,
}
use quillos.Memory.Heap.{
  Block, Heap, block_magic, header, min_split, block_end, append_block, grow_request, grow_bytes,
  heap_grow,
}
use quillos.Memory.Heap.Invariant.{Tiles, head_free, Merged, live, IsValid}

-- Appending a free block that starts where the blocks end tiles the longer region, merges it with a
-- free last block, and leaves every allocation alone.
append_block_lem :
    (n b : Block) (bs : List Block) (a e : ℕ)
    → Tiles a (b ∷ bs) e
    → Merged (b ∷ bs)
    → n.addr ≡ e
    → n.magic ≡ block_magic
    → n.free ≡ true
    → e + header + n.size < 2 ^ 64
    → Tiles a (append_block n (b ∷ bs)) (e + header + n.size)
      × Merged (append_block n (b ∷ bs))
      × (live (append_block n (b ∷ bs)) ≡ live (b ∷ bs))
      × (head_free (append_block n (b ∷ bs)) ≡ b.free)
unfolding append_block
append_block_lem n b [] a e t m at mg f top =
    let adjacent : (block_end b == n.addr) ≡ true = ground (arith, t.0, t.2) in
    elim (Bool-cases b.free) [
      | inl x ↦
          let both : (b.free && (block_end b == n.addr)) ≡ true = rw (x, adjacent) refl in
          let wide = record b { size = add64 b.size (add64 header n.size) } in
          let meets : a + header + wide.size ≡ e + header + n.size = omega (arith, t.2) in
          let go : append_block n (b ∷ []) ≡ wide ∷ [] = rw both refl in
          rw go ((t.0, t.1, meets), (rw x refl, tt), rw x refl, refl)
      | inr x ↦
          let no_join : (b.free && (block_end b == n.addr)) ≡ false = rw x refl in
          let go : append_block n (b ∷ []) ≡ b ∷ n ∷ [] = rw no_join refl in
          rw go (
            (t.0, t.1, (at ∙ sym t.2, mg, ap (λ k. k + header + n.size) t.2)),
            (rw x refl, (rw f refl, tt)),
            rw (x, f) refl,
            refl,
          )
    ]
append_block_lem n b (c ∷ bs) a e t m at mg f top =
    let ih = append_block_lem n c bs (a + header + b.size) e t.2 m.1 at mg f top in
    ((t.0, t.1, ih.0), (rw ih.3 m.0, ih.1), ground (arith, ih.2), refl)

-- A heap with a limit has a block to grow from.
blocks_cons :
    (h : Heap) → IsValid h → 0 < h.committed → (b : Block) × (bs : List Block) × (h.blocks ≡ b ∷ bs)
blocks_cons h v pos = split_list h.blocks v.tiled
  where
    split_list :
        (l : List Block)
        → Tiles h.region_start l (h.region_start + h.committed)
        → (b : Block) × (bs : List Block) × (l ≡ b ∷ bs)
    split_list [] t = absurd (omega arith)
    split_list (b ∷ bs) t = (b, bs, refl)

-- The size of the new block: at most what is left, and at least a header and 32 bytes if the heap
-- grows at all.
grow_bytes_room :
    (h : Heap) (min_bytes : ℕ)
    → IsValid h
    → min_bytes < 2 ^ 63
    → h.committed + grow_bytes h min_bytes ≤ h.max_bytes
grow_bytes_room h min_bytes v small =
    let bounded : grow_request min_bytes < 2 ^ 63 + 2 ^ 20 = ground arith in
    ground (arith, v.within, v.limited)

-- What `heap_grow` keeps and what it changes: the heap stays well formed and every allocation stays;
-- if it succeeds, at least 56 bytes more are committed, and if it fails, nothing has changed.
pub heap_grow_lem :
    (h : Heap) (min_bytes : ℕ)
    → IsValid h
    → 0 < h.committed
    → min_bytes < 2 ^ 63
    → let (g, ok) = heap_grow h min_bytes in
      IsValid g
      × (live g.blocks ≡ live h.blocks)
      × (g.max_bytes ≡ h.max_bytes)
      × (((ok ≡ true) × (h.committed + header + min_split ≤ g.committed))
          ⊎ ((ok ≡ false) × (g ≡ h)))
unfolding heap_grow
heap_grow_lem h min_bytes v pos modest =
    let grow = grow_bytes h min_bytes in
    let room = grow_bytes_room h min_bytes v modest in
    elim (Bool-cases (ltb grow (header + min_split))) [
      | inl small ↦ rw small (v, refl, refl, inr (refl, refl))
      | inr large ↦
          let least : header + min_split ≤ grow = ground arith in
          let n : Block = record {
            addr = add64 h.region_start h.committed;
            magic = block_magic;
            free = true;
            size = sub64 grow header;
          } in
          let (b, bs, shape) = blocks_cons h v pos in
          let at : n.addr ≡ h.region_start + h.committed = omega (arith, v.within, v.addressed) in
          let grew : n.size + header ≡ grow = omega (arith, v.limited) in
          let added =
            append_block_lem n b bs h.region_start (h.region_start + h.committed)
              (rw shape at v.tiled) (rw shape at v.merged) at refl refl
              (omega (arith, v.addressed)) in
          let sum : add64 h.committed grow ≡ h.committed + grow = omega (arith, v.limited) in
          let meets : h.region_start + h.committed + header + n.size
              ≡ h.region_start + add64 h.committed grow =
            omega arith in
          let same : live (append_block n h.blocks) ≡ live h.blocks = rw shape added.2 in
          rw large (
            record {
              tiled = rw (shape, ← meets) added.0;
              merged = rw shape added.1;
              counted = rw same v.counted;
              weighed = rw same v.weighed;
              within = omega arith;
              limited = v.limited;
              addressed = v.addressed;
              begun = omega arith;
            },
            same,
            refl,
            inl (refl, omega arith),
          )
    ]
