-- ===== src/A2alloc/Blocks/Page.antt =====
-- `malloc_page`: a block of a page that was on no list.
use parallel_memory_allocato.Base.{
  ℕ, suc, ◌+◌, ◌-◌, ◌≡◌, ◌<◌, ◌≤◌, refl, ap, ◌∙◌, List, ◌∷◌, arith, ok, ◌%◌,
}
use parallel_memory_allocato.A2alloc.Sizes.{
  n_sizes, superblock_page_size, sizeof_pageref, size_of, capacity, page_of,
}
use parallel_memory_allocato.A2alloc.Sizes.Layout.{
  block, capacity_bounds, block_inside, page_of-block,
}
use parallel_memory_allocato.A2alloc.State.{
  State, Loc, free, complete, large, sized, put_page, put_heap, set_head, push_front,
}
use parallel_memory_allocato.A2alloc.Malloc.{malloc_page, carve}
use parallel_memory_allocato.A2alloc.Blocks.{Chain-frame, HasBlocks, blocks_down}
use parallel_memory_allocato.A2alloc.Blocks.Carve.{fresh_blocks, carve-HasBlocks, blocks_down-suc}
use parallel_memory_allocato.A2alloc.Blocks.Ops.{pop_block-Pops}

push_front-flist :
    (s : State) (l : Loc) (x a : ℕ) → ((push_front s l x).pages a).flist ≡ (s.pages a).flist
unfolding push_front put_page set_head put_heap
push_front-flist s (free h) x a = ground arith
push_front-flist s (complete h) x a = ground arith
push_front-flist s (large h) x a = ground arith
push_front-flist s (sized h t) x a = ground arith

push_front-count :
    (s : State) (l : Loc) (x a : ℕ) → ((push_front s l x).pages a).count ≡ (s.pages a).count
unfolding push_front put_page set_head put_heap
push_front-count s (free h) x a = ground arith
push_front-count s (complete h) x a = ground arith
push_front-count s (large h) x a = ground arith
push_front-count s (sized h t) x a = ground arith

push_front-cells : (s : State) (l : Loc) (x a : ℕ) → (push_front s l x).cells a ≡ s.cells a
unfolding push_front put_page set_head put_heap
push_front-cells s (free h) x a = ground arith
push_front-cells s (complete h) x a = ground arith
push_front-cells s (large h) x a = ground arith
push_front-cells s (sized h t) x a = ground arith

-- A push of a page on a list leaves the free blocks of the pages.
pub push_front-HasBlocks :
    (s : State) (l : Loc) (x page : ℕ) (bs : List ℕ)
    → HasBlocks s page bs
    → HasBlocks (push_front s l x) page bs
push_front-HasBlocks s l x page bs v = record {
  chain =
      rw (push_front-flist s l x page)
        (Chain-frame s.cells _ (s.pages page).flist bs v.chain (λ a m. push_front-cells s l x a));
  counted = push_front-count s l x page ∙ v.counted;
  distinct = v.distinct;
}

-- The last block of the page.
abbrev pub last_block : ℕ → ℕ → ℕ
last_block page t = block page t (capacity t - 1)

-- For a size class, `malloc_page` returns the last block of the page, which lies behind the page's
-- header and inside the page and whose address rounds down to the page if that is aligned, and
-- leaves all other blocks of the page free.
pub malloc_page_lem :
    (s : State) (h t page : ℕ)
    → t < n_sizes
    → (s' : State) × (malloc_page s h t page ≡ ok (last_block page t, s'))
      × HasBlocks s' page (blocks_down (page + sizeof_pageref) (size_of t) (capacity t - 1))
      × (page + sizeof_pageref ≤ last_block page t)
      × (last_block page t + size_of t ≤ page + superblock_page_size)
      × (page % superblock_page_size ≡ 0 → page_of (last_block page t) ≡ page)
unfolding malloc_page
malloc_page_lem s h t page lt =
    let full : capacity t ≡ suc (capacity t - 1) = omega (arith, capacity_bounds t lt) in
    let shape : fresh_blocks page t
        ≡ last_block page t ∷ blocks_down (page + sizeof_pageref) (size_of t) (capacity t - 1) =
      ap (blocks_down (page + sizeof_pageref) (size_of t)) full ∙ blocks_down-suc _ _ _ in
    let (s1, found, rest) =
      pop_block-Pops (carve s page h t) page _ (rw shape at (carve-HasBlocks s page h t lt)) in
    let last : capacity t - 1 < capacity t = omega arith in
    let (above, below) = block_inside page t (capacity t - 1) lt last in
    (
      push_front s1 (sized h t) page,
      rw found refl,
      push_front-HasBlocks s1 (sized h t) page page _ rest,
      above,
      below,
      λ aligned. page_of-block page t (capacity t - 1) aligned lt last,
    )
