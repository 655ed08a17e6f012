-- ===== src/A2alloc/Blocks/Carve.antt =====
-- `carve`: the loop that links the blocks of a page.
use parallel_memory_allocato.Base.{
  ℕ, zero, suc, ◌+◌, ◌-◌, ◌*◌, ◌≡◌, ◌≢◌, ◌≤◌, ◌<◌, refl, sym, ap, ◌∙◌, List, ◌∷◌, false, has,
  length, IsDistinct, arith,
}
use parallel_memory_allocato.Memlib.{null}
use parallel_memory_allocato.A2alloc.Sizes.{n_sizes, sizeof_pageref, size_of, capacity}
use parallel_memory_allocato.A2alloc.Sizes.Layout.{capacity_bounds}
use parallel_memory_allocato.A2alloc.State.{State, put_cell, put_page}
use parallel_memory_allocato.A2alloc.Malloc.{link_blocks, carve}
use parallel_memory_allocato.A2alloc.Links.Segment.{ne_of_has}
use parallel_memory_allocato.A2alloc.Blocks.{Chain, Chain-frame, HasBlocks, blocks_down}

pub put_cell-same : (s : State) (b v : ℕ) → (put_cell s b v).cells b ≡ v
unfolding put_cell
put_cell-same s b v = ground arith

pub put_cell-other : (s : State) (b v a : ℕ) → a ≢ b → (put_cell s b v).cells a ≡ s.cells a
unfolding put_cell
put_cell-other s b v a ne = ground arith

pub blocks_down-suc :
    (base size i : ℕ) → blocks_down base size (suc i) ≡ (base + i * size) ∷ blocks_down base size i
unfolding blocks_down
blocks_down-suc base size i = refl

link_blocks-suc :
    (n i i' k base size : ℕ) (s : State)
    → i' ≡ i + 1
    → k ≡ i - 1
    → link_blocks (suc n) i base size s
      ≡ link_blocks n i' base size (put_cell s (base + i * size) (base + k * size))
unfolding link_blocks
link_blocks-suc n i i' k base size s e p = rw (e, p) refl

module _ (base size : ℕ) (room : 0 < size) where
  -- The blocks lie below the next one.
  pub blocks_down-above : (i a : ℕ) → base + i * size ≤ a → has a (blocks_down base size i) ≡ false
  unfolding blocks_down
  blocks_down-above zero a h = refl
  blocks_down-above (suc i) a h =
      let ne : a ≢ base + i * size = omega arith in
      ground (arith, blocks_down-above i a (omega arith), ne)

  pub blocks_down-IsDistinct : (i : ℕ) → IsDistinct (blocks_down base size i)
  unfolding blocks_down
  blocks_down-IsDistinct zero = tt
  blocks_down-IsDistinct (suc i) =
      (blocks_down-above i (base + i * size) (omega arith), blocks_down-IsDistinct i)

  pub length-blocks_down : (i : ℕ) → length (blocks_down base size i) ≡ i
  unfolding blocks_down
  length-blocks_down zero = refl
  length-blocks_down (suc i) = ap suc (length-blocks_down i)

  -- One round of the loop.
  link_step :
      (j : ℕ) (s : State)
      → base ≢ null
      → Chain s.cells (base + j * size) (blocks_down base size (suc j))
      → Chain
          (put_cell s (base + suc j * size) (base + j * size)).cells
          (base + suc j * size)
          (blocks_down base size (suc (suc j)))
  link_step j s nn c =
      let here = put_cell-same s (base + suc j * size) (base + j * size) in
      let behind = Chain-frame s.cells _ (base + j * size) (blocks_down base size (suc j)) c (λ a m.
        put_cell-other s (base + suc j * size) (base + j * size) a
          (ne_of_has a (base + suc j * size) _ (blocks_down-above (suc j) _ (omega arith)) m)) in
      rw (blocks_down-suc base size (suc j)) (refl, omega arith, rw here behind)

  pub link_blocks-Chain :
      (n j m : ℕ) (s : State)
      → base ≢ null
      → m ≡ n + j
      → Chain s.cells (base + j * size) (blocks_down base size (suc j))
      → Chain
          (link_blocks n (suc j) base size s).cells
          (base + m * size)
          (blocks_down base size (suc m))
  unfolding link_blocks
  link_blocks-Chain zero j m s nn e c = let q : m ≡ j = omega arith in rw q c
  link_blocks-Chain (suc n) j m s nn e c =
      rw (link_blocks-suc n (suc j) (suc (suc j)) j base size s (omega arith) (omega arith)) (
        link_blocks-Chain n (suc j) m (put_cell s (base + suc j * size) (base + j * size)) nn
          (omega arith) (link_step j s nn c))

-- The loop touches no page header.
pub link_blocks-pages :
    (n i base size : ℕ) (s : State) → (link_blocks n i base size s).pages ≡ s.pages
unfolding link_blocks put_cell
link_blocks-pages zero i base size s = refl
link_blocks-pages (suc n) i base size s = link_blocks-pages n (i + 1) base size _

-- The free blocks of a fresh page of a size class, in order.
abbrev pub fresh_blocks : ℕ → ℕ → List ℕ
fresh_blocks page t = blocks_down (page + sizeof_pageref) (size_of t) (capacity t)

-- The state before the loop, with the page information set.
page_set : State → ℕ → ℕ → ℕ → State
page_set s page h t =
    put_page s page
      (record (s.pages page) { block_type = t; count = capacity t; heap_id = h; prev = null })

linked : State → ℕ → ℕ → ℕ → State
unfolding page_set
linked s page h t =
    link_blocks (capacity t - 1) 1 (page + sizeof_pageref) (size_of t)
      (put_cell (page_set s page h t) (page + sizeof_pageref) null)

carve-cells : (s : State) (page h t : ℕ) → (carve s page h t).cells ≡ (linked s page h t).cells
unfolding carve put_page linked
carve-cells s page h t = refl

pub carve-flist :
    (s : State) (page h t : ℕ)
    → ((carve s page h t).pages page).flist ≡ page + sizeof_pageref + (capacity t - 1) * size_of t
unfolding carve put_page
carve-flist s page h t = ground arith

pub carve-count : (s : State) (page h t : ℕ) → ((carve s page h t).pages page).count ≡ capacity t
unfolding carve put_page put_cell
carve-count s page h t =
    rw (link_blocks-pages (capacity t - 1) 1 (page + sizeof_pageref) (size_of t) _) (ground arith)

pub one_block :
    (s : State) (base size : ℕ)
    → base ≢ null
    → Chain (put_cell s base null).cells (base + 0 * size) (blocks_down base size 1)
unfolding blocks_down
one_block s base size nn =
    let z : base + 0 * size ≡ base = omega arith in
    (refl, omega arith, rw z (put_cell-same s base null))

linked-Chain :
    (s : State) (page h t : ℕ)
    → t < n_sizes
    → Chain
        (linked s page h t).cells
        (page + sizeof_pageref + (capacity t - 1) * size_of t)
        (fresh_blocks page t)
unfolding linked
linked-Chain s page h t lt =
    let room : 0 < size_of t = omega (arith, capacity_bounds t lt) in
    let full : capacity t ≡ suc (capacity t - 1) = omega (arith, capacity_bounds t lt) in
    let c =
      link_blocks-Chain (page + sizeof_pageref) (size_of t) room (capacity t - 1) 0 (capacity t - 1)
        (put_cell (page_set s page h t) (page + sizeof_pageref) null) (omega arith) (omega arith)
        (one_block (page_set s page h t) (page + sizeof_pageref) (size_of t) (omega arith)) in
    rw (← full) at c

-- After `carve` of a page for a size class the free blocks of the page are all its blocks, from
-- the last to the first, and its `count` is their number.
pub carve-HasBlocks :
    (s : State) (page h t : ℕ)
    → t < n_sizes
    → HasBlocks (carve s page h t) page (fresh_blocks page t)
carve-HasBlocks s page h t lt =
    let room : 0 < size_of t = omega (arith, capacity_bounds t lt) in
    record {
      chain = rw (carve-cells s page h t, carve-flist s page h t) (linked-Chain s page h t lt);
      counted =
          carve-count s page h t
          ∙ sym (length-blocks_down (page + sizeof_pageref) (size_of t) room (capacity t));
      distinct = blocks_down-IsDistinct (page + sizeof_pageref) (size_of t) room (capacity t);
    }
