-- ===== src/Kheap/Heap/Carve.antt =====
-- The loop of `subpage_kmalloc` that links the blocks of a page; a2alloc.c has the same loop.
use parallel_memory_allocato.Base.{
  ℕ, zero, suc, ◌+◌, ◌-◌, ◌*◌, ◌%◌, ◌≤◌, ◌<◌, ◌≡◌, ◌≢◌, refl, ap, ◌∙◌, false, arith, ◌==◌,
  if◌then◌else◌, length, IsDistinct,
}
use parallel_memory_allocato.Memlib.{null}
use parallel_memory_allocato.A2alloc.State.{State as ParallelState, put_cell as parallel_put_cell}
use parallel_memory_allocato.A2alloc.Malloc.{link_blocks as parallel_link_blocks}
use parallel_memory_allocato.A2alloc.Blocks.{Chain}
use parallel_memory_allocato.A2alloc.Blocks.Carve.{
  link_blocks-Chain, one_block, length-blocks_down, blocks_down-IsDistinct,
}
use parallel_memory_allocato.Kheap.Sizes.{page_size, n_sizes, size_of, frame}
use parallel_memory_allocato.Kheap.State.{State, put_cell}
use parallel_memory_allocato.Kheap.Subpage.{link_blocks}
use parallel_memory_allocato.Kheap.Heap.{capacity, all_blocks}
use parallel_memory_allocato.Kheap.Heap.Layout.{capacity_bounds, frame_within, slots}

-- A state of a2alloc.c with the given words.
abbrev with_cells : (ℕ → ℕ) → ParallelState
with_cells cells = record {
  dseg = record { dseg_lo = 0; dseg_end = 0; dseg_size = 0; page_size = 0 };
  number_of_processors = 0;
  heap_array = 0;
  heaps = λ _. record {
    n_free_pages = 0;
    free_pages = 0;
    complete_pages = 0;
    large_pages = 0;
    sizebases = λ _. 0;
  };
  pages = λ _. record { next = 0; prev = 0; flist = 0; block_type = 0; count = 0; heap_id = 0 };
  cells = cells;
}

link_blocks-same :
    (n i base size : ℕ) (s : State) (u : ParallelState)
    → s.cells ≡ u.cells
    → (link_blocks n i base size s).cells ≡ (parallel_link_blocks n i base size u).cells
unfolding link_blocks parallel_link_blocks put_cell parallel_put_cell
link_blocks-same zero i base size s u e = e
link_blocks-same (suc n) i base size s u e =
    link_blocks-same n (i + 1) base size _ _
      (ap (λ (f : ℕ → ℕ). λ a. if a == base + i * size then base + (i - 1) * size else f a) e)

-- The loop changes `cells` and nothing else.
pub link_blocks-cells :
    (n i base size : ℕ) (s : State)
    → link_blocks n i base size s ≡ record s { cells = (link_blocks n i base size s).cells }
unfolding link_blocks put_cell
link_blocks-cells zero i base size s = refl
link_blocks-cells (suc n) i base size s = link_blocks-cells n (i + 1) base size _

pub link_blocks-other :
    (n i base size : ℕ) (s : State) (b : ℕ)
    → ((j : ℕ) → i ≤ j → j < i + n → b ≢ base + j * size)
    → (link_blocks n i base size s).cells b ≡ s.cells b
unfolding link_blocks put_cell
link_blocks-other zero i base size s b out = refl
link_blocks-other (suc n) i base size s b out =
    let ne : (b == base + i * size) ≡ false =
      let z = out i (omega arith) (omega arith) in ground arith in
    link_blocks-other n (i + 1) base size _ b
      (λ j le lt. out j (omega (arith, le)) (omega (arith, lt)))
    ∙ rw ne refl

-- The words of a page after the loop.
unfoldable pub carved : State → ℕ → ℕ → State
unfolding link_blocks put_cell
carved s page t = link_blocks (capacity t - 1) 1 page (size_of t) (put_cell s page null)

module _ (s : State) (page t : ℕ) (lt : t < n_sizes) where
  pub carved-Chain :
      page ≢ null
      → Chain (carved s page t).cells (page + (capacity t - 1) * size_of t) (all_blocks page t)
  unfolding carved put_cell parallel_put_cell
  carved-Chain nn =
      let room : 0 < size_of t = omega (arith, capacity_bounds t lt) in
      let full : capacity t ≡ suc (capacity t - 1) = omega (arith, capacity_bounds t lt) in
      let u = with_cells s.cells in
      let e =
        link_blocks-same (capacity t - 1) 1 page (size_of t) (put_cell s page null)
          (parallel_put_cell u page null) refl in
      let c =
        link_blocks-Chain page (size_of t) room (capacity t - 1) 0 (capacity t - 1)
          (parallel_put_cell u page null) nn (omega arith) (one_block u page (size_of t) nn) in
      rw e (rw (← full) at c)

  -- The words outside of the page.
  pub carved-other :
      (b : ℕ) → page % page_size ≡ 0 → frame b ≢ page → (carved s page t).cells b ≡ s.cells b
  unfolding carved put_cell
  carved-other b aligned ne =
      let k = capacity_bounds t lt in
      let first : (b == page) ≡ false = ground (arith, at_start) in
      link_blocks-other (capacity t - 1) 1 page (size_of t) (put_cell s page null) b (λ j le less e.
        ne (
          frame_within page b aligned (omega arith)
            (omega (arith, slots j (capacity t) (size_of t) (omega arith)))))
      ∙ rw first refl
    where
      at_start : b ≢ page
      at_start e = ne (frame_within page b aligned (omega arith) (omega arith))

  pub all_blocks-length : length (all_blocks page t) ≡ capacity t
  all_blocks-length =
      length-blocks_down page (size_of t) (omega (arith, capacity_bounds t lt)) (capacity t)

  pub all_blocks-IsDistinct : IsDistinct (all_blocks page t)
  all_blocks-IsDistinct =
      blocks_down-IsDistinct page (size_of t) (omega (arith, capacity_bounds t lt)) (capacity t)

pub carved-cells :
    (s : State) (page t : ℕ) → carved s page t ≡ record s { cells = (carved s page t).cells }
unfolding carved put_cell
carved-cells s page t = link_blocks-cells (capacity t - 1) 1 page (size_of t) (put_cell s page null)
