-- ===== src/Kheap/Heap/Layout.antt =====
-- The blocks of a page of kheap.c.
use native.Mathlib.Nat.{mul-mod_left}
use parallel_memory_allocato.Base.{
  ℕ, zero, suc, ◌+◌, ◌*◌, ◌/◌, ◌%◌, ◌≤◌, ◌<◌, ◌≡◌, true, has, arith,
}
use parallel_memory_allocato.A2alloc.Heap.Count.{block_index}
use parallel_memory_allocato.Kheap.Sizes.{page_size, n_sizes, size_of, frame}
use parallel_memory_allocato.Kheap.Heap.{capacity, all_blocks}

pub capacity_bounds :
    (t : ℕ)
    → t < n_sizes
    → (2 ≤ capacity t) × (8 ≤ size_of t) × (capacity t * size_of t ≤ page_size)
capacity_bounds zero h = ground arith
capacity_bounds (suc zero) h = ground arith
capacity_bounds (suc (suc zero)) h = ground arith
capacity_bounds (suc (suc (suc zero))) h = ground arith
capacity_bounds (suc (suc (suc (suc zero)))) h = ground arith
capacity_bounds (suc (suc (suc (suc (suc zero))))) h = ground arith
capacity_bounds (suc (suc (suc (suc (suc (suc zero)))))) h = ground arith
capacity_bounds (suc (suc (suc (suc (suc (suc (suc zero))))))) h = ground arith
capacity_bounds (suc (suc (suc (suc (suc (suc (suc (suc zero)))))))) h = ground arith
capacity_bounds (suc (suc (suc (suc (suc (suc (suc (suc (suc n))))))))) h = absurd (omega arith)

pub slots : (i n size : ℕ) → i < n → i * size + size ≤ n * size
slots i n size h = grind arith

-- A block has an index, and lies in its page.
pub block_at :
    (page t a : ℕ)
    → t < n_sizes
    → has a (all_blocks page t) ≡ true
    → (i : ℕ) × (i < capacity t) × (a ≡ page + i * size_of t) × (a + size_of t ≤ page + page_size)
block_at page t a lt m =
    let (i, below, e) = block_index page (size_of t) (capacity t) a m in
    (i, below, e, omega (arith, capacity_bounds t lt, slots i (capacity t) (size_of t) below))

pub frame_le : (a : ℕ) → (frame a ≤ a) × (a < frame a + page_size) × (frame a % page_size ≡ 0)
unfolding frame
frame_le a = (omega (arith), omega (arith), mul-mod_left (a / page_size) page_size)

-- An address in a page has that page.
pub frame_within :
    (page a : ℕ) → page % page_size ≡ 0 → page ≤ a → a < page + page_size → frame a ≡ page
unfolding frame
frame_within page a aligned le lt = omega arith

pub frame_of_block :
    (page t a : ℕ)
    → page % page_size ≡ 0
    → t < n_sizes
    → has a (all_blocks page t) ≡ true
    → frame a ≡ page
frame_of_block page t a aligned lt m =
    let (i, below, e, inside) = block_at page t a lt m in
    frame_within page a aligned (omega arith) (omega (arith, capacity_bounds t lt))
