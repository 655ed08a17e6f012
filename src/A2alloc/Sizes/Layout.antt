-- ===== src/A2alloc/Sizes/Layout.antt =====
-- The layout of a page: the blocks of a size class lie behind the header, inside the page.
use parallel_memory_allocato.Base.{ℕ, zero, suc, ◌+◌, ◌*◌, ◌%◌, ◌≤◌, ◌<◌, ◌≡◌, arith}
use parallel_memory_allocato.A2alloc.Sizes.{
  n_sizes, page_of, superblock_page_size, sizeof_pageref, size_of, capacity,
}

-- The address of block `i` of a page.
abbrev pub block : ℕ → ℕ → ℕ → ℕ
block page t i = page + sizeof_pageref + i * size_of t

-- At least three blocks fit behind the header of a page.
pub capacity_bounds :
    (t : ℕ)
    → t < n_sizes
    → (3 ≤ capacity t)
      × (8 ≤ size_of t)
      × (size_of t % 8 ≡ 0)
      × (sizeof_pageref + capacity t * size_of t ≤ superblock_page_size)
capacity_bounds zero h = ground arith
capacity_bounds (suc zero) h = ground arith
capacity_bounds (suc (suc zero)) h = ground arith
capacity_bounds (suc (suc (suc zero))) h = ground arith
capacity_bounds (suc (suc (suc (suc zero)))) h = ground arith
capacity_bounds (suc (suc (suc (suc (suc zero))))) h = ground arith
capacity_bounds (suc (suc (suc (suc (suc (suc zero)))))) h = ground arith
capacity_bounds (suc (suc (suc (suc (suc (suc (suc zero))))))) h = ground arith
capacity_bounds (suc (suc (suc (suc (suc (suc (suc (suc zero)))))))) h = ground arith
capacity_bounds (suc (suc (suc (suc (suc (suc (suc (suc (suc n))))))))) h = absurd (omega arith)

slots : (i n size : ℕ) → i < n → i * size + size ≤ n * size
slots i n size h = grind arith

-- Block `i` of a page lies behind the page's header and ends inside the page.
pub block_inside :
    (page t i : ℕ)
    → t < n_sizes
    → i < capacity t
    → (page + sizeof_pageref ≤ block page t i)
      × (block page t i + size_of t ≤ page + superblock_page_size)
block_inside page t i ht hi =
    (omega arith, omega (arith, capacity_bounds t ht, slots i (capacity t) (size_of t) hi))

-- Rounding the address of a block down gives its page.
pub page_of-block :
    (page t i : ℕ)
    → page % superblock_page_size ≡ 0
    → t < n_sizes
    → i < capacity t
    → page_of (block page t i) ≡ page
unfolding page_of
page_of-block page t i aligned ht hi =
    omega (arith, capacity_bounds t ht, block_inside page t i ht hi)

-- Two blocks of a page do not overlap.
pub blocks_apart : (page t i j : ℕ) → i < j → block page t i + size_of t ≤ block page t j
blocks_apart page t i j h = omega (arith, slots i j (size_of t) h)
