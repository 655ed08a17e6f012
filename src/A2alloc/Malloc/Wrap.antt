-- ===== src/A2alloc/Malloc/Wrap.antt =====
-- The sizes that `large_malloc` serves, and those that it mistakes for others.
use parallel_memory_allocato.Base.{ℕ, suc, ◌+◌, ◌*◌, ◌^◌, ◌≤◌, ◌<◌, ◌≡◌, arith, lt→ltb}
use parallel_memory_allocato.A2alloc.Sizes.{
  superblock_page_size, sizeof_pageref, largest_superblock_block_size,
}
use parallel_memory_allocato.A2alloc.State.{State}
use parallel_memory_allocato.A2alloc.Malloc.{large_pages_needed, mm_malloc, word}

-- For a size below 2 ^ 31 the pages that `large_malloc` asks for hold the header and the block, and
-- one page fewer would not.
pub large_pages_needed_fit :
    (size : ℕ)
    → size < 2 ^ 31
    → (sizeof_pageref + size ≤ large_pages_needed size * superblock_page_size)
      × (large_pages_needed size * superblock_page_size
          < sizeof_pageref + size + superblock_page_size)
unfolding large_pages_needed
large_pages_needed_fit size h = rw (lt→ltb size (2 ^ 31) h) (omega arith, omega arith)

-- A request that exceeds a size by a multiple of 2 ^ 32 is served like that size, if the size is
-- above the small blocks; and the pages that serve it are smaller than the request.
pub mm_malloc_wraps :
    (cpu size k : ℕ) (s : State)
    → largest_superblock_block_size < size
    → size < 2 ^ 31
    → (mm_malloc cpu (size + suc k * 2 ^ 32) s ≡ mm_malloc cpu size s)
      × (large_pages_needed (word 32 (size + suc k * 2 ^ 32)) * superblock_page_size
          < size + suc k * 2 ^ 32)
unfolding mm_malloc
mm_malloc_wraps cpu size k s h small =
    let same_word : word 32 (size + suc k * 2 ^ 32) ≡ size = omega arith in
    let own_word : word 32 size ≡ size = omega arith in
    (
      rw (
        lt→ltb 2048 size h,
        lt→ltb 2048 (size + suc k * 2 ^ 32) (omega arith),
        same_word,
        own_word,
      ),
      rw same_word (omega (arith, large_pages_needed_fit size small)),
    )
