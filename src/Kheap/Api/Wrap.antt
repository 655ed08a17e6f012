-- ===== src/Kheap/Api/Wrap.antt =====
-- The conversion of a size to an int in `mm_malloc` of kheap.c.
use parallel_memory_allocato.Base.{
  ℕ, suc, ◌+◌, ◌-◌, ◌*◌, ◌%◌, ◌^◌, ◌≤◌, ◌<◌, ◌≡◌, ap, true, leb, arith,
}
use parallel_memory_allocato.Kheap.Sizes.{page_size, largest_subpage_size}
use parallel_memory_allocato.Kheap.State.{State}
use parallel_memory_allocato.Kheap.Big.{big_pages, big_kmalloc}
use parallel_memory_allocato.Kheap.Api.{mm_malloc}

-- A request that exceeds a size from 2048 to 2 ^ 31 - 4104 by a multiple of 2 ^ 32 is served like that
-- size, and the pages that serve it are smaller than the request.
pub mm_malloc_wraps_kheap :
    (fuel size k : ℕ) (s : State)
    → largest_subpage_size ≤ size
    → size < 2 ^ 31 - 4103
    → (mm_malloc fuel (size + suc k * 2 ^ 32) s ≡ mm_malloc fuel size s)
      × (big_pages ((size + suc k * 2 ^ 32) % 2 ^ 32) * page_size < size + suc k * 2 ^ 32)
unfolding mm_malloc big_pages
mm_malloc_wraps_kheap fuel size k s large fits =
    let first : leb largest_subpage_size (size + suc k * 2 ^ 32) ≡ true = ground arith in
    let second : leb largest_subpage_size size ≡ true = ground arith in
    let low : (size + suc k * 2 ^ 32) % 2 ^ 32 ≡ size % 2 ^ 32 = omega arith in
    let own : (size + suc k * 2 ^ 32) % 2 ^ 32 ≡ size = omega (arith, fits) in
    (rw (first, second) (ap (λ (z : ℕ). big_kmalloc fuel z s) low), rw own (omega (arith, fits)))
