-- ===== src/A2alloc/Links/LargeMalloc.antt =====
-- `large_malloc`.
use parallel_memory_allocato.Base.{
  ℕ, ◌+◌, ◌*◌, ◌^◌, ◌≡◌, ◌<◌, refl, true, ◌==◌, arith, if◌then◌else◌, Outcome, ok, ltb, ◌>>=◌,
}
use parallel_memory_allocato.Memlib.{null}
use parallel_memory_allocato.A2alloc.Sizes.{superblock_page_size, sizeof_pageref, blocktype_large}
use parallel_memory_allocato.A2alloc.State.{State, PageRef, large, put_page, push_front}
use parallel_memory_allocato.A2alloc.Malloc.{
  large_pages_needed, large_malloc, sbrk, sbrk_pages, word,
}

pub sbrk_pages_small :
    (n : ℕ) (s : State)
    → n * superblock_page_size < 2 ^ 31
    → sbrk_pages n s ≡ sbrk (n * superblock_page_size) s
unfolding sbrk_pages
sbrk_pages_small n s h =
    let w : word 32 (n * superblock_page_size) ≡ n * superblock_page_size = omega arith in
    let t : ltb (n * superblock_page_size) (2 ^ 31) ≡ true = ground arith in rw (w, t) refl

-- The page that `large_malloc` puts on the list of large blocks.
unfoldable pub large_header : State → ℕ → ℕ → ℕ → PageRef
large_header s page npages h = record (s.pages page) {
  block_type = blocktype_large;
  count = npages;
  prev = null;
  heap_id = h;
}

pub put_large_prev :
    (s : State) (page npages h : ℕ)
    → ((put_page s page (large_header s page npages h)).pages page).prev ≡ null
unfolding put_page large_header
put_large_prev s page npages h = ground arith

unfoldable pub large_end : ℕ → ℕ → ℕ × State → Outcome (ℕ × State)
large_end npages h (page, s1) =
    if page == null
    then ok (null, s1)
    else ok (
      page + sizeof_pageref,
      push_front (put_page s1 page (large_header s1 page npages h)) (large h) page,
    )

pub large_malloc-eq :
    (size h : ℕ) (s : State)
    → large_malloc size h s
      ≡ (sbrk_pages (large_pages_needed size) s >>= large_end (large_pages_needed size) h)
unfolding large_malloc large_end large_header
large_malloc-eq size h s = refl
