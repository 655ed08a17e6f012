-- ===== src/Kheap/State/Pack.antt =====
-- The word of a page reference that packs the address of a page with a block type.
use parallel_memory_allocato.Base.{ℕ, ◌%◌, ◌≡◌, ◌<◌, arith}
use parallel_memory_allocato.Kheap.Sizes.{page_size, frame, mkpab}
use parallel_memory_allocato.Kheap.State.{PageRef, pr_pageaddr, pr_blocktype}

-- PR_PAGEADDR and PR_BLOCKTYPE get back the aligned address of a page and the block type below 4096
-- that MKPAB packed, and MKPAB of the two parts of a word is the word.
pub mkpab_lem :
    (pa blk : ℕ) (r : PageRef)
    → pa % page_size ≡ 0
    → blk < page_size
    → (pr_pageaddr (record r { pageaddr_and_blocktype = mkpab pa blk }) ≡ pa)
      × (pr_blocktype (record r { pageaddr_and_blocktype = mkpab pa blk }) ≡ blk)
      × (mkpab (pr_pageaddr r) (pr_blocktype r) ≡ r.pageaddr_and_blocktype)
unfolding mkpab frame pr_pageaddr pr_blocktype
mkpab_lem pa blk r aligned lt = (omega arith, omega arith, omega arith)
