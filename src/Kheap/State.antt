-- ===== src/Kheap/State.antt =====
-- The data structures and the global variables of kheap.c. The memory is three maps: the page
-- references, the word `next` of a `struct freelist` in a free block, and the chunk headers.
pub mod Pack
use parallel_memory_allocato.Base.{ℕ, ◌%◌, ◌==◌, if◌then◌else◌}
use parallel_memory_allocato.Memlib.{Dseg}
use parallel_memory_allocato.Kheap.Sizes.{page_size, frame}

-- `struct pageref`
pub record PageRef : Type 0 where
  pub next : ℕ
  pub flist : ℕ
  pub pageaddr_and_blocktype : ℕ
  pub nfree : ℕ

-- `struct big_freelist`. Its first word is also the header of an allocated chunk.
pub record BigFreelist : Type 0 where
  pub npages : ℕ
  pub next : ℕ

pub record State : Type 0 where
  pub dseg : Dseg
  pub fresh_refs : ℕ
  pub recycled_refs : ℕ
  pub sizebases : ℕ → ℕ
  pub bigchunks : ℕ
  pub refs : ℕ → PageRef
  pub cells : ℕ → ℕ
  pub chunks : ℕ → BigFreelist

-- PR_PAGEADDR and PR_BLOCKTYPE
unfoldable pub pr_pageaddr : PageRef → ℕ
unfolding frame
pr_pageaddr r = frame r.pageaddr_and_blocktype

unfoldable pub pr_blocktype : PageRef → ℕ
pr_blocktype r = r.pageaddr_and_blocktype % page_size

unfoldable pub put_ref : State → ℕ → PageRef → State
put_ref s p r = record s { refs = λ a. if a == p then r else s.refs a }

unfoldable pub put_cell : State → ℕ → ℕ → State
put_cell s b v = record s { cells = λ a. if a == b then v else s.cells a }

unfoldable pub put_chunk : State → ℕ → BigFreelist → State
put_chunk s b c = record s { chunks = λ a. if a == b then c else s.chunks a }

unfoldable pub set_sizebase : State → ℕ → ℕ → State
set_sizebase s t p = record s { sizebases = λ i. if i == t then p else s.sizebases i }
