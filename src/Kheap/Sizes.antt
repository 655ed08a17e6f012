-- ===== src/Kheap/Sizes.antt =====
-- The constants of kheap.c, the word that packs a page address with a block type, and `blocktype`.
pub mod Choice
use parallel_memory_allocato.Base.{
  ℕ, suc, ◌+◌, ◌*◌, ◌/◌, ◌%◌, List, [], ◌∷◌, Outcome, ok, stop, Stop, leb, if◌then◌else◌, get_or,
}

abbrev pub page_size : ℕ
page_size = 4096

abbrev pub n_sizes : ℕ
n_sizes = 9

abbrev pub sizes : List ℕ
sizes = 8 ∷ 16 ∷ 32 ∷ 64 ∷ 128 ∷ 256 ∷ 512 ∷ 1024 ∷ 2048 ∷ []

abbrev pub size_of : ℕ → ℕ
size_of blktype = get_or sizes blktype 0

abbrev pub smallest_subpage_size : ℕ
smallest_subpage_size = 8

abbrev pub largest_subpage_size : ℕ
largest_subpage_size = 2048

-- On a 64-bit machine: three words and an int, padded to a multiple of 8.
abbrev pub sizeof_pageref : ℕ
sizeof_pageref = 32

-- `x & PAGE_FRAME` clears the 12 low bits of a word, and `x & ~PAGE_FRAME` keeps only them; the `|`
-- of two such words is their sum.
unfoldable pub frame : ℕ → ℕ
frame x = x / page_size * page_size

-- MKPAB
unfoldable pub mkpab : ℕ → ℕ → ℕ
unfolding frame
mkpab pa blk = frame pa + blk % page_size

-- The loop of `blocktype` from index `i`.
unfoldable pub blocktype_from : ℕ → List ℕ → ℕ → Outcome ℕ
blocktype_from i [] sz = stop Stop.exit_failure
blocktype_from i (s ∷ rest) sz =
    let next = blocktype_from (suc i) rest sz in if leb sz s then ok i else next

unfoldable pub blocktype : ℕ → Outcome ℕ
unfolding blocktype_from
blocktype sz = blocktype_from 0 sizes sz
