-- ===== src/A2alloc/Tests.antt =====
-- Runs of the allocator on small inputs, and its theorems at them.
use parallel_memory_allocato.Base.{
  ℕ, suc, ◌+◌, ◌-◌, ◌%◌, ◌*◌, ◌^◌, ◌≤◌, ◌<◌, ◌≡◌, refl, arith, Outcome, ok, stop, Stop, ◌>>=◌, none,
  some, [], ◌∷◌,
}
use parallel_memory_allocato.A2alloc.Sizes.{
  n_sizes, sizeof_pageref, superblock_page_size, largest_superblock_block_size, size_of, capacity,
  page_of, get_block_type,
}
use parallel_memory_allocato.A2alloc.Sizes.Choice.{get_block_type_lem}
use parallel_memory_allocato.A2alloc.State.{State}
use parallel_memory_allocato.A2alloc.Init.{mm_init}
use parallel_memory_allocato.A2alloc.Blocks.{HasBlocks, blocks_down}
use parallel_memory_allocato.A2alloc.Blocks.Ops.{Pops, pop_block-Pops, push_block-HasBlocks}
use parallel_memory_allocato.A2alloc.Blocks.Page.{last_block, malloc_page_lem}
use parallel_memory_allocato.A2alloc.Chop.{chop_misses_last}
use parallel_memory_allocato.A2alloc.Malloc.{mm_malloc, malloc_page, large_pages_needed, word}
use parallel_memory_allocato.A2alloc.Malloc.Wrap.{large_pages_needed_fit, mm_malloc_wraps}
use parallel_memory_allocato.A2alloc.Free.{mm_free, push_block, chop}

-- The memory of the process before `mm_init`, all zero.
abbrev pub blank : State
blank = record {
  dseg = record { dseg_lo = 0; dseg_end = 0; dseg_size = 0; page_size = 0 };
  number_of_processors = 0;
  heap_array = 0;
  heaps = λ _. record {
    n_free_pages = 0;
    free_pages = 0;
    complete_pages = 0;
    large_pages = 0;
    sizebases = λ _. 0;
  };
  pages = λ _. record { next = 0; prev = 0; flist = 0; block_type = 0; count = 0; heap_id = 0 };
  cells = λ _. 0;
}

abbrev start : Outcome State
start = do r ← mm_init 4096 20000 2 blank; ok (elim r [ none ↦ blank | some s ↦ s ])

-- Three blocks of 2048 bytes fill a page; a block freed into it is the next one handed out.
reuse : Outcome (ℕ × ℕ × ℕ × ℕ)
unfolding mm_init mm_malloc mm_free
reuse = do
  s ← start
  (p, s) ← mm_malloc 0 2000 s
  (q, s) ← mm_malloc 0 2000 s
  (r, s) ← mm_malloc 0 2000 s
  s ← mm_free p s
  (t, s) ← mm_malloc 0 2000 s
  ok (p, q, r, t)

reuse_lem : reuse ≡ ok (36904, 34856, 32808, 36904)
unfolding reuse
reuse_lem = refl

-- The theorems at concrete inputs.
get_block_type_lem_example :
    (100 ≤ largest_superblock_block_size
      → (t : ℕ) × (get_block_type 100 ≡ ok t)
        × (t < n_sizes)
        × (100 ≤ size_of t)
        × ((u : ℕ) → u < t → size_of u < 100))
    × (largest_superblock_block_size < 100 → get_block_type 100 ≡ stop Stop.exit_failure)
get_block_type_lem_example = get_block_type_lem 100

large_pages_needed_fit_example :
    (sizeof_pageref + 20000 ≤ large_pages_needed 20000 * superblock_page_size)
    × (large_pages_needed 20000 * superblock_page_size
        < sizeof_pageref + 20000 + superblock_page_size)
large_pages_needed_fit_example = large_pages_needed_fit 20000 (omega arith)

mm_malloc_wraps_example :
    (mm_malloc 0 (3000 + suc 0 * 2 ^ 32) blank ≡ mm_malloc 0 3000 blank)
    × (large_pages_needed (word 32 (3000 + suc 0 * 2 ^ 32)) * superblock_page_size
        < 3000 + suc 0 * 2 ^ 32)
mm_malloc_wraps_example = mm_malloc_wraps 0 3000 0 blank (omega arith) (omega arith)

malloc_page_lem_example :
    (s' : State) × (malloc_page blank 1 3 8192 ≡ ok (last_block 8192 3, s'))
    × HasBlocks s' 8192 (blocks_down (8192 + sizeof_pageref) (size_of 3) (capacity 3 - 1))
    × (8192 + sizeof_pageref ≤ last_block 8192 3)
    × (last_block 8192 3 + size_of 3 ≤ 8192 + superblock_page_size)
    × (8192 % superblock_page_size ≡ 0 → page_of (last_block 8192 3) ≡ 8192)
malloc_page_lem_example = malloc_page_lem blank 1 3 8192 (omega arith)

-- One free block on a page.
abbrev one_free : State
one_free = record blank { pages = λ a. record (blank.pages a) { flist = 8232; count = 1 } }

one_free-HasBlocks : HasBlocks one_free 8192 (8232 ∷ [])
one_free-HasBlocks = record {
  chain = (refl, omega arith, refl);
  counted = refl;
  distinct = (refl, tt);
}

pop_block-Pops_example : Pops one_free 8192 (8232 ∷ [])
pop_block-Pops_example = pop_block-Pops one_free 8192 (8232 ∷ []) one_free-HasBlocks

push_block-HasBlocks_example : HasBlocks (push_block one_free 8192 8296) 8192 (8296 ∷ 8232 ∷ [])
push_block-HasBlocks_example =
    push_block-HasBlocks one_free 8192 8296 (8232 ∷ []) one_free-HasBlocks (omega arith) refl

chop_misses_last_example :
    ((chop 1 8192 8192 8192 blank).0 ≡ 8192 + 0 * superblock_page_size)
    × ((chop 1 8192 8192 8192 blank).1.pages (8192 + 1 * superblock_page_size)
        ≡ blank.pages (8192 + 1 * superblock_page_size))
chop_misses_last_example = chop_misses_last 0 8192 blank
