-- ===== src/A2alloc/Init.antt =====
-- `mm_init` of a2alloc.c. `page_size` and `block` are what `getpagesize` and `malloc` return in
-- `mem_init`, and `nprocs` what `get_nprocs` returns.
use parallel_memory_allocato.Base.{
  ℕ, zero, suc, ◌+◌, ◌-◌, ◌*◌, ◌/◌, ◌%◌, Option, none, some, Outcome, ok, ◌>>=◌, ltb, ◌==◌,
  if◌then◌else◌,
}
use parallel_memory_allocato.Memlib.{Dseg, null, mem_init, mem_sbrk}
use parallel_memory_allocato.A2alloc.Sizes.{superblock_page_size, sizeof_heap, n_sizes}
use parallel_memory_allocato.A2alloc.State.{State, put_heap}

-- `if (diff > 0) mem_sbrk(diff);`, with `diff` the remainder of `dseg_lo`.
unfoldable pub align_dseg : Dseg → Outcome Dseg
unfolding mem_sbrk
align_dseg d =
    let diff = d.dseg_lo % superblock_page_size in
    if ltb 0 diff then (do (_, d') ← mem_sbrk diff d; ok d') else ok d

-- The pages that the array of heaps takes.
unfoldable pub heap_pages : ℕ → ℕ
heap_pages nprocs = (sizeof_heap * (nprocs + 1) + superblock_page_size - 1) / superblock_page_size

-- The inner loop, `h->sizebases[j] = NULL` for the `n` rounds from `j` on.
unfoldable pub clear_sizebases : ℕ → ℕ → (ℕ → ℕ) → ℕ → ℕ
clear_sizebases zero j f = f
clear_sizebases (suc n) j f = clear_sizebases n (j + 1) (λ i. if i == j then null else f i)

-- One round of the outer loop.
unfoldable pub clear_heap : State → ℕ → State
unfolding put_heap clear_sizebases
clear_heap s i = put_heap s i (record {
  n_free_pages = 0;
  free_pages = null;
  complete_pages = null;
  large_pages = null;
  sizebases = clear_sizebases n_sizes 0 (s.heaps i).sizebases;
})

-- The outer loop for the `n` rounds from heap `i` on.
unfoldable pub clear_heaps : ℕ → ℕ → State → State
unfolding clear_heap
clear_heaps zero i s = s
clear_heaps (suc n) i s = clear_heaps n (i + 1) (clear_heap s i)

-- `none` is the result -1. The state before the call gives what the memory happens to hold.
unfoldable pub mm_init : (page_size block nprocs : ℕ) → State → Outcome (Option State)
unfolding mem_init align_dseg mem_sbrk heap_pages clear_heaps
mm_init page_size block nprocs s = elim (mem_init page_size block) [
  | none ↦ ok none
  | some d ↦ do
    d1 ← align_dseg d
    (array, d2) ← mem_sbrk (heap_pages nprocs * superblock_page_size) d1
    if array == null
        then ok none
        else ok (
            some (
              clear_heaps (nprocs + 1) 0
                (record s { dseg = d2; number_of_processors = nprocs; heap_array = array })))
]
