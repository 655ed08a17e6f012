-- ===== src/A2alloc/Heap/Malloc.antt =====
-- `mm_malloc`.
use parallel_memory_allocato.Base.{
  ℕ, ◌+◌, ◌%◌, ◌^◌, ◌≡◌, ◌<◌, Bool-cases, inl, inr, arith, Returns, ltb,
}
use parallel_memory_allocato.A2alloc.Sizes.{largest_superblock_block_size}
use parallel_memory_allocato.A2alloc.State.{State}
use parallel_memory_allocato.A2alloc.Malloc.{mm_malloc, word}
use parallel_memory_allocato.A2alloc.Heap.{View, IsHeap}
use parallel_memory_allocato.A2alloc.Heap.Take.{Allots}
use parallel_memory_allocato.A2alloc.Heap.SmallMalloc.{small_malloc-Allots}
use parallel_memory_allocato.A2alloc.Heap.LargeMalloc.{large_malloc-Allots}

-- In a heap in order `mm_malloc` of less than 2 ^ 30 bytes returns and leaves the heap in order. Its
-- result is NULL, and the same blocks are live, or a block that was not live, with room for the
-- request, that is live now beside the old ones. The old ones keep their room.
pub mm_malloc-Allots :
    (s : State) (w : View)
    → IsHeap s w
    → (cpu size : ℕ) → size < 2 ^ 30
    → Returns (Allots s w size) (mm_malloc cpu size s)
unfolding mm_malloc
mm_malloc-Allots s w v cpu size lt =
    let h = cpu % s.number_of_processors + 1 in
    let e : word 32 size ≡ size = omega arith in
    elim (Bool-cases (ltb largest_superblock_block_size size)) [
      | inl over ↦ rw (over, e) (large_malloc-Allots s w v size h lt)
      | inr fits ↦ rw fits (small_malloc-Allots s w v size h (ground arith))
    ]
