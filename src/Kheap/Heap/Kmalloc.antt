-- ===== src/Kheap/Heap/Kmalloc.antt =====
-- `big_kmalloc` in a heap in order.
use parallel_memory_allocato.Base.{
  ℕ, ◌+◌, ◌*◌, ◌≤◌, ◌<◌, ◌≡◌, refl, Bool-cases, inl, inr, Option, none, some, length, arith, ltb,
  Returns,
}
use parallel_memory_allocato.Memlib.{null}
use parallel_memory_allocato.A2alloc.Heap.Count.{length_bound}
use parallel_memory_allocato.Kheap.Sizes.{page_size, smallest_subpage_size}
use parallel_memory_allocato.Kheap.State.{State}
use parallel_memory_allocato.Kheap.Big.{big_pages, big_kmalloc}
use parallel_memory_allocato.Kheap.Big.Search.{first_fit, kmalloc_by, big_kmalloc-first_fit}
use parallel_memory_allocato.Kheap.Heap.{View, IsHeap, npages, Allots}
use parallel_memory_allocato.Kheap.Heap.Chunks.Relist.{take_chunk-Allots, fit_chunk}
use parallel_memory_allocato.Kheap.Heap.Chunks.Cut.{carve-Allots}
use parallel_memory_allocato.Kheap.Heap.Chunks.Fresh.{new_chunk-Allots}
use parallel_memory_allocato.Kheap.Heap.Search.{has_below, part_below}

big_pages-room :
    (size : ℕ) → (0 < big_pages size) × (size + smallest_subpage_size ≤ big_pages size * page_size)
unfolding big_pages
big_pages-room size = (omega arith, omega arith)

module _ (s : State) (w : View) (v : IsHeap s w) where
  chunk_bound : length w.free_chunks ≤ s.dseg.dseg_end
  chunk_bound =
      length_bound 0 1 s.dseg.dseg_end w.free_chunks
        (λ a m. has_below s.dseg.dseg_end a (part_below s w v a (v.chunks.free a m)))
        v.chunks.distinct

  fit-Allots :
      (size : ℕ) (o : Option (ℕ × ℕ))
      → first_fit (npages s) (big_pages size) null w.free_chunks ≡ o
      → Returns (Allots s w size) (kmalloc_by s (big_pages size) o)
  fit-Allots size none e =
      new_chunk-Allots s w v (big_pages size) (big_pages-room size).0 size (big_pages-room size).1
  fit-Allots size (some (b, x)) e = elim (Bool-cases (ltb (big_pages size) (npages s x))) [
    | inl y ↦ rw y (
        carve-Allots s w v x (big_pages size) (fit_chunk s w v (big_pages size) b x e)
          (ground arith) (big_pages-room size).0 size (big_pages-room size).1)
    | inr f ↦ rw f (take_chunk-Allots s w v (big_pages size) b x size e (big_pages-room size).1)
  ]

  pub big_kmalloc-Allots :
      (fuel size : ℕ) → s.dseg.dseg_end < fuel → Returns (Allots s w size) (big_kmalloc fuel size s)
  big_kmalloc-Allots fuel size enough =
      rw
        (big_kmalloc-first_fit fuel s size w.free_chunks v.chunks.chain
          (omega (arith, chunk_bound)))
        (fit-Allots size _ refl)
