-- ===== src/Kheap/Heap/Calls.antt =====
-- `mm_init`, `mm_malloc` and `mm_free` on the whole heap.
use native.Mathlib.Nat.{mul-mod_left}
use mathlib.Core.Path.{subst}
use parallel_memory_allocato.Base.{
  ℕ, ◌+◌, ◌-◌, ◌/◌, ◌%◌, ◌^◌, ◌<◌, ◌≡◌, refl, sym, ◌∙◌, true, false, Bool-cases, inl, inr, ◌⊎◌,
  Option, none, some, [], ◌==◌, arith, leb, ok, Returns, Returns-bind,
}
use parallel_memory_allocato.Memlib.{Dseg, dseg_max, null, mem_init, page_align_up}
use parallel_memory_allocato.Memlib.Bounds.{multiple_aligned}
use parallel_memory_allocato.Kheap.Sizes.{largest_subpage_size, frame}
use parallel_memory_allocato.Kheap.State.{State}
use parallel_memory_allocato.Kheap.Subpage.{subpage_kfree}
use parallel_memory_allocato.Kheap.Big.{big_kmalloc, big_kfree}
use parallel_memory_allocato.Kheap.Api.{mm_init, mm_malloc, mm_free}
use parallel_memory_allocato.Kheap.Heap.{Loc, head, idle, View, IsPage, IsHeap, live, Allots, Frees}
use parallel_memory_allocato.Kheap.Heap.Search.{subpage_kmalloc-Allots}
use parallel_memory_allocato.Kheap.Heap.Kmalloc.{big_kmalloc-Allots}
use parallel_memory_allocato.Kheap.Heap.Kfree.{Takes, subpage_kfree-Takes}
use parallel_memory_allocato.Kheap.Heap.Layout.{frame_le}
use parallel_memory_allocato.Kheap.Heap.Chunks.{same_head}
use parallel_memory_allocato.Kheap.Heap.Chunks.Freed.{big_kfree-Frees}

-- The globals as a program starts with them.
pub record IsBlank (s : State) : Type 0 where
  pub lo : s.dseg.dseg_lo ≡ null
  pub end : s.dseg.dseg_end ≡ null + 1
  pub lists : (l : Loc) → head s l ≡ null
  pub chunks : s.bigchunks ≡ null

-- No page has a use.
abbrev pub empty : View
empty = record {
  lists = λ l. [];
  place = λ pr. none;
  use_of = λ page. idle;
  free_blocks = λ pr. [];
  free_chunks = [];
}

-- The heap is in order, and no block is live.
abbrev pub Starts : State → Type 0
Starts s = IsHeap s empty × ((a : ℕ) → live s empty a ≡ false)

empty-IsHeap :
    (s : State)
    → ((l : Loc) → head s l ≡ null)
    → s.bigchunks ≡ null
    → s.dseg.dseg_end % 4096 ≡ 0
    → IsHeap s empty
empty-IsHeap s lists chunks aligned = record {
  subpages = record {
    linked = record {
      chain = lists;
      distinct = λ l. tt;
      placed = λ l pr m. absurd (cc);
      listed = λ l pr e. absurd (cc);
    };
    home = λ pr l e. absurd (cc);
    item = λ pr l e. absurd (cc);
    owner = λ page pr e. absurd (cc);
  };
  chunks = record {
    chain = chunks;
    distinct = tt;
    free = λ h m. absurd (cc);
    chunk = λ h e. absurd (cc);
  };
  used = λ page. inl refl;
  ended = aligned;
}

-- From the globals as a program starts with them, and with a page size that is a multiple of 4096,
-- `mm_init` fails if the C library has no memory for the segment, and otherwise the heap is in order
-- and no block is live.
pub mm_init-Starts :
    (page_size block : ℕ) (s : State)
    → 0 < page_size
    → page_size % 4096 ≡ 0
    → IsBlank s
    → (block ≡ null) × (mm_init page_size block s ≡ none)
      ⊎ (s' : State) × (mm_init page_size block s ≡ some s') × Starts s'
unfolding mm_init mem_init page_align_up
mm_init-Starts page_size block s pos whole b = elim (Bool-cases (block == null)) [
  | inl y ↦ inl (ground arith, rw (b.lo, b.end, y) refl)
  | inr n ↦
      let d : Dseg = record {
        dseg_lo = page_align_up page_size block;
        dseg_end = page_align_up page_size block;
        dseg_size = dseg_max;
        page_size = page_size;
      } in
      let s1 = record s { dseg = d } in
      let aligned =
        multiple_aligned (page_align_up page_size block) page_size whole
          (mul-mod_left ((block + page_size - 1) / page_size) page_size) in
      inr (
        s1,
        rw (b.lo, b.end, n) refl,
        (
          empty-IsHeap s1 (λ l. same_head s s1 refl refl refl l ∙ b.lists l) b.chunks aligned,
          λ a. refl,
        ),
      )
]

pub live-IsPage :
    (s : State) (w : View) → IsHeap s w → (a : ℕ) → live s w a ≡ true → IsPage s (frame a)
live-IsPage s w v a alive = elim (v.used (frame a)) [
  | inl i ↦ absurd (let z = rw i at alive in cc)
  | inr p ↦ p
]

module _ (s : State) (w : View) (v : IsHeap s w) (fuel : ℕ) (enough : s.dseg.dseg_end < fuel) where
  -- In a heap in order, with fuel above the end of the segment, `mm_malloc` returns, and the heap is in
  -- order. Either the result is NULL and the same blocks are live, or it was not live and is now,
  -- beside the old ones, with room for the size. The old ones have the room that they had.
  pub mm_malloc-Allots_kheap :
      (size : ℕ) → size < 2 ^ 31 - 4103 → Returns (Allots s w size) (mm_malloc fuel size s)
  unfolding mm_malloc
  mm_malloc-Allots_kheap size fits = elim (Bool-cases (leb largest_subpage_size size)) [
    | inl y ↦
        let low : size % 2 ^ 32 ≡ size = omega (arith, fits) in
        rw y (
          subst (λ (z : ℕ). Returns (Allots s w size) (big_kmalloc fuel z s)) (sym low)
            (big_kmalloc-Allots s w v fuel size enough))
    | inr n ↦ rw n (subpage_kmalloc-Allots s w v fuel size (ground arith) enough)
  ]

  -- In a heap in order, with fuel above the end of the segment, `mm_free` of a live block returns. The
  -- heap is then in order, and the live blocks are the old ones without the block, with the room that
  -- they had.
  pub mm_free-Frees_kheap :
      (ptr : ℕ) → live s w ptr ≡ true → Returns (Frees s w ptr) (mm_free fuel ptr s)
  unfolding mm_free
  mm_free-Frees_kheap ptr alive = elim (Bool-cases (ptr == null)) [
    | inl y ↦
        let z : ptr ≡ null = ground arith in
        let (aligned, nn, lt) = live-IsPage s w v ptr alive in
        absurd (nn (omega (arith, z, frame_le ptr)))
    | inr n ↦ rw n (
        Returns-bind (Takes s w ptr) (Frees s w ptr) (subpage_kfree fuel ptr s) _
          (subpage_kfree-Takes s w v fuel ptr alive enough) (λ r k. by_result r k))
  ]
    where
      by_result :
          (r : Option State)
          → Takes s w ptr r
          → Returns (Frees s w ptr) (elim r [ none ↦ ok (big_kfree ptr s) | some s1 ↦ ok s1 ])
      by_result none own = big_kfree-Frees s w v ptr alive own
      by_result (some s1) k = k
