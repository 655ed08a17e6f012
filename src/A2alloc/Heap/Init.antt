-- ===== src/A2alloc/Heap/Init.antt =====
-- `mm_init`.
use parallel_memory_allocato.Base.{
  ℕ, zero, suc, ◌+◌, ◌*◌, ◌%◌, ◌≤◌, ◌<◌, ◌≡◌, ◌≢◌, refl, ap, ◌∙◌, false, Returns-bind, Bool-cases,
  inl, inr, Option, none, some, [], ◌==◌, if◌then◌else◌, arith, Returns, ltb,
}
use parallel_memory_allocato.Memlib.{Dseg, dseg_max, page_align_up, null, mem_init, mem_sbrk}
use parallel_memory_allocato.Memlib.Bounds.{multiple_aligned, mem_init-IsSegment}
use parallel_memory_allocato.A2alloc.Sizes.{n_sizes, superblock_page_size}
use parallel_memory_allocato.A2alloc.State.{
  State, Loc, free, complete, large, sized, head, put_heap,
}
use parallel_memory_allocato.A2alloc.State
use parallel_memory_allocato.A2alloc.Init.{
  align_dseg, heap_pages, clear_sizebases, clear_heap, clear_heaps, mm_init,
}
use parallel_memory_allocato.A2alloc.Heap.{View, IsHeap}

-- The view of a heap that has no pages.
abbrev pub empty : View
empty = record { lists = λ _. []; place = λ _. none; within = λ _. none; free_blocks = λ _. [] }

-- The pointers of a heap are NULL.
pub record IsClear (r : State.Heap) : Type 0 where
  pub free_null : r.free_pages ≡ null
  pub complete_null : r.complete_pages ≡ null
  pub large_null : r.large_pages ≡ null
  pub sizebases_null : (t : ℕ) → r.sizebases t ≡ null

clear_sizebases-null :
    (n j : ℕ) (f : ℕ → ℕ)
    → ((i : ℕ) → (j ≤ i → j + n ≤ i) → f i ≡ null)
    → (i : ℕ) → clear_sizebases n j f i ≡ null
unfolding clear_sizebases
clear_sizebases-null zero j f out i = out i (λ le. omega (arith, le))
clear_sizebases-null (suc n) j f out i =
    clear_sizebases-null n (j + 1) (λ k. if k == j then null else f k)
      (λ k far. elim (Bool-cases (k == j)) [
        | inl t ↦ rw t refl
        | inr o ↦
            rw o (out k (λ le. let ne : k ≢ j = ground arith in omega (arith, far (omega arith))))
      ])
      i

-- The fields past the arrays are NULL: an index there names no list.
abbrev pub IsBare : (nprocs : ℕ) → State → Type 0
IsBare nprocs s =
    ((h : ℕ) → nprocs < h → IsClear (s.heaps h))
    × ((h t : ℕ) → n_sizes ≤ t → (s.heaps h).sizebases t ≡ null)

clear_heap-IsClear :
    (s : State) (i : ℕ)
    → ((t : ℕ) → n_sizes ≤ t → (s.heaps i).sizebases t ≡ null)
    → IsClear ((clear_heap s i).heaps i)
unfolding clear_heap put_heap
clear_heap-IsClear s i past = record {
  free_null = ground arith;
  complete_null = ground arith;
  large_null = ground arith;
  sizebases_null = λ t.
      let z =
        clear_sizebases-null n_sizes 0 (s.heaps i).sizebases (λ k far. past k (far (omega arith)))
          t in
      ground arith;
}

clear_heap_other : (s : State) (i h : ℕ) → (h == i) ≡ false → (clear_heap s i).heaps h ≡ s.heaps h
unfolding clear_heap put_heap
clear_heap_other s i h ne = rw ne refl

clear_heap-dseg : (s : State) (i : ℕ) → (clear_heap s i).dseg ≡ s.dseg
unfolding clear_heap put_heap
clear_heap-dseg s i = refl

clear_heaps-dseg : (n i : ℕ) (s : State) → (clear_heaps n i s).dseg ≡ s.dseg
unfolding clear_heaps
clear_heaps-dseg zero i s = refl
clear_heaps-dseg (suc n) i s = clear_heaps-dseg n (i + 1) (clear_heap s i) ∙ clear_heap-dseg s i

-- The loop leaves no heap with a page.
clear_heaps-IsClear :
    (n i : ℕ) (s : State)
    → ((h : ℕ) → (i ≤ h → i + n ≤ h) → IsClear (s.heaps h))
    → ((h t : ℕ) → n_sizes ≤ t → (s.heaps h).sizebases t ≡ null)
    → (h : ℕ) → IsClear ((clear_heaps n i s).heaps h)
unfolding clear_heaps
clear_heaps-IsClear zero i s out past h = out h (λ le. omega (arith, le))
clear_heaps-IsClear (suc n) i s out past h =
    clear_heaps-IsClear n (i + 1) (clear_heap s i)
      (λ k far. elim (Bool-cases (k == i)) [
        | inl t ↦ let e : k ≡ i = ground arith in rw e (clear_heap-IsClear s i (past i))
        | inr o ↦
            rw (clear_heap_other s i k o)
              (out k (λ le. let ne : k ≢ i = ground arith in omega (arith, far (omega arith))))
      ])
      (λ k t le. elim (Bool-cases (k == i)) [
        | inl q ↦
            let e : k ≡ i = ground arith in
            rw e ((clear_heap-IsClear s i (past i)).sizebases_null t)
        | inr o ↦ rw (clear_heap_other s i k o) (past k t le)
      ])
      h

head-null : (s : State) → ((h : ℕ) → IsClear (s.heaps h)) → (l : Loc) → head s l ≡ null
unfolding head
head-null s c (free h) = (c h).free_null
head-null s c (complete h) = (c h).complete_null
head-null s c (large h) = (c h).large_null
head-null s c (sized h t) = (c h).sizebases_null t

-- A segment that ends at a page, not before its start.
abbrev Aligned : Dseg → Type 0
Aligned d = (d.dseg_lo ≤ d.dseg_end) × (d.dseg_end % superblock_page_size ≡ 0)

clear-IsHeap : (s : State) → ((h : ℕ) → IsClear (s.heaps h)) → Aligned s.dseg → IsHeap s empty
clear-IsHeap s c ended = record {
  linked = record {
    segment = λ l. head-null s c l;
    distinct = λ l. tt;
    placed = λ l x m. absurd (cc);
    listed = λ l x e. absurd (cc);
  };
  item = λ page l e. absurd (cc);
  inside = λ a p e. absurd (cc);
  started = ended.0;
  ended = ended.1;
}

-- The loop over all heaps.
cleared :
    {nprocs : ℕ} (s : State)
    → ((h : ℕ) → nprocs < h → IsClear (s.heaps h))
    → ((h t : ℕ) → n_sizes ≤ t → (s.heaps h).sizebases t ≡ null)
    → Aligned s.dseg
    → IsHeap (clear_heaps (nprocs + 1) 0 s) empty
cleared {nprocs} s bare past ended =
    clear-IsHeap _
      (clear_heaps-IsClear (nprocs + 1) 0 s (λ h far. bare h (omega (arith, far (omega arith))))
        past)
      (rw (clear_heaps-dseg (nprocs + 1) 0 s) ended)

mem_sbrk-Aligned :
    (n : ℕ) (d : Dseg)
    → 0 < n
    → n % superblock_page_size ≡ 0
    → Aligned d
    → Returns (λ (r : ℕ × Dseg). Aligned r.1) (mem_sbrk n d)
unfolding mem_sbrk
mem_sbrk-Aligned n d pos whole e =
    let positive : (n == 0) ≡ false = ground arith in
    elim (Bool-cases (ltb (d.dseg_lo + d.dseg_size + 1) (d.dseg_end + n))) [
      | inl over ↦ rw (positive, over) e
      | inr fits ↦ rw (positive, fits) (omega arith, omega arith)
    ]

lo_of : Option Dseg → ℕ
lo_of none = null
lo_of (some d) = d.dseg_lo

page_align_up_aligned :
    (page_size block : ℕ)
    → 0 < page_size
    → block ≢ null
    → page_align_up page_size block % page_size ≡ 0
unfolding mem_init lo_of
page_align_up_aligned n block pos ne =
    let (d, e, valid, aligned, at_lo, above, below) = mem_init-IsSegment n block pos ne in
    let f : (block == null) ≡ false = ground arith in let z = rw f at e in rw (ap lo_of z) aligned

align_dseg-Aligned :
    (d : Dseg)
    → d.dseg_lo % 4096 ≡ 0
    → d.dseg_end ≡ d.dseg_lo
    → 4096 ≤ d.dseg_size
    → Returns Aligned (align_dseg d)
unfolding align_dseg mem_sbrk
align_dseg-Aligned d aligned at_lo big =
    elim (Bool-cases (ltb 0 (d.dseg_lo % superblock_page_size))) [
      | inl odd ↦
          let positive : (d.dseg_lo % superblock_page_size == 0) ≡ false = ground arith in
          let fits : ltb (d.dseg_lo + d.dseg_size + 1)
                (d.dseg_end + d.dseg_lo % superblock_page_size)
              ≡ false =
            ground arith in
          rw (odd, positive, fits, at_lo) (omega arith, ground arith)
      | inr even ↦ rw even (omega arith, ground arith)
    ]

-- If the call succeeded, the heap is in order and has no pages.
abbrev pub Starts : Option State → Type 0
Starts none = Unit
Starts (some s) = IsHeap s empty

-- After `mm_init` with a page size that is a multiple of 4096, in a memory that is NULL past the
-- arrays, the heap is in order and has no pages, if the call succeeds.
pub mm_init-Starts :
    (page_size block nprocs : ℕ) (s : State)
    → 0 < page_size
    → page_size % 4096 ≡ 0
    → IsBare nprocs s
    → Returns Starts (mm_init page_size block nprocs s)
unfolding mm_init mem_init heap_pages
mm_init-Starts page_size block nprocs s pos whole (bare, past) = elim (Bool-cases (block == null)) [
  | inl t ↦ rw (t, Returns) tt
  | inr f ↦
      let aligned = page_align_up_aligned page_size block pos (ground arith) in
      rw (f, Returns)
        (Returns-bind Aligned Starts (align_dseg first) _
          (align_dseg-Aligned first (multiple_aligned _ page_size whole aligned) refl (omega arith))
          (λ d1 a1.
            Returns-bind (λ (r : ℕ × Dseg). Aligned r.1) Starts (mem_sbrk array_size d1) _
              (mem_sbrk-Aligned array_size d1 (omega arith) (omega arith) a1)
              (λ (array, d2) a2. elim (Bool-cases (array == null)) [
                | inl z ↦ rw (z, Returns) tt
                | inr o ↦
                    rw (o, Returns)
                      (cleared
                        (record s { dseg = d2; number_of_processors = nprocs; heap_array = array })
                        bare past a2)
              ])))
]
  where
    first : Dseg
    first = record {
      dseg_lo = page_align_up page_size block;
      dseg_end = page_align_up page_size block;
      dseg_size = dseg_max;
      page_size = page_size;
    }

    array_size : ℕ
    array_size = heap_pages nprocs * superblock_page_size
