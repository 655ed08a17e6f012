-- ===== src/A2alloc/Malloc.antt =====
-- `small_malloc`, `large_malloc` and `mm_malloc` of a2alloc.c. A call that stops the process ends
-- in `stop`; otherwise it returns the pointer, NULL for failure, and the new state.
pub mod Wrap
use parallel_memory_allocato.Base.{
  ℕ, zero, suc, ◌+◌, ◌-◌, ◌*◌, ◌/◌, ◌%◌, ◌^◌, Outcome, ok, stop, Stop, ◌>>=◌, ltb, ◌==◌,
  if◌then◌else◌,
}
use parallel_memory_allocato.Memlib.{null, mem_sbrk}
use parallel_memory_allocato.A2alloc.Sizes.{
  global_heap_id, blocktype_large, superblock_page_size, largest_superblock_block_size,
  sizeof_pageref, size_of, capacity, get_block_type,
}
use parallel_memory_allocato.A2alloc.State.{
  State, complete, large, sized, head, set_head, put_page, put_cell, push_front,
}
use parallel_memory_allocato.A2alloc.Relocate.{pop_free}

-- `result = page_ref->flist; page_ref->flist = page_ref->flist->next; page_ref->count--;`. A NULL
-- `flist` is read through. From 0 the int would step to -1, where the model's counter stays 0.
unfoldable pub pop_block : State → ℕ → Outcome (ℕ × State)
unfolding put_page
pop_block s page =
    let r = s.pages page in
    if r.flist == null
    then stop Stop.null_read
    else ok (r.flist, put_page s page (record r { flist = s.cells r.flist; count = r.count - 1 }))

-- The branch of a page without free blocks: from the head of its list to `complete_pages`.
unfoldable pub move_page_complete : State → ℕ → ℕ → ℕ → State
unfolding put_page set_head push_front
move_page_complete s h t page =
    let after = (s.pages page).next in
    let s1 =
      if after == null then s else put_page s after (record (s.pages after) { prev = null }) in
    let s2 = set_head s1 (sized h t) (s1.pages page).next in
    let s3 = put_page s2 page (record (s2.pages page) { prev = null; next = null }) in
    push_front s3 (complete h) page

-- The branch of `small_malloc` that found a page with a free block in `sizebases`.
unfoldable pub malloc_sized : State → ℕ → ℕ → ℕ → Outcome (ℕ × State)
unfolding pop_block move_page_complete
malloc_sized s h t page = do
  (result, s1) ← pop_block s page
  ok (result, if (s1.pages page).count == 0 then move_page_complete s1 h t page else s1)

-- `if (h->free_pages) { … }`: the page taken, or NULL.
unfoldable pub take_free : State → ℕ → ℕ × State
unfolding pop_free
take_free s h =
    let page = (s.heaps h).free_pages in if page == null then (null, s) else (page, pop_free s h)

-- `mem_sbrk` on the state.
unfoldable pub sbrk : ℕ → State → Outcome (ℕ × State)
unfolding mem_sbrk
sbrk n s = do (p, d) ← mem_sbrk n s.dseg; ok (p, record s { dseg = d })

-- A page for `small_malloc`: of the heap, of the global heap, or a new one; NULL if there is none.
unfoldable pub find_page : State → ℕ → Outcome (ℕ × State)
unfolding take_free sbrk
find_page s h =
    let (page, s1) = take_free s h in
    let (page', s2) = if page == null then take_free s1 global_heap_id else (page, s1) in
    if page' == null then sbrk superblock_page_size s2 else ok (page', s2)

-- The loop that links the blocks of a page, for the rounds left from block `i` on:
-- `base + i * size` points to the block before it.
unfoldable pub link_blocks : ℕ → ℕ → ℕ → ℕ → State → State
unfolding put_cell
link_blocks zero i base size s = s
link_blocks (suc n) i base size s =
    link_blocks n (i + 1) base size (put_cell s (base + i * size) (base + (i - 1) * size))

-- The page information and the list of its blocks, down to `page_ref->flist = free_list`.
unfoldable pub carve : State → ℕ → ℕ → ℕ → State
unfolding put_page put_cell link_blocks
carve s page h t =
    let base = page + sizeof_pageref in
    let n = capacity t in
    let s1 =
      put_page s page
        (record (s.pages page) { block_type = t; count = n; heap_id = h; prev = null }) in
    let s2 = link_blocks (n - 1) 1 base (size_of t) (put_cell s1 base null) in
    put_page s2 page (record (s2.pages page) { flist = base + (n - 1) * size_of t })

-- The rest of `small_malloc`, with a page that is in no list.
unfoldable pub malloc_page : State → ℕ → ℕ → ℕ → Outcome (ℕ × State)
unfolding carve pop_block push_front
malloc_page s h t page = do
  (result, s1) ← pop_block (carve s page h t) page
  ok (result, push_front s1 (sized h t) page)

unfoldable pub small_malloc : ℕ → ℕ → State → Outcome (ℕ × State)
unfolding get_block_type head malloc_sized find_page malloc_page
small_malloc size h s = do
  t ← get_block_type size
  let page_ref = head s (sized h t)
  if page_ref == null
      then (do
        (page, s1) ← find_page s h
        if page == null then ok (null, s1) else malloc_page s1 h t page)
      else malloc_sized s h t page_ref

-- A number as a word of `w` bits.
abbrev pub word : ℕ → ℕ → ℕ
word w n = n % 2 ^ w

-- The conversion of an `int`, given by its bits, to `size_t`.
abbrev pub extend : ℕ → ℕ
extend n = if ltb n (2 ^ 31) then n else n + (2 ^ 64 - 2 ^ 32)

-- `npages` of `large_malloc`, as the bits of an int: the sum is computed in `size_t`.
unfoldable pub large_pages_needed : ℕ → ℕ
large_pages_needed size =
    word 32
      (word 64 (sizeof_pageref + extend size + superblock_page_size - 1) / superblock_page_size)

-- `mem_sbrk(npages * SUPERBLOCK_PAGE_SIZE)`, a product of ints that wraps; `mem_sbrk` asserts that
-- its argument is positive.
unfoldable pub sbrk_pages : ℕ → State → Outcome (ℕ × State)
unfolding sbrk
sbrk_pages npages s =
    let increment = word 32 (npages * superblock_page_size) in
    if ltb increment (2 ^ 31) then sbrk increment s else stop Stop.assert_failure

-- `size` is the argument's bits.
unfoldable pub large_malloc : ℕ → ℕ → State → Outcome (ℕ × State)
unfolding large_pages_needed sbrk_pages put_page push_front
large_malloc size h s = do
  let npages = large_pages_needed size
  (page, s1) ← sbrk_pages npages s
  if page == null
      then ok (null, s1)
      else ok (
        page + sizeof_pageref,
        push_front
            (put_page s1 page (record (s1.pages page) {
              block_type = blocktype_large;
              count = npages;
              prev = null;
              heap_id = h;
            }))
            (large h) page,
      )

-- `cpu` is what `sched_getcpu` returned. `large_malloc` takes an int: the size loses its high bits.
unfoldable pub mm_malloc : ℕ → ℕ → State → Outcome (ℕ × State)
unfolding small_malloc large_malloc
mm_malloc cpu size s =
    let heap_id = cpu % s.number_of_processors + 1 in
    if ltb largest_superblock_block_size size
    then large_malloc (word 32 size) heap_id s
    else small_malloc size heap_id s
