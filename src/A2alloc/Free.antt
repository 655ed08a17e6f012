-- ===== src/A2alloc/Free.antt =====
-- `large_free`, `small_free` and `mm_free` of a2alloc.c.
use parallel_memory_allocato.Base.{
  ℕ, zero, suc, ◌+◌, ◌-◌, Outcome, ok, stop, Stop, ◌==◌, if◌then◌else◌,
}
use parallel_memory_allocato.Memlib.{null}
use parallel_memory_allocato.A2alloc.Sizes.{
  blocktype_free, blocktype_large, superblock_page_size, capacity, page_of,
}
use parallel_memory_allocato.A2alloc.State.{
  State, complete, large, sized, put_page, put_heap, put_cell, push_front, unlink,
}
use parallel_memory_allocato.A2alloc.Relocate.{move_page_global, move_page_free}

-- The loop that cuts a large block into pages, for the rounds left: the page at `prpage` becomes a
-- free page of the block's heap and the new tail. It returns the tail.
unfoldable pub chop : ℕ → ℕ → ℕ → ℕ → State → ℕ × State
unfolding put_page
chop zero page tail prpage s = (tail, s)
chop (suc n) page tail prpage s =
    let s1 = put_page s prpage (record (s.pages prpage) {
      prev = null;
      block_type = blocktype_free;
      heap_id = (s.pages page).heap_id;
    }) in
    let s2 = put_page s1 tail (record (s1.pages tail) { next = prpage }) in
    chop n page prpage (prpage + superblock_page_size) s2

-- The splice of the pages from `page` to `tail` in front of `free_pages`.
unfoldable pub splice_free : State → ℕ → ℕ → ℕ → State
unfolding put_page put_heap
splice_free s h page tail =
    let first = (s.heaps h).free_pages in
    let s1 =
      if first == null then s else put_page s first (record (s.pages first) { prev = tail }) in
    let s2 = put_page s1 tail (record (s1.pages tail) { next = first }) in
    let r = s2.heaps h in
    put_heap s2 h
      (record r { free_pages = page; n_free_pages = r.n_free_pages + (s2.pages page).count })

-- `prpage` starts as the address of the block's own first page.
unfoldable pub large_free : State → ℕ → ℕ → Outcome State
unfolding unlink put_page chop splice_free move_page_global
large_free s h page =
    let s1 = unlink s (large h) page in
    let s2 = put_page s1 page (record (s1.pages page) { block_type = blocktype_free }) in
    let (tail, s3) = chop ((s2.pages page).count - 1) page page page s2 in
    let s4 = put_page s3 page (record (s3.pages page) { prev = null }) in
    move_page_global (splice_free s4 h page tail) h

-- The block goes to the front of its page's list of free blocks.
unfoldable pub push_block : State → ℕ → ℕ → State
unfolding put_cell put_page
push_block s page ptr =
    let r = s.pages page in
    put_page (put_cell s ptr r.flist) page (record r { flist = ptr; count = r.count + 1 })

-- The branch of `small_free` for a page whose blocks are all free.
unfoldable pub retire_page : State → ℕ → ℕ → ℕ → Outcome State
unfolding unlink put_page move_page_free
retire_page s h t page =
    let s1 = unlink s (sized h t) page in
    move_page_free (put_page s1 page (record (s1.pages page) { block_type = blocktype_free })) page
      h

-- The branch for a page whose only free block is the one just freed.
unfoldable pub reopen_page : State → ℕ → ℕ → ℕ → State
unfolding unlink put_page push_front
reopen_page s h t page =
    let s1 = unlink s (complete h) page in
    push_front (put_page s1 page (record (s1.pages page) { prev = null })) (sized h t) page

-- What `small_free` does after the block is back on its page.
unfoldable pub settle : State → ℕ → ℕ → ℕ → Outcome State
unfolding retire_page reopen_page
settle s h t page =
    let n = (s.pages page).count in
    if n == capacity t
    then retire_page s h t page
    else if n == 1
    then ok (reopen_page s h t page)
    else ok s

-- The header of a page at NULL is read: the call stops there.
unfoldable pub small_free : ℕ → State → Outcome State
unfolding page_of large_free push_block settle
small_free ptr s =
    let page = page_of ptr in
    let t = (s.pages page).block_type in
    let h = (s.pages page).heap_id in
    if page == null
    then stop Stop.null_read
    else if t == blocktype_free
    then ok s
    else if t == blocktype_large
    then large_free s h page
    else settle (push_block s page ptr) h t page

unfoldable pub mm_free : ℕ → State → Outcome State
unfolding small_free
mm_free ptr s = if ptr == null then ok s else small_free ptr s
