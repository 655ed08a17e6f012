-- ===== src/A2alloc/State.antt =====
-- The data structures of a2alloc.c and the accesses to them. An address is a number. The memory is
-- three maps: the `struct pageref` at the start of a page, the `struct heap` with an index in
-- `heap_array`, and the word `next` of a `struct freelist` in a free block.
use parallel_memory_allocato.Base.{ℕ, ◌==◌, if◌then◌else◌}
use parallel_memory_allocato.Memlib.{Dseg, null}

-- `struct pageref`. Of the type `int` are `block_type`, `count` and `heap_ID`.
pub record PageRef : Type 0 where
  pub next : ℕ
  pub prev : ℕ
  pub flist : ℕ
  pub block_type : ℕ
  pub count : ℕ
  pub heap_id : ℕ

-- `struct heap` without its spinlocks and its padding.
pub record Heap : Type 0 where
  pub n_free_pages : ℕ
  pub free_pages : ℕ
  pub complete_pages : ℕ
  pub large_pages : ℕ
  pub sizebases : ℕ → ℕ

-- The global variables and the memory. The array `heap_array` begins at the address `heap_array`,
-- and `heaps i` is `heap_array[i]`.
pub record State : Type 0 where
  pub dseg : Dseg
  pub number_of_processors : ℕ
  pub heap_array : ℕ
  pub heaps : ℕ → Heap
  pub pages : ℕ → PageRef
  pub cells : ℕ → ℕ

-- Writes to a page's header, to a heap and to a free block.
unfoldable pub put_page : State → ℕ → PageRef → State
put_page s p r = record s { pages = λ a. if a == p then r else s.pages a }

unfoldable pub put_heap : State → ℕ → Heap → State
put_heap s h r = record s { heaps = λ a. if a == h then r else s.heaps a }

unfoldable pub put_cell : State → ℕ → ℕ → State
put_cell s b v = record s { cells = λ a. if a == b then v else s.cells a }

-- The lists of pages that the fields of `struct heap` head.
pub data Loc : Type 0 where
  free : ℕ → Loc
  complete : ℕ → Loc
  large : ℕ → Loc
  sized : ℕ → ℕ → Loc

-- The field that heads a list, read and written.
unfoldable pub head : State → Loc → ℕ
head s (free h) = (s.heaps h).free_pages
head s (complete h) = (s.heaps h).complete_pages
head s (large h) = (s.heaps h).large_pages
head s (sized h t) = (s.heaps h).sizebases t

unfoldable pub set_head : State → Loc → ℕ → State
unfolding put_heap
set_head s (free h) p = put_heap s h (record (s.heaps h) { free_pages = p })
set_head s (complete h) p = put_heap s h (record (s.heaps h) { complete_pages = p })
set_head s (large h) p = put_heap s h (record (s.heaps h) { large_pages = p })
set_head s (sized h t) p =
    put_heap s h
      (record (s.heaps h) { sizebases = λ i. if i == t then p else (s.heaps h).sizebases i })

-- `if (list != NULL) list->prev = page; page->next = list; list = page;`
unfoldable pub push_front : State → Loc → ℕ → State
unfolding put_page head set_head
push_front s l page =
    let first = head s l in
    let s1 =
      if first == null then s else put_page s first (record (s.pages first) { prev = page }) in
    let s2 = put_page s1 page (record (s1.pages page) { next = first }) in set_head s2 l page

-- `if (page->next != NULL) page->next->prev = page->prev;` and then
-- `if (page->prev != NULL) page->prev->next = page->next; else list = page->next;`
unfoldable pub unlink : State → Loc → ℕ → State
unfolding put_page set_head
unlink s l page =
    let after = (s.pages page).next in
    let s1 =
      if after == null
      then s
      else put_page s after (record (s.pages after) { prev = (s.pages page).prev }) in
    let before = (s1.pages page).prev in
    let after' = (s1.pages page).next in
    if before == null
    then set_head s1 l after'
    else put_page s1 before (record (s1.pages before) { next = after' })
