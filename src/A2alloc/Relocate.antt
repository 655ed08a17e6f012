-- ===== src/A2alloc/Relocate.antt =====
-- The page relocation functions of a2alloc.c. Each lock protects the accesses between its calls,
-- and a function here is a run of its source with no other thread in between.
use parallel_memory_allocato.Base.{
  ℕ, ◌+◌, ◌-◌, ◌&&◌, Outcome, ok, stop, Stop, ltb, ◌==◌, if◌then◌else◌,
}
use parallel_memory_allocato.Memlib.{null}
use parallel_memory_allocato.A2alloc.Sizes.{global_heap_id, blocktype_free, free_page_threshold}
use parallel_memory_allocato.A2alloc.State.{State, put_page, put_heap}

-- `page = h->free_pages; h->free_pages = h->free_pages->next; h->n_free_pages--;`, where the list
-- is known not to be empty. From 0 the
-- int would step to -1, where the model's counter stays 0.
unfoldable pub pop_free : State → ℕ → State
unfolding put_heap
pop_free s h =
    let r = s.heaps h in
    put_heap s h
      (record r { n_free_pages = r.n_free_pages - 1; free_pages = (s.pages r.free_pages).next })

-- `page->next = h->free_pages; h->free_pages = page; h->n_free_pages++;`
unfoldable pub push_free : State → ℕ → ℕ → State
unfolding put_page put_heap
push_free s h page =
    let s1 = put_page s page (record (s.pages page) { next = (s.heaps h).free_pages }) in
    let r = s1.heaps h in
    put_heap s1 h (record r { free_pages = page; n_free_pages = r.n_free_pages + 1 })

-- The branch of `move_page_global` that moves a page. `h->free_pages->next` is read with no test
-- of `h->free_pages`.
unfoldable pub send_page_global : State → ℕ → Outcome State
unfolding pop_free push_free put_page
send_page_global s h =
    let page = (s.heaps h).free_pages in
    let s1 = pop_free s h in
    let s2 = put_page s1 page (record (s1.pages page) { prev = null; heap_id = global_heap_id }) in
    if page == null then stop Stop.null_read else ok (push_free s2 global_heap_id page)

unfoldable pub move_page_global : State → ℕ → Outcome State
unfolding send_page_global
move_page_global s h =
    if ltb 1 s.number_of_processors && ltb free_page_threshold (s.heaps h).n_free_pages
    then send_page_global s h
    else ok s

unfoldable pub move_page_free : State → ℕ → ℕ → Outcome State
unfolding move_page_global push_free put_page
move_page_free s page h =
    let s1 = put_page s page (record (s.pages page) { prev = null; block_type = blocktype_free }) in
    move_page_global (push_free s1 h page) h
