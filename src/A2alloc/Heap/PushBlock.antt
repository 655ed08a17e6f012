-- ===== src/A2alloc/Heap/PushBlock.antt =====
-- A block put back on its page, and a page put back on the list of its size class.
use parallel_memory_allocato.Base.{
  ℕ, ◌+◌, ◌≡◌, refl, ◌∙◌, true, false, Bool-cases, inl, inr, List, ◌∷◌, ◌==◌, has, arith,
}
use parallel_memory_allocato.Memlib.{null}
use parallel_memory_allocato.A2alloc.Sizes.{page_of, sizeof_pageref}
use parallel_memory_allocato.A2alloc.State.{State, complete, sized, put_page, put_cell, unlink}
use parallel_memory_allocato.A2alloc.Free.{reopen_page, push_block}
use parallel_memory_allocato.A2alloc.Blocks.Carve.{fresh_blocks}
use parallel_memory_allocato.A2alloc.Blocks.Ops.{push_block-HasBlocks}
use parallel_memory_allocato.A2alloc.Heap.{page_data, IsClass}
use parallel_memory_allocato.A2alloc.Heap.Count.{block_index}
use parallel_memory_allocato.A2alloc.Heap.Frame.{
  Touches, nothing, only, Touches-trans, put_page-Touches, put_cell-Touches, unlink-Touches,
  set_prev-Touches, push_front-Touches,
}
use parallel_memory_allocato.A2alloc.Heap.Keep.{IsClass-frame}

pub push_block-Touches :
    (s : State) (ptr : ℕ) → Touches (only (page_of ptr)) s (push_block s (page_of ptr) ptr)
unfolding push_block
push_block-Touches s ptr =
    let r = s.pages (page_of ptr) in
    Touches-trans (only (page_of ptr)) s (put_cell s ptr r.flist) _
      (put_cell-Touches s (page_of ptr) ptr r.flist refl)
      (put_page-Touches (put_cell s ptr r.flist) (page_of ptr)
        (record r { flist = ptr; count = r.count + 1 }))

pub push_block-class :
    (s : State) (page ptr : ℕ)
    → ((push_block s page ptr).pages page).block_type ≡ (s.pages page).block_type
unfolding push_block put_page put_cell
push_block-class s page ptr = ground arith

pub push_block-heap :
    (s : State) (page ptr : ℕ)
    → ((push_block s page ptr).pages page).heap_id ≡ (s.pages page).heap_id
unfolding push_block put_page put_cell
push_block-heap s page ptr = ground arith

pub push_block-IsClass :
    (s : State) (page ptr h : ℕ) (bs : List ℕ)
    → IsClass s.cells (page_data (s.pages page)) bs page h
    → has ptr (fresh_blocks page (s.pages page).block_type) ≡ true
    → has ptr bs ≡ false
    → IsClass
        (push_block s page ptr).cells
        (page_data ((push_block s page ptr).pages page))
        (ptr ∷ bs)
        page
        h
push_block-IsClass s page ptr h bs c m out =
    let (i, lt, e) = block_index (page + sizeof_pageref) _ _ ptr m in
    let b =
      push_block-HasBlocks s page ptr bs
        (record { chain = c.chain; counted = c.counted; distinct = c.distinct }) (omega arith)
        out in
    record {
      class = rw (push_block-class s page ptr) c.class;
      heap = push_block-heap s page ptr ∙ c.heap;
      chain = b.chain;
      counted = b.counted;
      distinct = b.distinct;
      legit = λ a q. rw (push_block-class s page ptr) (legit_cons a q);
    }
  where
    legit_cons :
        (a : ℕ)
        → has a (ptr ∷ bs) ≡ true
        → has a (fresh_blocks page (s.pages page).block_type) ≡ true
    legit_cons a q = elim (Bool-cases (a == ptr)) [
      | inl t ↦ let z : a ≡ ptr = ground arith in rw z m
      | inr f ↦ c.legit a (ground arith)
    ]

pub IsClass-same :
    (s s' : State) (bs : List ℕ) (page h : ℕ)
    → Touches nothing s s'
    → IsClass s.cells (page_data (s.pages page)) bs page h
    → IsClass s'.cells (page_data (s'.pages page)) bs page h
IsClass-same s s' bs page h t c = rw (t.data_eq page refl) (
    IsClass-frame s.cells s'.cells (page_data (s.pages page)) bs page h (λ b m. t.cells_eq b refl)
      c)

pub reopen_page-Touches : (s : State) (h t page : ℕ) → Touches nothing s (reopen_page s h t page)
unfolding reopen_page
reopen_page-Touches s h t page =
    let s1 = unlink s (complete h) page in
    let s2 = put_page s1 page (record (s1.pages page) { prev = null }) in
    Touches-trans nothing s s2 _
      (Touches-trans nothing s s1 s2 (unlink-Touches s (complete h) page)
        (set_prev-Touches s1 page null))
      (push_front-Touches s2 (sized h t) page)
