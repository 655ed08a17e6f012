-- ===== src/Kheap/Subpage/Blocks.antt =====
-- The free blocks of a page of kheap.c.
use parallel_memory_allocato.Base.{ℕ, ◌+◌, ◌-◌, ◌≡◌, ◌≢◌, refl, true, false, ok, ◌==◌, arith}
use parallel_memory_allocato.Memlib.{null}
use parallel_memory_allocato.Kheap.State.{State, put_ref, put_cell}
use parallel_memory_allocato.Kheap.Subpage.{doalloc_check, doalloc, fill_deadbeef, put_back}

-- A block that is put back on its page is the next one that `doalloc` hands out, the asserts of
-- `doalloc` hold if they do for the page before, and the page reference is then as before.
pub doalloc-put_back :
    (s : State) (pr ptr : ℕ)
    → ptr ≢ null
    → doalloc_check (s.refs pr) ptr ≡ true
    → (s' : State) × (doalloc (put_back s pr ptr) pr ≡ ok (ptr, s')) × (s'.refs pr ≡ s.refs pr)
unfolding doalloc put_back put_ref put_cell doalloc_check fill_deadbeef
doalloc-put_back s pr ptr nn check =
    let ne : (ptr == null) ≡ false = ground arith in
    let self : (pr == pr) ≡ true = ground arith in
    let selfp : (ptr == ptr) ≡ true = ground arith in
    let n : (s.refs pr).nfree + 1 - 1 ≡ (s.refs pr).nfree = omega arith in
    (put_ref (put_back s pr ptr) pr (s.refs pr), rw (self, ne, selfp, n, check) refl, rw self refl)
