-- ===== src/A2alloc/Links/Relocate.antt =====
-- The first half of `send_page_global`: the page off its heap's list.
use parallel_memory_allocato.Base.{
  ℕ, ◌≡◌, ◌≢◌, refl, false, Option, none, List, ◌∷◌, ◌==◌, arith, ok,
}
use parallel_memory_allocato.Memlib.{null}
use parallel_memory_allocato.A2alloc.Sizes.{global_heap_id}
use parallel_memory_allocato.A2alloc.State.{State, Loc, free, head, put_page}
use parallel_memory_allocato.A2alloc.Relocate.{pop_free, push_free, send_page_global}
use parallel_memory_allocato.A2alloc.Links.{links, IsLinked, set_list, set_place}
use parallel_memory_allocato.A2alloc.Links.Moves.{put_page-IsLinked, taken_place}
use parallel_memory_allocato.A2alloc.Links.FreePages.{pop_free-IsLinked}

-- The header that `send_page_global` writes.
unfoldable pub sent : State → ℕ → State
sent s h =
    let page = (s.heaps h).free_pages in
    let s1 = pop_free s h in
    put_page s1 page (record (s1.pages page) { prev = null; heap_id = global_heap_id })

pub send_page_global-eq :
    (s : State) (h x : ℕ)
    → head s (free h) ≡ x
    → x ≢ null
    → send_page_global s h ≡ ok (push_free (sent s h) global_heap_id x)
unfolding send_page_global sent head
send_page_global-eq s h x e nn =
    let f : ((s.heaps h).free_pages == null) ≡ false = ground arith in rw (f, e) refl

module _ (s : State) {lists : Loc → List ℕ} {place : ℕ → Option Loc}
    (v : IsLinked (links s) lists place) where
  pub sent-IsLinked :
      (h x : ℕ) (xs : List ℕ)
      → head s (free h) ≡ x
      → lists (free h) ≡ x ∷ xs
      → IsLinked (links (sent s h)) (set_list lists (free h) xs) (set_place place x none)
  unfolding sent head
  sent-IsLinked h x xs first e = rw (first) (
      put_page-IsLinked (pop_free s h) (pop_free-IsLinked s v h x xs e) x
        (record ((pop_free s h).pages x) { prev = null; heap_id = global_heap_id })
        (taken_place place x))
