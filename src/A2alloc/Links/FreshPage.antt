-- ===== src/A2alloc/Links/FreshPage.antt =====
-- `malloc_page` of a page that is on no list, and the page that `find_page` finds for it.
use parallel_memory_allocato.Base.{
  ℕ, zero, suc, ◌+◌, ◌-◌, ◌≡◌, ◌≢◌, ◌<◌, refl, true, Option, none, some, List, ◌∷◌, has, arith, ◌∙◌,
  ap, Returns,
}
use parallel_memory_allocato.Memlib.{null}
use parallel_memory_allocato.A2alloc.Sizes.{n_sizes, sizeof_pageref, size_of, capacity}
use parallel_memory_allocato.A2alloc.State.{
  State, PageRef, Loc, free, complete, large, sized, head, put_page, put_cell,
}
use parallel_memory_allocato.A2alloc.Malloc.{link_blocks, carve, malloc_page}
use parallel_memory_allocato.A2alloc.Blocks.Ops.{popped, pop_block-popped}
use parallel_memory_allocato.A2alloc.Blocks.Carve.{link_blocks-pages, carve-flist}
use parallel_memory_allocato.A2alloc.Links.{links, IsLinked, set_list, set_place}
use parallel_memory_allocato.A2alloc.Links.Segment.{Segment-frame, not_on, ne_of_has}
use parallel_memory_allocato.A2alloc.Links.Ops.{push_front-IsLinked}

link_blocks-heaps : (n i base size : ℕ) (s : State) → (link_blocks n i base size s).heaps ≡ s.heaps
unfolding link_blocks put_cell
link_blocks-heaps zero i base size s = refl
link_blocks-heaps (suc n) i base size s = link_blocks-heaps n (i + 1) base size _

pub carve_other : (s : State) (page h t a : ℕ) → a ≢ page → (carve s page h t).pages a ≡ s.pages a
unfolding carve put_page put_cell
carve_other s page h t a ne =
    rw (link_blocks-pages (capacity t - 1) 1 (page + sizeof_pageref) (size_of t) _) (ground arith)

carve_prev : (s : State) (page h t : ℕ) → ((carve s page h t).pages page).prev ≡ null
unfolding carve put_page put_cell
carve_prev s page h t =
    rw (link_blocks-pages (capacity t - 1) 1 (page + sizeof_pageref) (size_of t) _) (ground arith)

pub carve-heaps : (s : State) (page h t : ℕ) → (carve s page h t).heaps ≡ s.heaps
unfolding carve put_page put_cell
carve-heaps s page h t = link_blocks-heaps (capacity t - 1) 1 (page + sizeof_pageref) (size_of t) _

pub head_of_heaps : (s s' : State) (j : Loc) → s'.heaps ≡ s.heaps → head s' j ≡ head s j
unfolding head
head_of_heaps s s' (free k) e = rw e refl
head_of_heaps s s' (complete k) e = rw e refl
head_of_heaps s s' (large k) e = rw e refl
head_of_heaps s s' (sized k u) e = rw e refl

pub popped_other : (s : State) (page a : ℕ) → a ≢ page → (popped s page).pages a ≡ s.pages a
unfolding popped put_page
popped_other s page a ne = ground arith

popped_prev : (s : State) (page : ℕ) → ((popped s page).pages page).prev ≡ (s.pages page).prev
unfolding popped put_page
popped_prev s page = ground arith

pub popped-heaps : (s : State) (page : ℕ) → (popped s page).heaps ≡ s.heaps
unfolding popped put_page
popped-heaps s page = refl

module _ (s : State) {lists : Loc → List ℕ} {place : ℕ → Option Loc}
    (v : IsLinked (links s) lists place) where
  -- A change of a page that is on no list.
  pub spared-IsLinked :
      (s' : State) (x : ℕ)
      → place x ≡ none
      → ((a : ℕ) → a ≢ x → s'.pages a ≡ s.pages a)
      → s'.heaps ≡ s.heaps
      → IsLinked (links s') lists place
  spared-IsLinked s' x out same heads = record {
    segment = λ l. rw (head_of_heaps s s' l heads) (
        Segment-frame _ _ _ _ _ null (head s l) (lists l) (v.segment l)
          (λ a m. ap (λ (q : PageRef). q.next) (same a (apart l a m)))
          (λ a m t. ap (λ (q : PageRef). q.prev) (same a (apart l a m))));
    distinct = v.distinct;
    placed = v.placed;
    listed = v.listed;
  }
    where
      apart : (l : Loc) (a : ℕ) → has a (lists l) ≡ true → a ≢ x
      apart l a m = ne_of_has a x (lists l) (not_on v x out l) m

module _ (s : State) {lists : Loc → List ℕ} {place : ℕ → Option Loc}
    (v : IsLinked (links s) lists place) where
  -- In a state whose lists of pages are linked, `malloc_page` of a page that is on no list, for a
  -- size class, returns, and links the lists again, with the page the first of its size class.
  pub malloc_page-IsLinked :
      (h t page : ℕ)
      → t < n_sizes
      → place page ≡ none
      → page ≢ null
      → Returns
          (λ r.
            IsLinked
              (links r.1)
              (set_list lists (sized h t) (page ∷ lists (sized h t)))
              (set_place place page (some (sized h t))))
          (malloc_page s h t page)
  unfolding malloc_page
  malloc_page-IsLinked h t page lt out nn =
      let c = carve s page h t in
      let w = spared-IsLinked s v c page out (carve_other s page h t) (carve-heaps s page h t) in
      let w2 =
        spared-IsLinked c w (popped c page) page out (popped_other c page) (popped-heaps c page) in
      rw (pop_block-popped c page (rw (carve-flist s page h t) (omega arith))) (
        push_front-IsLinked (popped c page) w2 (sized h t) page out nn
          (λ e. popped_prev c page ∙ carve_prev s page h t))
