-- ===== src/A2alloc/Links/Moves.antt =====
-- The operations of a2alloc.c that move a page from one list to another.
use parallel_memory_allocato.Base.{
  ℕ, ◌≡◌, ◌≢◌, refl, true, Option, none, some, List, ◌∷◌, ◌==◌, has, arith, if◌then◌else◌, ◌∙◌, ap,
}
use parallel_memory_allocato.Memlib.{null}
use parallel_memory_allocato.A2alloc.State.{
  State, PageRef, Loc, free, complete, large, sized, head, set_head, put_page, put_heap, push_front,
  unlink,
}
use parallel_memory_allocato.A2alloc.Malloc.{move_page_complete}
use parallel_memory_allocato.A2alloc.Free.{reopen_page}
use parallel_memory_allocato.A2alloc.Links.{links, IsLinked, both_ways, loc_eq, set_list, set_place}
use parallel_memory_allocato.A2alloc.Links.Segment.{
  Segment-frame, Segment-ne_null, not_on, ne_of_has,
}
use parallel_memory_allocato.A2alloc.Links.Unlink.{remove}
use parallel_memory_allocato.A2alloc.Links.Remove.{Removes, Removes-IsLinked, first_iff}
use parallel_memory_allocato.A2alloc.Links.Ops.{head-put_page, push_front-IsLinked, unlink-IsLinked}

put_page_other :
    (s : State) (x a : ℕ) (r : PageRef) → a ≢ x → ((put_page s x r).pages a) ≡ s.pages a
unfolding put_page
put_page_other s x a r ne = ground arith

module _ (s : State) {lists : Loc → List ℕ} {place : ℕ → Option Loc}
    (v : IsLinked (links s) lists place) where
  -- The header of a page that is on no list.
  pub put_page-IsLinked :
      (x : ℕ) (r : PageRef) → place x ≡ none → IsLinked (links (put_page s x r)) lists place
  put_page-IsLinked x r out = record {
    segment = λ l. rw (head-put_page s x r l) (
        Segment-frame _ _ _ _ (both_ways l) null (head s l) (lists l) (v.segment l)
          (λ a m. ap (λ (q : PageRef). q.next) (kept l a m))
          (λ a m t. ap (λ (q : PageRef). q.prev) (kept l a m)));
    distinct = v.distinct;
    placed = v.placed;
    listed = v.listed;
  }
    where
      kept : (l : Loc) (a : ℕ) → has a (lists l) ≡ true → (put_page s x r).pages a ≡ s.pages a
      kept l a m = put_page_other s x a r (ne_of_has a x (lists l) (not_on v x out l) m)

reopened : State → ℕ → ℕ → State
reopened s h page =
    let s1 = unlink s (complete h) page in put_page s1 page (record (s1.pages page) { prev = null })

reopened-prev : (s : State) (h page : ℕ) → ((reopened s h page).pages page).prev ≡ null
unfolding reopened put_page
reopened-prev s h page = ground arith

reopen_page-eq :
    (s : State) (h t page : ℕ)
    → reopen_page s h t page ≡ push_front (reopened s h page) (sized h t) page
unfolding reopen_page reopened
reopen_page-eq s h t page = refl

pub taken_place : (place : ℕ → Option Loc) (page : ℕ) → set_place place page none page ≡ none
taken_place place page = ground arith

-- The state of `move_page_complete` before the page is pushed on `complete_pages`.
detached : State → ℕ → ℕ → ℕ → State
detached s h t page =
    let after = (s.pages page).next in
    let s1 =
      if after == null then s else put_page s after (record (s.pages after) { prev = null }) in
    let s2 = set_head s1 (sized h t) (s1.pages page).next in
    put_page s2 page (record (s2.pages page) { prev = null; next = null })

move_page_complete-eq :
    (s : State) (h t page : ℕ)
    → move_page_complete s h t page ≡ push_front (detached s h t page) (complete h) page
unfolding move_page_complete detached
move_page_complete-eq s h t page = refl

detached-next :
    (s : State) (h t page a : ℕ)
    → a ≢ page
    → ((detached s h t page).pages a).next ≡ (s.pages a).next
unfolding detached put_page set_head put_heap
detached-next s h t page a ne = ground arith

detached-prev :
    (s : State) (h t page a : ℕ)
    → a ≢ page
    → a ≢ null
    → ((detached s h t page).pages a).prev
      ≡ (if a == (s.pages page).next then null else (s.pages a).prev)
unfolding detached put_page set_head put_heap
detached-prev s h t page a ne nn = ground arith

detached_prev_self : (s : State) (h t page : ℕ) → ((detached s h t page).pages page).prev ≡ null
unfolding detached put_page set_head put_heap
detached_prev_self s h t page = ground arith

head-detached :
    (s : State) (h t page : ℕ) (j : Loc)
    → head (detached s h t page) j
      ≡ (if loc_eq (sized h t) j then (s.pages page).next else head s j)
unfolding detached put_page set_head put_heap head
head-detached s h t page (free k) = ground arith
head-detached s h t page (complete k) = ground arith
head-detached s h t page (large k) = ground arith
head-detached s h t page (sized k u) = ground arith

detached-Removes :
    (s : State) (h t page : ℕ)
    → head s (sized h t) ≡ page
    → (s.pages page).prev ≡ null
    → Removes (links s) (links (detached s h t page)) (sized h t) page
detached-Removes s h t page first none_before = record {
  pages = record {
    next_eq = λ a n m. detached-next s h t page a n ∙ rw none_before (ground arith);
    prev_eq = λ a n m. detached-prev s h t page a n m ∙ rw none_before refl;
  };
  head_eq = λ j. head-detached s h t page j ∙ ground (arith, first);
}

module _ (s : State) {lists : Loc → List ℕ} {place : ℕ → Option Loc}
    (v : IsLinked (links s) lists place) where
  -- In a state whose lists of pages are linked, `reopen_page` of a page of `complete_pages` moves it
  -- to the front of the list of its size class, and the lists are linked again.
  pub reopen_page-IsLinked :
      (h t page : ℕ)
      → has page (lists (complete h)) ≡ true
      → IsLinked
          (links (reopen_page s h t page))
          (set_list
            (set_list lists (complete h) (remove page (lists (complete h))))
            (sized h t)
            (page ∷ lists (sized h t)))
          (set_place (set_place place page none) page (some (sized h t)))
  unfolding reopened put_page
  reopen_page-IsLinked h t page m =
      let w =
        put_page-IsLinked (unlink s (complete h) page)
          (unlink-IsLinked s v (complete h) page refl m) page
          (record ((unlink s (complete h) page).pages page) { prev = null })
          (taken_place place page) in
      rw (reopen_page-eq s h t page) (
        push_front-IsLinked (reopened s h page) w (sized h t) page (taken_place place page)
          (Segment-ne_null _ _ _ _ _ page (lists (complete h)) (v.segment (complete h)) m)
          (λ e. reopened-prev s h page))

  -- In a state whose lists of pages are linked, `move_page_complete` of the first page of a size
  -- class moves it to the front of `complete_pages`, and the lists are linked again.
  pub move_page_complete-IsLinked :
      (h t page : ℕ)
      → head s (sized h t) ≡ page
      → has page (lists (sized h t)) ≡ true
      → IsLinked
          (links (move_page_complete s h t page))
          (set_list
            (set_list lists (sized h t) (remove page (lists (sized h t))))
            (complete h)
            (page ∷ lists (complete h)))
          (set_place (set_place place page none) page (some (complete h)))
  move_page_complete-IsLinked h t page first m =
      let none_before : (s.pages page).prev ≡ null =
        ground (arith, first_iff v (sized h t) page refl m, first) in
      let w =
        Removes-IsLinked v (links (detached s h t page)) (sized h t) page
          (detached-Removes s h t page first none_before) refl m in
      rw (move_page_complete-eq s h t page) (
        push_front-IsLinked (detached s h t page) w (complete h) page (taken_place place page)
          (Segment-ne_null _ _ _ _ _ page (lists (sized h t)) (v.segment (sized h t)) m)
          (λ e. detached_prev_self s h t page))
