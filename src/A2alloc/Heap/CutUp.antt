-- ===== src/A2alloc/Heap/CutUp.antt =====
-- A large block cut into pages that are spliced into a list of free pages.
use parallel_memory_allocato.Base.{
  ℕ, ◌≡◌, ◌≢◌, refl, ap, ◌∙◌, Bool, false, ◌==◌, has, if◌then◌else◌, arith,
}
use parallel_memory_allocato.Memlib.{null}
use parallel_memory_allocato.A2alloc.State.{
  State, PageRef, Loc, free, complete, large, sized, head, put_page, put_heap,
}
use parallel_memory_allocato.A2alloc.Free.{chop, splice_free}
use parallel_memory_allocato.A2alloc.Links.{links, loc_eq}
use parallel_memory_allocato.A2alloc.Links.Splice.{Splices}
use parallel_memory_allocato.A2alloc.Links.Segment.{ne_of_has}
use parallel_memory_allocato.A2alloc.Links.FreshPage.{head_of_heaps}
use parallel_memory_allocato.A2alloc.Heap.{page_data}
use parallel_memory_allocato.A2alloc.Heap.Frame.{
  Touches, nothing, Touches-intro, Touches-trans, Touches-any, set_prev_if-Touches,
  set_prev-Touches, set_next-Touches,
}
use parallel_memory_allocato.A2alloc.Heap.Chop.{
  pieces, pieces-IsDistinct, chop-SameElsewhere, closed, start-Run, start_end, start_other, Run-ext,
}

splice-next :
    (s : State) (h page tail a : ℕ)
    → ((splice_free s h page tail).pages a).next
      ≡ (if a == tail then head s (free h) else (s.pages a).next)
unfolding splice_free put_page put_heap head
splice-next s h page tail a = ground arith

splice-prev :
    (s : State) (h page tail a : ℕ)
    → a ≢ head s (free h)
    → ((splice_free s h page tail).pages a).prev ≡ (s.pages a).prev
unfolding splice_free put_page put_heap head
splice-prev s h page tail a ne = ground arith

head-splice :
    (s : State) (h page tail : ℕ) (j : Loc)
    → head (splice_free s h page tail) j ≡ (if loc_eq (free h) j then page else head s j)
unfolding splice_free put_page put_heap head
head-splice s h page tail (free k) = ground arith
head-splice s h page tail (complete k) = ground arith
head-splice s h page tail (large k) = ground arith
head-splice s h page tail (sized k u) = ground arith

splice-Touches : (s : State) (h page tail : ℕ) → Touches nothing s (splice_free s h page tail)
unfolding splice_free put_heap
splice-Touches s h page tail =
    let first = (s.heaps h).free_pages in
    let s1 =
      if first == null then s else put_page s first (record (s.pages first) { prev = tail }) in
    let s2 = put_page s1 tail (record (s1.pages tail) { next = first }) in
    Touches-trans nothing s s2 _
      (Touches-trans nothing s s1 s2 (set_prev_if-Touches s first tail)
        (set_next-Touches s1 tail first))
      (Touches-intro nothing s2 _ (λ a o. refl) (λ b o. refl) refl)

-- `new_header->prev = NULL;`
clear : State → ℕ → State
clear s page = put_page s page (record (s.pages page) { prev = null })

clear-next : (s : State) (page a : ℕ) → ((clear s page).pages a).next ≡ (s.pages a).next
unfolding clear put_page
clear-next s page a = ground arith

clear_other : (s : State) (page a : ℕ) → a ≢ page → (clear s page).pages a ≡ s.pages a
unfolding clear put_page
clear_other s page a ne = ground arith

clear-heaps : (s : State) (page : ℕ) → (clear s page).heaps ≡ s.heaps
unfolding clear put_page
clear-heaps s page = refl

clear-Touches : (s : State) (page : ℕ) → Touches nothing s (clear s page)
unfolding clear
clear-Touches s page = set_prev-Touches s page null

-- The block cut up and spliced into the list of free pages of the heap `h`.
unfoldable pub cut_up : State → ℕ → ℕ → ℕ → State
unfolding clear
cut_up s h page n = let cut = chop n page page page s in splice_free (clear cut.1 page) h page cut.0

module _ (s : State) (h page n : ℕ) where
  abbrev loop : ℕ × State
  loop = chop n page page page s

  clear-heads : (j : Loc) → head (clear loop.1 page) j ≡ head s j
  clear-heads j =
      head_of_heaps s (clear loop.1 page) j
        (clear-heaps loop.1 page ∙ (chop-SameElsewhere n page page page s).same_heaps)

  cut_up-next : (a : ℕ) → ((cut_up s h page n).pages a).next ≡ closed loop (head s (free h)) a
  unfolding cut_up
  cut_up-next a =
      splice-next (clear loop.1 page) h page loop.0 a
      ∙ rw (clear-heads (free h), clear-next loop.1 page a) refl

  pub cut_up-Splices :
      page ≢ null → Splices (links s) (links (cut_up s h page n)) h page (pieces page n)
  unfolding cut_up
  cut_up-Splices nn = record {
    run =
        Run-ext _ _ page (head s (free h)) (pieces page n) cut_up-next
          (start-Run n page (head s (free h)) s nn);
    distinct = pieces-IsDistinct page n;
    next_other = λ a o.
        let f : (a == loop.0) ≡ false =
          ground (arith, ne_of_has loop.0 a (pieces page n) o (start_end n page s)) in
        cut_up-next a ∙ rw f (ap (λ (r : PageRef). r.next) (start_other n page a s o));
    prev_other = λ a o ne.
        splice-prev (clear loop.1 page) h page loop.0 a (rw (clear-heads (free h)) ne)
        ∙ ap (λ (r : PageRef). r.prev)
            (clear_other loop.1 page a (ground arith) ∙ start_other n page a s o);
    head_eq = λ j. head-splice (clear loop.1 page) h page loop.0 j ∙ rw (clear-heads j) refl;
  }

  pub cut_up-Touches : Touches (λ a. has a (pieces page n)) s (cut_up s h page n)
  unfolding cut_up
  cut_up-Touches =
      let f : ℕ → Bool = λ a. has a (pieces page n) in
      let e = chop-SameElsewhere n page page page s in
      Touches-trans f s (clear loop.1 page) _
        (Touches-trans f s loop.1 (clear loop.1 page)
          (Touches-intro f s loop.1 (λ a o. ap page_data (start_other n page a s o))
            (λ b o. ap (λ (c : ℕ → ℕ). c b) e.same_cells) e.same_dseg)
          (Touches-any f loop.1 (clear loop.1 page) (clear-Touches loop.1 page)))
        (Touches-any f (clear loop.1 page) _ (splice-Touches (clear loop.1 page) h page loop.0))
