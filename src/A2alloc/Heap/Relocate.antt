-- ===== src/A2alloc/Heap/Relocate.antt =====
-- Where a page that becomes free ends up.
use parallel_memory_allocato.Base.{
  ℕ, ◌≡◌, ◌≢◌, refl, ◌∙◌, Bool-cases, inl, inr, ◌&&◌, Option, none, some, List, ◌∷◌, arith, Returns,
  Returns-map, ltb,
}
use parallel_memory_allocato.Memlib.{null}
use parallel_memory_allocato.A2alloc.Sizes.{global_heap_id, blocktype_free, free_page_threshold}
use parallel_memory_allocato.A2alloc.State.{State, Loc, free, head, put_page}
use parallel_memory_allocato.A2alloc.Relocate.{
  pop_free, push_free, move_page_global, move_page_free,
}
use parallel_memory_allocato.A2alloc.Links.{links, IsLinked}
use parallel_memory_allocato.A2alloc.Links.Segment.{loc_eq_refl}
use parallel_memory_allocato.A2alloc.Links.Moves.{put_page-IsLinked, taken_place}
use parallel_memory_allocato.A2alloc.Links.FreePages.{push_free-IsLinked}
use parallel_memory_allocato.A2alloc.Links.Relocate.{sent, send_page_global-eq, sent-IsLinked}
use parallel_memory_allocato.A2alloc.Heap.Frame.{
  Touches, only, Touches-refl, Touches-trans, Touches-any, put_page-Touches, pop_free-Touches,
  push_free-Touches,
}

-- The page `x` is on a list of free pages, and all else is as it was.
pub record BecomesFree (s : State) (place : ℕ → Option Loc) (x : ℕ) (s' : State) : Type 0 where
  pub heap : ℕ
  pub lists' : Loc → List ℕ
  pub place' : ℕ → Option Loc
  pub linked : IsLinked (links s') lists' place'
  pub here : place' x ≡ some (free heap)
  pub there : (a : ℕ) → a ≢ x → place' a ≡ place a
  pub touches : Touches (only x) s s'

sent-Touches : (s : State) (h x : ℕ) → head s (free h) ≡ x → Touches (only x) s (sent s h)
unfolding sent head
sent-Touches s h x e = rw e (
    Touches-trans (only x) s (pop_free s h) _ (Touches-any (only x) s _ (pop_free-Touches s h))
      (put_page-Touches (pop_free s h) x _))

module _ (s : State) {lists : Loc → List ℕ} {place : ℕ → Option Loc}
    (v : IsLinked (links s) lists place) where
  pub move_page_global-BecomesFree :
      (h x : ℕ) (xs : List ℕ)
      → lists (free h) ≡ x ∷ xs
      → Returns (BecomesFree s place x) (move_page_global s h)
  unfolding move_page_global
  move_page_global-BecomesFree h x xs e =
      let (first, nn, back, others) = rw e at (v.segment (free h)) in
      let s1 = sent s h in
      elim (Bool-cases
        (ltb 1 s.number_of_processors && ltb free_page_threshold (s.heaps h).n_free_pages)) [
          | inl t ↦
              rw (t, send_page_global-eq s h x first nn)
                (record {
                  heap = global_heap_id;
                  lists' = _;
                  place' = _;
                  linked =
                      push_free-IsLinked s1 (sent-IsLinked s v h x xs first e) global_heap_id x
                        (taken_place place x) nn;
                  here = ground arith;
                  there = λ a ne. ground arith;
                  touches =
                      Touches-trans (only x) s s1 _ (sent-Touches s h x first)
                        (Touches-any (only x) s1 _ (push_free-Touches s1 global_heap_id x));
                })
          | inr f ↦ rw f (record {
            heap = h;
            lists' = lists;
            place' = place;
            linked = v;
            here = v.placed (free h) x (rw e (ground arith));
            there = λ a ne. refl;
            touches = Touches-refl (only x) s;
          })
        ]

module _ (s : State) {lists : Loc → List ℕ} {place : ℕ → Option Loc}
    (v : IsLinked (links s) lists place) where
  pub move_page_free-BecomesFree :
      (h x : ℕ) → place x ≡ none → x ≢ null → Returns (BecomesFree s place x) (move_page_free s x h)
  unfolding move_page_free
  move_page_free-BecomesFree h x out nn =
      let r = record (s.pages x) { prev = null; block_type = blocktype_free } in
      let s1 = put_page s x r in
      let s2 = push_free s1 h x in
      let w = push_free-IsLinked s1 (put_page-IsLinked s v x r out) h x out nn in
      let t : Touches (only x) s s2 =
        Touches-trans (only x) s s1 s2 (put_page-Touches s x r)
          (Touches-any (only x) s1 s2 (push_free-Touches s1 h x)) in
      Returns-map _ (BecomesFree s place x) (move_page_global s2 h)
        (move_page_global-BecomesFree s2 w h x (lists (free h)) (rw (loc_eq_refl (free h)) refl))
        (λ s' b. record {
          heap = b.heap;
          lists' = b.lists';
          place' = b.place';
          linked = b.linked;
          here = b.here;
          there = λ a ne. b.there a ne ∙ ground arith;
          touches = Touches-trans (only x) s s2 s' t b.touches;
        })
