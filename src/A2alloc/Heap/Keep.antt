-- ===== src/A2alloc/Heap/Keep.antt =====
-- The heap after a change of some of its pages.
use parallel_memory_allocato.Base.{
  ℕ, ◌+◌, ◌*◌, ◌%◌, ◌<◌, ◌≡◌, ◌≢◌, refl, ◌∙◌, sym, Bool, true, false, Bool-cases, inl, inr, List,
  ◌==◌, if◌then◌else◌, has, arith, Option, none, some,
}
use parallel_memory_allocato.Memlib.{null}
use parallel_memory_allocato.A2alloc.Sizes.{superblock_page_size, page_of}
use parallel_memory_allocato.A2alloc.State.{State, Loc, free, complete, large, sized}
use parallel_memory_allocato.A2alloc.Links.{links, IsLinked}
use parallel_memory_allocato.A2alloc.Blocks.{Chain-frame}
use parallel_memory_allocato.A2alloc.Heap.{PageData, View, IsClass, Content, Item, IsHeap, live}
use parallel_memory_allocato.A2alloc.Heap.Count.{page_of_fresh}
use parallel_memory_allocato.A2alloc.Heap.Frame.{Touches, only}

pub IsClass-frame :
    (cells cells' : ℕ → ℕ) (r : PageData) (bs : List ℕ) (page h : ℕ)
    → ((b : ℕ) → has b bs ≡ true → cells' b ≡ cells b)
    → IsClass cells r bs page h
    → IsClass cells' r bs page h
IsClass-frame cells cells' r bs page h same c = record {
  class = c.class;
  heap = c.heap;
  chain = Chain-frame cells cells' r.flist bs c.chain same;
  counted = c.counted;
  distinct = c.distinct;
  legit = c.legit;
}

Content-frame :
    (cells cells' : ℕ → ℕ) (r : PageData) (within within' : ℕ → Option ℕ) (bs : List ℕ) (page : ℕ)
    (l : Loc)
    → (page % superblock_page_size ≡ 0)
    → ((b : ℕ) → page_of b ≡ page → cells' b ≡ cells b)
    → ((a : ℕ) → within a ≡ some page → within' a ≡ some page)
    → Content cells r within bs page l
    → Content cells' r within' bs page l
Content-frame cells cells' r i i' bs page (free h) aligned same ext c = c
Content-frame cells cells' r i i' bs page (complete h) aligned same ext (c, rest) = (
  IsClass-frame cells cells' r bs page h
      (λ b m. same b (page_of_fresh page r.block_type b aligned c.class (c.legit b m))) c,
  rest,
)
Content-frame cells cells' r i i' bs page (sized h t) aligned same ext (c, same_class, ready) = (
  IsClass-frame cells cells' r bs page h
      (λ b m. same b (page_of_fresh page r.block_type b aligned c.class (c.legit b m))) c,
  same_class,
  ready,
)
Content-frame cells cells' r i i' bs page (large h) aligned same ext (e, t, inner) =
    (e, t, λ k pos lt. ext (page + k * superblock_page_size) (inner k pos lt))

module _ (s s' : State) (w w' : View) (f : ℕ → Bool) where
  -- What a change of the pages that `f` names leaves of the view.
  pub record Keeps : Type 0 where
    pub touches : Touches f s s'
    pub place_eq : (a : ℕ) → f a ≡ false → w'.place a ≡ w.place a
    pub blocks_eq : (a : ℕ) → f a ≡ false → w'.free_blocks a ≡ w.free_blocks a
    pub within_eq : (a p : ℕ) → f p ≡ false → w.within a ≡ some p → w'.within a ≡ some p

  pub Keeps-IsHeap :
      Keeps
      → IsHeap s w
      → IsLinked (links s') w'.lists w'.place
      → ((page : ℕ) (l : Loc) → f page ≡ true → w'.place page ≡ some l → Item s' w' page l)
      → ((a p : ℕ)
          → w'.within a ≡ some p
          → (w'.place a ≡ none)
            × (a < s'.dseg.dseg_end)
            × (a % superblock_page_size ≡ 0)
            × (a ≢ null))
      → IsHeap s' w'
  Keeps-IsHeap k v linked own inside = record {
    linked = linked;
    item = λ page l e. elim (Bool-cases (f page)) [
      | inl t ↦ own page l t e
      | inr o ↦
          let i = v.item page l (sym (k.place_eq page o) ∙ e) in
          record {
            aligned = i.aligned;
            above = omega (arith, i.above, k.touches.lo_eq);
            below = omega (arith, i.below, k.touches.grows);
            content =
                rw (k.touches.data_eq page o, k.blocks_eq page o)
                  (Content-frame s.cells s'.cells _ w.within w'.within _ page l i.aligned
                    (λ b q. k.touches.cells_eq b (rw q o)) (λ a q. k.within_eq a page o q)
                    i.content);
          }
    ];
    inside = inside;
    started = omega (arith, v.started, k.touches.lo_eq, k.touches.grows);
    ended = k.touches.ended v.ended;
  }

  pub Keeps-live : Keeps → (a : ℕ) → f (page_of a) ≡ false → live s' w' a ≡ live s w a
  Keeps-live k a o =
      rw (k.touches.data_eq (page_of a) o, k.blocks_eq (page_of a) o, k.place_eq (page_of a) o) refl

-- The free blocks of a page replaced.
abbrev pub set_blocks : (ℕ → List ℕ) → ℕ → List ℕ → ℕ → List ℕ
set_blocks free_blocks x bs a = if a == x then bs else free_blocks a

pub set_blocks_self :
    (free_blocks : ℕ → List ℕ) (x : ℕ) (bs : List ℕ) → set_blocks free_blocks x bs x ≡ bs
set_blocks_self free_blocks x bs = ground arith

-- The view after a change of the page `x`.
abbrev pub rest : View → (Loc → List ℕ) → (ℕ → Option Loc) → ℕ → List ℕ → View
rest w lists place x bs = record {
  lists = lists;
  place = place;
  within = w.within;
  free_blocks = set_blocks w.free_blocks x bs;
}

module _ (s s' : State) (w : View) (lists : Loc → List ℕ) (place : ℕ → Option Loc) (x : ℕ)
    (bs : List ℕ) where
  pub rest-Keeps :
      Touches (only x) s s'
      → ((a : ℕ) → a ≢ x → place a ≡ w.place a)
      → Keeps s s' w (rest w lists place x bs) (only x)
  rest-Keeps t p = record {
    touches = t;
    place_eq = λ a o. p a (ground arith);
    blocks_eq = λ a o. rw o refl;
    within_eq = λ a q o e. e;
  }

  -- A page that is inside no large block, changed and put on a list.
  pub rest-IsHeap :
      IsHeap s w
      → Touches (only x) s s'
      → ((a : ℕ) → a ≢ x → place a ≡ w.place a)
      → IsLinked (links s') lists place
      → w.within x ≡ none
      → ((l : Loc) → place x ≡ some l → Item s' (rest w lists place x bs) x l)
      → IsHeap s' (rest w lists place x bs)
  rest-IsHeap v t p linked out own =
      Keeps-IsHeap s s' w (rest w lists place x bs) (only x) (rest-Keeps t p) v linked
        (λ page l o e. let q : page ≡ x = ground arith in rw q (own l (rw q at e)))
        (λ a q e.
          let (unplaced, lt, aligned, nn) = v.inside a q e in
          let ne : a ≢ x = (λ z. let h : w.within x ≡ some q = rw (← z) e in cc) in
          (p a ne ∙ unplaced, omega (arith, t.grows), aligned, nn))
