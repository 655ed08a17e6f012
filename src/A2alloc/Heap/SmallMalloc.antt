-- ===== src/A2alloc/Heap/SmallMalloc.antt =====
-- `small_malloc`: a block of a page with free blocks, or of a page that gets a size class.
use parallel_memory_allocato.Base.{
  ℕ, ◌≤◌, ◌<◌, ◌≡◌, ◌≢◌, refl, sym, ◌∙◌, true, false, Bool-cases, inl, inr, some, List, [], ◌∷◌,
  ◌==◌, if◌then◌else◌, has, arith, ok, Returns, Returns-map, Returns-bind,
}
use parallel_memory_allocato.Memlib.{null}
use parallel_memory_allocato.A2alloc.Sizes.{n_sizes, largest_superblock_block_size, size_of}
use parallel_memory_allocato.A2alloc.Sizes.Choice.{get_block_type_lem}
use parallel_memory_allocato.A2alloc.State.{State, complete, sized, head}
use parallel_memory_allocato.A2alloc.Malloc.{
  move_page_complete, malloc_sized, malloc_page, find_page, small_malloc,
}
use parallel_memory_allocato.A2alloc.Links.Segment.{Segment-first}
use parallel_memory_allocato.A2alloc.Links.Moves.{move_page_complete-IsLinked}
use parallel_memory_allocato.A2alloc.Links.FreshPage.{popped-heaps, head_of_heaps}
use parallel_memory_allocato.A2alloc.Links.SmallMalloc.{popped-IsLinked}
use parallel_memory_allocato.A2alloc.Blocks.Ops.{popped, pop_block-popped}
use parallel_memory_allocato.A2alloc.Heap.{PageData, View, IsHeap, live, room}
use parallel_memory_allocato.A2alloc.Heap.Frame.{only, Touches-trans, Touches-any, room_small}
use parallel_memory_allocato.A2alloc.Heap.Give.{live_at}
use parallel_memory_allocato.A2alloc.Heap.PushBlock.{IsClass-same}
use parallel_memory_allocato.A2alloc.Heap.FindPage.{Obtains, outside_of_placed, find_page-Obtains}
use parallel_memory_allocato.A2alloc.Heap.Take.{Allots, IsReady, Takes, Takes-Allots}
use parallel_memory_allocato.A2alloc.Heap.FreshPage.{
  type_of, popped-Touches, popped_class, popped-IsClass, move_page_complete-Touches,
  malloc_page-Allots,
}

module _ (s : State) (w : View) (v : IsHeap s w) (h t page size : ℕ) (fits : size ≤ size_of t)
    (placed : w.place page ≡ some (sized h t)) where
  -- A page with the free blocks `b ∷ bs`.
  IsReady-page : IsReady s w page
  IsReady-page =
      let i = v.item page (sized h t) placed in
      record {
        outside = outside_of_placed v placed;
        aligned = i.aligned;
        above = i.above;
        below = i.below;
      }

  sized-Takes : (b : ℕ) (bs : List ℕ) → w.free_blocks page ≡ b ∷ bs → Takes s w page b t h bs
  sized-Takes b bs e =
      let (c, same, nz) = (v.item page (sized h t) placed).content in
      let d = rw e at c.distinct in
      let chain = rw e at c.chain in
      record {
        valid = v;
        ready = IsReady-page;
        class = rw (← same) c.class;
        old = λ a q. live_at s w page a (some (sized h t)) q placed ∙ rw (same, e) refl;
        old_room = λ a q m. room_small s page t a (rw (← same) c.class) same q;
        block = rw same at (c.legit b (rw e (ground arith)));
        ne_null = chain.1;
        once = d.0;
      }

  malloc_sized-eq :
      (b : ℕ) (bs : List ℕ)
      → w.free_blocks page ≡ b ∷ bs
      → malloc_sized s h t page
        ≡ ok (
          b,
          if ((popped s page).pages page).count == 0
              then move_page_complete (popped s page) h t page
              else popped s page,
        )
  unfolding malloc_sized
  malloc_sized-eq b bs e =
      let (c, same, nz) = (v.item page (sized h t) placed).content in
      let (first, nn, tail) = rw e at c.chain in
      rw (pop_block-popped s page (rw first nn), first) refl

  sized_from :
      (bs : List ℕ)
      → w.free_blocks page ≡ bs
      → head s (sized h t) ≡ page
      → Returns (Allots s w size) (malloc_sized s h t page)
  sized_from [] e first =
      let (c, same, nz) = (v.item page (sized h t) placed).content in
      absurd (nz (c.counted ∙ rw e refl))
  sized_from (b ∷ bs) e first =
      let (c, same, nz) = (v.item page (sized h t) placed).content in
      let s1 = popped s page in
      let k = popped-IsClass s page h b bs (rw e at c) in
      let linked = popped-IsLinked s v.linked page in
      let g = sized-Takes b bs e in
      let class = popped_class s page ∙ same in
      let still = head_of_heaps s s1 (sized h t) (popped-heaps s page) ∙ first in
      let s2 = move_page_complete s1 h t page in
      let u = move_page_complete-Touches s1 h t page in
      rw (malloc_sized-eq b bs e) (elim (Bool-cases ((s1.pages page).count == 0)) [
        | inl z ↦ rw z (
            Takes-Allots g s2 _ _
              (Touches-trans (only page) s s1 s2 (popped-Touches s page)
                (Touches-any (only page) s1 s2 u))
              (move_page_complete-IsLinked s1 linked h t page still
                (v.linked.listed (sized h t) page placed))
              (λ a ne. ground arith) (IsClass-same s1 s2 bs page h u k)
              (type_of (u.data_eq page refl) ∙ class) (complete h) (ground arith)
              (inl (refl, count_of (u.data_eq page refl) ∙ ground arith)) size fits)
        | inr f ↦ rw f (
            Takes-Allots g s1 w.lists w.place (popped-Touches s page) linked (λ a ne. refl) k class
              (sized h t) placed (inr (refl, ground arith)) size fits)
      ])
    where
      count_of : {r r' : PageData} → r ≡ r' → r.count ≡ r'.count
      count_of q = rw q refl

Allots-from :
    (s s1 : State) (w w1 : View) (size : ℕ) (r : ℕ × State)
    → ((a : ℕ) → live s1 w1 a ≡ live s w a)
    → ((a : ℕ) → room s1 a ≡ room s a)
    → Allots s1 w1 size r
    → Allots s w size r
Allots-from s s1 w w1 size r same rooms (w', v, inl (z, k), kept) =
    (w', v, inl (z, λ a. k a ∙ same a), λ a m. kept a (same a ∙ m) ∙ rooms a)
Allots-from s s1 w w1 size r same rooms (w', v, inr (nn, o, fits, k), kept) = (
  w',
  v,
  inr (nn, sym (same r.0) ∙ o, fits, λ a. k a ∙ rw (same a) refl),
  λ a m. kept a (same a ∙ m) ∙ rooms a,
)

module _ (s : State) (w : View) (v : IsHeap s w) where
  obtained-Allots :
      (h t size : ℕ) (r : ℕ × State)
      → t < n_sizes
      → size ≤ size_of t
      → Obtains s w r
      → Returns (Allots s w size) (if r.0 == null then ok (null, r.1) else malloc_page r.1 h t r.0)
  obtained-Allots h t size r lt fits (w1, v1, same, rooms, found) =
      elim (Bool-cases (r.0 == null)) [
        | inl z ↦ rw z (w1, v1, inl (refl, same), λ a m. rooms a)
        | inr f ↦
            let nn : r.0 ≢ null = ground arith in
            let (out, ready) = found nn in
            rw f (
              Returns-map (Allots r.1 w1 size) (Allots s w size) _
                (malloc_page-Allots r.1 w1 v1 h t r.0 size lt fits out nn ready)
                (λ r' k. Allots-from s r.1 w w1 size r' same rooms k))
      ]

  -- In a heap in order `small_malloc` of at most 2048 bytes returns and leaves the heap in order; its
  -- result is NULL, or a block that was not live, with room for the request, and is live now.
  pub small_malloc-Allots :
      (size h : ℕ)
      → size ≤ largest_superblock_block_size
      → Returns (Allots s w size) (small_malloc size h s)
  unfolding small_malloc
  small_malloc-Allots size h le =
      let (t, chosen, lt, fits, least) = (get_block_type_lem size).0 le in
      rw chosen (elim (Bool-cases (head s (sized h t) == null)) [
        | inl z ↦ rw z (
            Returns-bind (Obtains s w) (Allots s w size) (find_page s h) _
              (find_page-Obtains s w v h) (λ r found. obtained-Allots h t size r lt fits found))
        | inr nz ↦ rw nz (
            sized_from s w v h t (head s (sized h t)) size fits
              (v.linked.placed (sized h t) _ (on_list t nz)) (w.free_blocks _) refl refl)
      ])
    where
      on_list :
          (t : ℕ)
          → (head s (sized h t) == null) ≡ false
          → has (head s (sized h t)) (w.lists (sized h t)) ≡ true
      on_list t nz =
          elim (Segment-first _ _ _ _ _ (w.lists (sized h t)) (v.linked.segment (sized h t))) [
            | inl z ↦ absurd (ground arith)
            | inr m ↦ m
          ]
