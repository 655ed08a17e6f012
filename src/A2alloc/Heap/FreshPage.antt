-- ===== src/A2alloc/Heap/FreshPage.antt =====
-- `malloc_page`: a block of a page that gets a size class.
use parallel_memory_allocato.Base.{
  ℕ, zero, suc, ◌+◌, ◌-◌, ◌*◌, ◌%◌, ◌≤◌, sym, ◌<◌, ◌≡◌, ◌≢◌, refl, ◌∙◌, ap, inr, none, List, ◌∷◌,
  ◌==◌, if◌then◌else◌, arith, ok, Returns,
}
use parallel_memory_allocato.Memlib.{null}
use parallel_memory_allocato.A2alloc.Sizes.{
  n_sizes, superblock_page_size, capacity, size_of, sizeof_pageref,
}
use parallel_memory_allocato.A2alloc.Sizes.Layout.{block, capacity_bounds, page_of-block}
use parallel_memory_allocato.A2alloc.State.{
  State, complete, sized, set_head, put_page, put_cell, push_front,
}
use parallel_memory_allocato.A2alloc.Malloc.{link_blocks, carve, move_page_complete, malloc_page}
use parallel_memory_allocato.A2alloc.Links.FreshPage.{malloc_page-IsLinked}
use parallel_memory_allocato.A2alloc.Blocks.{blocks_down}
use parallel_memory_allocato.A2alloc.Blocks.Carve.{
  fresh_blocks, carve-HasBlocks, carve-flist, blocks_down-suc, link_blocks-pages,
  length-blocks_down,
}
use parallel_memory_allocato.A2alloc.Blocks.Ops.{popped, pop_block-popped, popped-HasBlocks}
use parallel_memory_allocato.A2alloc.Heap.{PageData, page_data, View, IsClass, IsHeap}
use parallel_memory_allocato.A2alloc.Heap.Frame.{
  put_page-same, Touches, nothing, only, Touches-refl, Touches-trans, Touches-any, put_page-Touches,
  put_cell-Touches, set_head-Touches, set_prev_if-Touches, push_front-Touches,
}
use parallel_memory_allocato.A2alloc.Heap.Give.{live_at}
use parallel_memory_allocato.A2alloc.Heap.PushBlock.{IsClass-same}
use parallel_memory_allocato.A2alloc.Heap.Take.{Allots, IsReady, Takes, Takes-Allots}

pub type_of : {r r' : PageData} → r ≡ r' → r.block_type ≡ r'.block_type
type_of q = rw q refl

pub popped-Touches : (s : State) (page : ℕ) → Touches (only page) s (popped s page)
unfolding popped
popped-Touches s page = put_page-Touches s page _

pub popped_class :
    (s : State) (page : ℕ) → ((popped s page).pages page).block_type ≡ (s.pages page).block_type
unfolding popped put_page
popped_class s page = ground arith

popped_heap : (s : State) (page : ℕ) → ((popped s page).pages page).heap_id ≡ (s.pages page).heap_id
unfolding popped put_page
popped_heap s page = ground arith

pub popped-IsClass :
    (s : State) (page h b : ℕ) (bs : List ℕ)
    → IsClass s.cells (page_data (s.pages page)) (b ∷ bs) page h
    → IsClass (popped s page).cells (page_data ((popped s page).pages page)) bs page h
popped-IsClass s page h b bs c =
    let k =
      popped-HasBlocks s page b bs
        (record { chain = c.chain; counted = c.counted; distinct = c.distinct }) in
    record {
      class = rw (popped_class s page) c.class;
      heap = popped_heap s page ∙ c.heap;
      chain = k.chain;
      counted = k.counted;
      distinct = k.distinct;
      legit = λ a m. rw (popped_class s page) (c.legit a (ground arith));
    }

pub move_page_complete-Touches :
    (s : State) (h t page : ℕ) → Touches nothing s (move_page_complete s h t page)
unfolding move_page_complete
move_page_complete-Touches s h t page =
    let after = (s.pages page).next in
    let s1 =
      if after == null then s else put_page s after (record (s.pages after) { prev = null }) in
    let s2 = set_head s1 (sized h t) (s1.pages page).next in
    let s3 = put_page s2 page (record (s2.pages page) { prev = null; next = null }) in
    Touches-trans nothing s s3 _
      (Touches-trans nothing s s2 s3
        (Touches-trans nothing s s1 s2 (set_prev_if-Touches s after null)
          (set_head-Touches s1 (sized h t) (s1.pages page).next))
        (put_page-same s2 page _ refl))
      (push_front-Touches s3 (complete h) page)

-- The loop and `carve` write in the page only.
link_blocks-Touches :
    (page t n i : ℕ) (s : State)
    → page % superblock_page_size ≡ 0
    → t < n_sizes
    → i + n ≤ capacity t
    → Touches (only page) s (link_blocks n i (page + sizeof_pageref) (size_of t) s)
unfolding link_blocks
link_blocks-Touches page t zero i s aligned lt le = Touches-refl (only page) s
link_blocks-Touches page t (suc n) i s aligned lt le =
    Touches-trans (only page) s
      (put_cell s (page + sizeof_pageref + i * size_of t)
        (page + sizeof_pageref + (i - 1) * size_of t))
      _
      (put_cell-Touches s page (block page t i) _ (page_of-block page t i aligned lt (omega arith)))
      (link_blocks-Touches page t n (i + 1) _ aligned lt (omega arith))

carve-Touches :
    (s : State) (page h t : ℕ)
    → page % superblock_page_size ≡ 0
    → t < n_sizes
    → Touches (only page) s (carve s page h t)
unfolding carve
carve-Touches s page h t aligned lt =
    let base = page + sizeof_pageref in
    let k = capacity_bounds t lt in
    let first : base + 0 * size_of t ≡ base = omega arith in
    let s1 =
      put_page s page
        (record (s.pages page) { block_type = t; count = capacity t; heap_id = h; prev = null }) in
    let s2 = put_cell s1 base null in
    let s3 = link_blocks (capacity t - 1) 1 base (size_of t) s2 in
    Touches-trans (only page) s s3 _
      (Touches-trans (only page) s s2 s3
        (Touches-trans (only page) s s1 s2 (put_page-Touches s page _) (
          put_cell-Touches s1 page base null
            (rw first at (page_of-block page t 0 aligned lt (omega arith)))))
        (link_blocks-Touches page t (capacity t - 1) 1 s2 aligned lt (omega arith)))
      (put_page-Touches s3 page _)

carve_class : (s : State) (page h t : ℕ) → ((carve s page h t).pages page).block_type ≡ t
unfolding carve put_page put_cell
carve_class s page h t =
    rw (link_blocks-pages (capacity t - 1) 1 (page + sizeof_pageref) (size_of t) _) (ground arith)

carve_heap : (s : State) (page h t : ℕ) → ((carve s page h t).pages page).heap_id ≡ h
unfolding carve put_page put_cell
carve_heap s page h t =
    rw (link_blocks-pages (capacity t - 1) 1 (page + sizeof_pageref) (size_of t) _) (ground arith)

carve-IsClass :
    (s : State) (page h t : ℕ)
    → t < n_sizes
    → IsClass
        (carve s page h t).cells
        (page_data ((carve s page h t).pages page))
        (fresh_blocks page t)
        page
        h
carve-IsClass s page h t lt =
    let k = carve-HasBlocks s page h t lt in
    record {
      class = rw (carve_class s page h t) lt;
      heap = carve_heap s page h t;
      chain = k.chain;
      counted = k.counted;
      distinct = k.distinct;
      legit = λ a m. rw (carve_class s page h t) m;
    }

malloc_page-eq :
    (s : State) (h t page : ℕ)
    → malloc_page s h t page
      ≡ ok (
        page + sizeof_pageref + (capacity t - 1) * size_of t,
        push_front (popped (carve s page h t) page) (sized h t) page,
      )
unfolding malloc_page
malloc_page-eq s h t page =
    let f = carve-flist s page h t in
    rw (pop_block-popped (carve s page h t) page (rw f (omega arith)), f) refl

-- The blocks of a page but the last.
abbrev others : ℕ → ℕ → List ℕ
others page t = blocks_down (page + sizeof_pageref) (size_of t) (capacity t - 1)

fresh_blocks-eq :
    (page t : ℕ)
    → t < n_sizes
    → fresh_blocks page t ≡ (page + sizeof_pageref + (capacity t - 1) * size_of t) ∷ others page t
fresh_blocks-eq page t lt =
    let full : capacity t ≡ suc (capacity t - 1) = omega (arith, capacity_bounds t lt) in
    ap (blocks_down (page + sizeof_pageref) (size_of t)) full ∙ blocks_down-suc _ _ _

module _ (s : State) (w : View) (v : IsHeap s w) where
  fresh-Takes :
      (h t page : ℕ)
      → t < n_sizes
      → w.place page ≡ none
      → IsReady s w page
      → Takes s w page (page + sizeof_pageref + (capacity t - 1) * size_of t) t h (others page t)
  fresh-Takes h t page lt out ready =
      let e = fresh_blocks-eq page t lt in
      let d = rw e at (carve-HasBlocks s page h t lt).distinct in
      record {
        valid = v;
        ready = ready;
        class = lt;
        old = λ a q. live_at s w page a none q out ∙ rw e (ground arith);
        old_room = λ a q m. absurd (let z = sym (live_at s w page a none q out) ∙ m in cc);
        block = rw e (ground arith);
        ne_null = omega arith;
        once = d.0;
      }

  pub malloc_page-Allots :
      (h t page size : ℕ)
      → t < n_sizes
      → size ≤ size_of t
      → w.place page ≡ none
      → page ≢ null
      → IsReady s w page
      → Returns (Allots s w size) (malloc_page s h t page)
  malloc_page-Allots h t page size lt fits out nn ready =
      let e = malloc_page-eq s h t page in
      let c = carve s page h t in
      let s1 = popped c page in
      let s2 = push_front s1 (sized h t) page in
      let u = push_front-Touches s1 (sized h t) page in
      let k =
        popped-IsClass c page h _ _
          (rw (fresh_blocks-eq page t lt) at (carve-IsClass s page h t lt)) in
      let touches : Touches (only page) s s2 =
        Touches-trans (only page) s s1 s2
          (Touches-trans (only page) s c s1 (carve-Touches s page h t ready.aligned lt)
            (popped-Touches c page))
          (Touches-any (only page) s1 s2 u) in
      let k2 = IsClass-same s1 s2 _ page h u k in
      let len =
        length-blocks_down (page + sizeof_pageref) (size_of t) (omega (arith, capacity_bounds t lt))
          (capacity t - 1) in
      rw e (
        Takes-Allots (fresh-Takes h t page lt out ready) s2 _ _ touches
          (rw e at (malloc_page-IsLinked s v.linked h t page lt out nn)) (λ a ne. ground arith) k2
          (type_of (u.data_eq page refl) ∙ popped_class c page ∙ carve_class s page h t) (sized h t)
          (ground arith) (inr (refl, omega (arith, k2.counted, len, capacity_bounds t lt))) size
          fits)
