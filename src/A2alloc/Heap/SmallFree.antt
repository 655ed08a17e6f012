-- ===== src/A2alloc/Heap/SmallFree.antt =====
-- `small_free` of a live block of a page of small blocks.
use parallel_memory_allocato.Base.{
  ℕ, zero, suc, ◌≤◌, ◌<◌, ◌≡◌, ◌≢◌, refl, sym, ◌∙◌, ap, Bool, true, false, not, ◌&&◌, Bool-cases,
  inl, inr, Option, none, some, List, ◌∷◌, ◌==◌, if◌then◌else◌, has, length, arith, Outcome, ok,
  stop, Stop, Returns, Returns-map,
}
use parallel_memory_allocato.Memlib.{null}
use parallel_memory_allocato.A2alloc.Sizes.{
  n_sizes, blocktype_free, blocktype_large, page_of, capacity,
}
use parallel_memory_allocato.A2alloc.Sizes.Layout.{capacity_bounds}
use parallel_memory_allocato.A2alloc.State.{
  State, Loc, free, complete, large, sized, put_page, unlink,
}
use parallel_memory_allocato.A2alloc.Free.{
  retire_page, reopen_page, settle, push_block, large_free, small_free,
}
use parallel_memory_allocato.A2alloc.Links.{links, IsLinked}
use parallel_memory_allocato.A2alloc.Links.Segment.{Segment-ne_null}
use parallel_memory_allocato.A2alloc.Links.Ops.{unlink-IsLinked}
use parallel_memory_allocato.A2alloc.Links.Moves.{
  put_page-IsLinked, taken_place, reopen_page-IsLinked,
}
use parallel_memory_allocato.A2alloc.Links.SmallFree.{home, push_block-IsLinked}
use parallel_memory_allocato.A2alloc.Blocks.Carve.{fresh_blocks}
use parallel_memory_allocato.A2alloc.Heap.{
  PageData, page_data, View, IsClass, IsHeap, live, live_on,
}
use parallel_memory_allocato.A2alloc.Heap.Frame.{
  Touches, only, Touches-trans, Touches-any, put_page-Touches, unlink-Touches,
}
use parallel_memory_allocato.A2alloc.Heap.Relocate.{move_page_free-BecomesFree}
use parallel_memory_allocato.A2alloc.Heap.Give.{Frees, Gives, Gives-sized, Gives-free, live_at}
use parallel_memory_allocato.A2alloc.Heap.PushBlock.{
  push_block-Touches, push_block-class, push_block-IsClass, IsClass-same, reopen_page-Touches,
}

module _ {s : State} {w : View} {ptr t h : ℕ} {bs : List ℕ} (g : Gives s w ptr t h bs) (s1 : State)
    (touches : Touches (only (page_of ptr)) s s1) (v : IsLinked (links s1) w.lists w.place)
    (c : IsClass s1.cells (page_data (s1.pages (page_of ptr))) (ptr ∷ bs) (page_of ptr) h)
    (class : (s1.pages (page_of ptr)).block_type ≡ t) where
  abbrev page : ℕ
  page = page_of ptr

  reopen-Frees : w.place page ≡ some (complete h) → Frees s w ptr (reopen_page s1 h t page)
  reopen-Frees e =
      let s2 = reopen_page s1 h t page in
      let u = reopen_page-Touches s1 h t page in
      Gives-sized g s2 _ _ (Touches-trans _ s s1 s2 touches (Touches-any _ s1 s2 u))
        (reopen_page-IsLinked s1 v h t page (v.listed (complete h) page e)) (λ a ne. ground arith)
        (ground arith) (IsClass-same s1 s2 _ page h u c) (ap_class (u.data_eq page refl) ∙ class)
    where
      ap_class : {r r' : PageData} → r ≡ r' → r.block_type ≡ r'.block_type
      ap_class q = rw q refl

  retire-Frees :
      w.place page ≡ some (sized h t)
      → capacity t ≤ length (ptr ∷ bs)
      → Returns (Frees s w ptr) (retire_page s1 h t page)
  unfolding retire_page
  retire-Frees e full =
      let m = v.listed (sized h t) page e in
      let s2 = unlink s1 (sized h t) page in
      let r = record (s2.pages page) { block_type = blocktype_free } in
      let s3 = put_page s2 page r in
      let out = taken_place w.place page in
      let k = put_page-IsLinked s2 (unlink-IsLinked s1 v (sized h t) page refl m) page r out in
      let t3 : Touches (only page) s s3 =
        Touches-trans _ s s2 s3
          (Touches-trans _ s s1 s2 touches
            (Touches-any _ s1 s2 (unlink-Touches s1 (sized h t) page)))
          (put_page-Touches s2 page r) in
      Returns-map _ (Frees s w ptr) _
        (move_page_free-BecomesFree s3 k h page out
          (Segment-ne_null _ _ _ _ _ page (w.lists (sized h t)) (v.segment (sized h t)) m))
        (λ s' b.
          Gives-free g s' b.lists' b.place' (Touches-trans _ s s3 s' t3 b.touches) b.linked
            (λ a ne. b.there a ne ∙ ground arith) b.heap b.here (rw class at c.legit) c.distinct
            full)

  settle-Frees :
      (n : ℕ)
      → w.place page ≡ some (home h t n)
      → length bs ≡ n
      → Returns (Frees s w ptr) (settle s1 h t page)
  unfolding settle
  settle-Frees zero e len =
      let n = c.counted in
      let lt = rw class at c.class in
      let f : ((s1.pages page).count == capacity t) ≡ false =
        ground (arith, capacity_bounds t lt) in
      let one : ((s1.pages page).count == 1) ≡ true = ground arith in rw (f, one) (reopen-Frees e)
  settle-Frees (suc n) e len =
      let k = c.counted in
      let nz : (suc n == 0) ≡ false = ground arith in
      let e' = rw nz at e in
      elim (Bool-cases ((s1.pages page).count == capacity t)) [
        | inl full ↦ rw full (retire-Frees e' (ground arith))
        | inr f ↦
            let one : ((s1.pages page).count == 1) ≡ false = ground arith in
            rw (f, one) (Gives-sized g s1 w.lists w.place touches v (λ a ne. refl) e' c class)
      ]

home_zero : (h t n : ℕ) → n ≡ 0 → complete h ≡ home h t n
home_zero h t n z = rw z refl

home_suc : (h t n : ℕ) → n ≢ 0 → sized h t ≡ home h t n
home_suc h t n nz = let f : (n == 0) ≡ false = ground arith in rw f refl

-- A live small block, as its page's header and list describe it.
pub Gives-of :
    (s : State) (w : View) (ptr h : ℕ) (l : Loc)
    → IsHeap s w
    → live s w ptr ≡ true
    → w.place (page_of ptr) ≡ some l
    → IsClass s.cells
        (page_data (s.pages (page_of ptr)))
        (w.free_blocks (page_of ptr))
        (page_of ptr)
        h
    → ((a : ℕ)
        → live_on
            (page_data (s.pages (page_of ptr)))
            (w.free_blocks (page_of ptr))
            (some l)
            (page_of ptr)
            a
          ≡ (has a (fresh_blocks (page_of ptr) (s.pages (page_of ptr)).block_type)
              && not (has a (w.free_blocks (page_of ptr)))))
    → Gives s w ptr (s.pages (page_of ptr)).block_type h (w.free_blocks (page_of ptr))
Gives-of s w ptr h l v alive e c shape =
    let here = sym (live_at s w (page_of ptr) ptr (some l) refl e ∙ shape ptr) ∙ alive in
    record {
      valid = v;
      placed_before = (l, e, v.item (page_of ptr) l e);
      old = λ a q. live_at s w (page_of ptr) a (some l) q e ∙ shape a;
      class_before = refl;
      block = ground arith;
      out = ground arith;
    }

fourth_of :
    (a b c : Bool) (x y z u : Outcome State)
    → a ≡ false
    → b ≡ false
    → c ≡ false
    → (if a then x else if b then y else if c then z else u) ≡ u
fourth_of a b c x y z u p q r = rw (p, q, r) refl

-- A page on a list is not at NULL.
pub placed-ne_null :
    {s : State} {w : View} {page : ℕ} {l : Loc} → IsHeap s w → w.place page ≡ some l → page ≢ null
placed-ne_null {s} {w} {page} {l} v e =
    Segment-ne_null _ _ _ _ _ page (w.lists l) (v.linked.segment l) (v.linked.listed l page e)

small_free-settle :
    (ptr h : ℕ) (s : State)
    → page_of ptr ≢ null
    → (s.pages (page_of ptr)).block_type < n_sizes
    → (s.pages (page_of ptr)).heap_id ≡ h
    → small_free ptr s
      ≡ settle (push_block s (page_of ptr) ptr) h (s.pages (page_of ptr)).block_type (page_of ptr)
unfolding small_free
small_free-settle ptr h s nn lt e =
    let nz : (page_of ptr == null) ≡ false = ground arith in
    let nf : ((s.pages (page_of ptr)).block_type == blocktype_free) ≡ false = ground arith in
    let nl : ((s.pages (page_of ptr)).block_type == blocktype_large) ≡ false = ground arith in
    let page = page_of ptr in
    let t = (s.pages page).block_type in
    fourth_of (page == null) (t == blocktype_free) (t == blocktype_large) (stop Stop.null_read)
      (ok s) (large_free s (s.pages page).heap_id page)
      (settle (push_block s page ptr) (s.pages page).heap_id t page) nz nf nl
    ∙ ap (λ (k : ℕ). settle (push_block s page ptr) k t page) e

module _ (s : State) (w : View) (ptr : ℕ) (v : IsHeap s w) (alive : live s w ptr ≡ true) where
  class_Frees :
      (h : ℕ)
      → IsClass s.cells
          (page_data (s.pages (page_of ptr)))
          (w.free_blocks (page_of ptr))
          (page_of ptr)
          h
      → w.place (page_of ptr)
        ≡ some (home h (s.pages (page_of ptr)).block_type (s.pages (page_of ptr)).count)
      → Gives s w ptr (s.pages (page_of ptr)).block_type h (w.free_blocks (page_of ptr))
      → Returns (Frees s w ptr) (small_free ptr s)
  class_Frees h c e g = rw (small_free-settle ptr h s (placed-ne_null v e) c.class c.heap) (
      settle-Frees g (push_block s (page_of ptr) ptr) (push_block-Touches s ptr)
        (push_block-IsLinked s v.linked (page_of ptr) ptr)
        (push_block-IsClass s (page_of ptr) ptr h _ c g.block g.out)
        (push_block-class s (page_of ptr) ptr) (s.pages (page_of ptr)).count e (sym c.counted))

  small_from :
      (o : Option Loc)
      → w.place (page_of ptr) ≡ o
      → ((h : ℕ) → o ≢ some (large h))
      → Returns (Frees s w ptr) (small_free ptr s)
  small_from none e nl =
      absurd (let z = sym (live_at s w (page_of ptr) ptr none refl e) ∙ alive in cc)
  small_from (some (free h)) e nl =
      absurd (let z = sym (live_at s w (page_of ptr) ptr (some (free h)) refl e) ∙ alive in cc)
  small_from (some (large h)) e nl = absurd (nl h refl)
  small_from (some (complete h)) e nl =
      let (c, z) = (v.item (page_of ptr) (complete h) e).content in
      class_Frees h c (e ∙ ap some (home_zero h _ _ z))
        (Gives-of s w ptr h (complete h) v alive e c (λ a. refl))
  small_from (some (sized h t)) e nl =
      let (c, same, nz) = (v.item (page_of ptr) (sized h t) e).content in
      class_Frees h c (e ∙ (rw (sym same) (ap some (home_suc h _ _ nz))))
        (Gives-of s w ptr h (sized h t) v alive e c (λ a. refl))

  -- In a heap in order, `small_free` of a live block of a page of small blocks returns, leaves the
  -- heap in order, and the live blocks are the others.
  pub small_free-Frees :
      ((h : ℕ) → w.place (page_of ptr) ≢ some (large h))
      → Returns (Frees s w ptr) (small_free ptr s)
  small_free-Frees nl = small_from (w.place (page_of ptr)) refl nl
