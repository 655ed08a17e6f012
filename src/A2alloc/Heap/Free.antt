-- ===== src/A2alloc/Heap/Free.antt =====
-- `mm_free`.
use parallel_memory_allocato.Base.{
  ℕ, ◌+◌, ◌≡◌, ◌≢◌, refl, sym, ap, ◌∙◌, Bool, true, false, ◌==◌, Option, none, some, arith, Returns,
  Outcome, ok, stop, Stop, if◌then◌else◌,
}
use mathlib.Core.Path.{subst}
use parallel_memory_allocato.Memlib.{null}
use parallel_memory_allocato.A2alloc.Sizes.{
  sizeof_pageref, blocktype_free, blocktype_large, page_of,
}
use parallel_memory_allocato.A2alloc.State.{State, Loc, free, complete, large, sized}
use parallel_memory_allocato.A2alloc.Free.{small_free, large_free, settle, push_block, mm_free}
use parallel_memory_allocato.A2alloc.Heap.{View, IsHeap, live}
use parallel_memory_allocato.A2alloc.Heap.Give.{Frees, live_at}
use parallel_memory_allocato.A2alloc.Heap.SmallFree.{placed-ne_null, small_free-Frees}
use parallel_memory_allocato.A2alloc.Heap.LargeFree.{large_free-Frees}

third_of :
    (a b c : Bool) (x y z u : Outcome State)
    → a ≡ false
    → b ≡ false
    → c ≡ true
    → (if a then x else if b then y else if c then z else u) ≡ z
third_of a b c x y z u p q r = rw (p, q, r) refl

small_free_large :
    (ptr h : ℕ) (s : State)
    → page_of ptr ≢ null
    → (s.pages (page_of ptr)).block_type ≡ blocktype_large
    → (s.pages (page_of ptr)).heap_id ≡ h
    → small_free ptr s ≡ large_free s h (page_of ptr)
unfolding small_free
small_free_large ptr h s nn t e =
    let page = page_of ptr in
    let nz : (page == null) ≡ false = ground arith in
    let nf : ((s.pages page).block_type == blocktype_free) ≡ false = ground arith in
    let nl : ((s.pages page).block_type == blocktype_large) ≡ true = ground arith in
    third_of (page == null) ((s.pages page).block_type == blocktype_free)
      ((s.pages page).block_type == blocktype_large) (stop Stop.null_read) (ok s)
      (large_free s (s.pages page).heap_id page)
      (settle (push_block s page ptr) (s.pages page).heap_id (s.pages page).block_type page) nz nf
      nl
    ∙ ap (λ (k : ℕ). large_free s k page) e

null_page : page_of null ≡ null
unfolding page_of
null_page = refl

module _ (s : State) (w : View) (v : IsHeap s w) (ptr : ℕ) (alive : live s w ptr ≡ true) where
  placed_from :
      (o : Option Loc) → w.place (page_of ptr) ≡ o → (l : Loc) × (w.place (page_of ptr) ≡ some l)
  placed_from none e =
      absurd (let z = sym (live_at s w (page_of ptr) ptr none refl e) ∙ alive in cc)
  placed_from (some l) e = (l, e)

  ptr-ne_null : ptr ≢ null
  ptr-ne_null z =
      let (l, e) = placed_from (w.place (page_of ptr)) refl in placed-ne_null v e (rw z null_page)

  free_from :
      (o : Option Loc) → w.place (page_of ptr) ≡ o → Returns (Frees s w ptr) (small_free ptr s)
  free_from none e = small_free-Frees s w ptr v alive (λ h z. let y = sym e ∙ z in cc)
  free_from (some (free h)) e = small_free-Frees s w ptr v alive (λ k z. let y = sym e ∙ z in cc)
  free_from (some (complete h)) e =
      small_free-Frees s w ptr v alive (λ k z. let y = sym e ∙ z in cc)
  free_from (some (sized h t)) e = small_free-Frees s w ptr v alive (λ k z. let y = sym e ∙ z in cc)
  free_from (some (large h)) e =
      let (heap, class, inner) = (v.item (page_of ptr) (large h) e).content in
      let here = sym (live_at s w (page_of ptr) ptr (some (large h)) refl e) ∙ alive in
      let q : page_of ptr + sizeof_pageref ≡ ptr = ground arith in
      rw (small_free_large ptr h s (placed-ne_null v e) class heap) (
        subst (λ (z : ℕ). Returns (Frees s w z) (large_free s h (page_of ptr))) q
          (large_free-Frees s w v h (page_of ptr) e))

  -- In a heap in order `mm_free` of a live block returns, leaves the heap in order, and the live
  -- blocks are then the others, with the room that they had.
  pub mm_free-Frees : Returns (Frees s w ptr) (mm_free ptr s)
  unfolding mm_free
  mm_free-Frees =
      let nn = ptr-ne_null in
      let f : (ptr == null) ≡ false = ground arith in rw f (free_from (w.place (page_of ptr)) refl)
