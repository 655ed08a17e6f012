-- ===== src/Kheap/Heap/Refs/Fill.antt =====
-- `fill_refs`: a page with no use becomes a page of page references.
use parallel_memory_allocato.Base.{
  ℕ, ◌+◌, ◌%◌, ◌≡◌, ◌≢◌, refl, ap, ◌∙◌, Bool, true, false, ◌&&◌, Bool-cases, inl, inr, List, has,
  arith, leb, ltb,
}
use parallel_memory_allocato.Memlib.{null}
use parallel_memory_allocato.Kheap.Sizes.{page_size, sizeof_pageref, frame}
use parallel_memory_allocato.Kheap.State.{State, PageRef}
use parallel_memory_allocato.Kheap.PageRefs.{bzero_refs, fill_refs, link_refs}
use parallel_memory_allocato.Kheap.PageRefs.Remove.{next}
use parallel_memory_allocato.Kheap.Heap.{ref_data, page_in}
use parallel_memory_allocato.Kheap.Heap.Layout.{frame_within}
use parallel_memory_allocato.Kheap.Heap.Refs.Links.{
  refs_up, has-refs_up, link_refs-refs, link_refs-data, link_refs-other,
}

-- The state before the loop.
unfoldable pub base : State → ℕ → State
unfolding bzero_refs
base s ref = record (bzero_refs ref s) { fresh_refs = ref + sizeof_pageref }

pub fill_refs-link_refs :
    (s : State) (ref : ℕ) → fill_refs ref s ≡ link_refs 126 (ref + sizeof_pageref) (base s ref)
unfolding fill_refs base
fill_refs-link_refs s ref = refl

pub fill_refs-refs :
    (s : State) (ref : ℕ) → fill_refs ref s ≡ record (base s ref) { refs = (fill_refs ref s).refs }
fill_refs-refs s ref =
    rw (fill_refs-link_refs s ref) (link_refs-refs 126 (ref + sizeof_pageref) (base s ref))

-- The references behind the first.
unfoldable pub run : ℕ → List ℕ
run ref = refs_up 126 (ref + sizeof_pageref)

base-inside :
    (s : State) (ref a : ℕ) → frame a ≡ ref → page_in (ref_data ((base s ref).refs a)) ≡ null
unfolding base bzero_refs page_in frame
base-inside s ref a e =
    let y : (leb ref a && ltb a (ref + page_size)) ≡ true = ground (arith, e) in rw y refl

base-outside :
    (s : State) (ref a : ℕ) → ref % page_size ≡ 0 → frame a ≢ ref → (base s ref).refs a ≡ s.refs a
unfolding base bzero_refs
base-outside s ref a aligned ne = elim (Bool-cases (leb ref a && ltb a (ref + page_size))) [
  | inl y ↦ absurd (ne (frame_within ref a aligned (ground arith) (ground arith)))
  | inr n ↦ rw n refl
]

pub run-frame : (ref a : ℕ) → ref % page_size ≡ 0 → has a (run ref) ≡ true → frame a ≡ ref
unfolding run
run-frame ref a aligned m =
    let (le, lt) = has-refs_up 126 (ref + sizeof_pageref) a m in
    frame_within ref a aligned (omega arith) (omega arith)

pub fill_refs-inside :
    (s : State) (ref a : ℕ) → frame a ≡ ref → page_in (ref_data ((fill_refs ref s).refs a)) ≡ null
fill_refs-inside s ref a e =
    rw (fill_refs-link_refs s ref, link_refs-data 126 (ref + sizeof_pageref) (base s ref) a)
      (base-inside s ref a e)

pub fill_refs-outside :
    (s : State) (ref a : ℕ)
    → ref % page_size ≡ 0
    → frame a ≢ ref
    → (ref_data ((fill_refs ref s).refs a) ≡ ref_data (s.refs a))
      × (next (fill_refs ref s) a ≡ next s a)
unfolding run
fill_refs-outside s ref a aligned ne =
    let b = base-outside s ref a aligned ne in
    rw (fill_refs-link_refs s ref) (
      link_refs-data 126 (ref + sizeof_pageref) (base s ref) a ∙ ap ref_data b,
      link_refs-other 126 (ref + sizeof_pageref) (base s ref) a (out (has a (run ref)) refl)
          ∙ ap (λ (r : PageRef). r.next) b,
    )
  where
    out : (o : Bool) → has a (run ref) ≡ o → has a (refs_up 126 (ref + sizeof_pageref)) ≡ false
    out true e = absurd (ne (run-frame ref a aligned e))
    out false e = e
