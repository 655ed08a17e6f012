-- ===== src/Kheap/Heap/Refs/Alloc.antt =====
-- `allocpageref`.
use parallel_memory_allocato.Base.{
  ℕ, ◌<◌, ◌≡◌, ◌≢◌, refl, sym, ◌∙◌, ap, true, false, Bool-cases, inl, inr, List, [], ◌∷◌, ◌==◌,
  arith, Returns,
}
use parallel_memory_allocato.Memlib.{null}
use parallel_memory_allocato.Kheap.State.{State}
use parallel_memory_allocato.Kheap.PageRefs.{allocpageref, new_refs}
use parallel_memory_allocato.Kheap.Heap.{
  Loc, fresh, recycled, sized, loc_eq, head, View, IsPage, IsHeap,
}
use parallel_memory_allocato.Kheap.Heap.Grow.{
  grown, grown-end, grown-IsHeap, grown-SameBlock, end_idle, sbrk_cases,
}
use parallel_memory_allocato.Kheap.Heap.Refs.{Obtains, pop-Obtains}
use parallel_memory_allocato.Kheap.Heap.Refs.Filled.{
  fill_refs-IsHeap, fill_refs-SameBlock, fill_refs-first, view,
}

other_recycled :
    (s : State) (p : ℕ) (k : Loc)
    → loc_eq recycled k ≡ false
    → head (record s { recycled_refs = p }) k ≡ head s k
other_recycled s p fresh e = refl
other_recycled s p recycled e = absurd (cc)
other_recycled s p (sized t) e = refl

other_fresh :
    (s : State) (p : ℕ) (k : Loc)
    → loc_eq fresh k ≡ false
    → head (record s { fresh_refs = p }) k ≡ head s k
other_fresh s p fresh e = absurd (cc)
other_fresh s p recycled e = refl
other_fresh s p (sized t) e = refl

module _ (s : State) (w : View) (v : IsHeap s w) where
  -- A page that `mem_sbrk` granted.
  pub end-IsPage : (n : ℕ) → 0 < n → s.dseg.dseg_end ≢ null → IsPage (grown s n) s.dseg.dseg_end
  end-IsPage n pos nn = (v.ended, nn, omega (arith, grown-end s n))

  new_refs-Obtains : w.lists fresh ≡ [] → Returns (Obtains s w) (new_refs s)
  unfolding new_refs
  new_refs-Obtains empty = elim (sbrk_cases s 1 (omega arith)) [
    | inl e ↦ rw e (w, v, λ a. (refl, refl), λ nn. absurd (nn refl))
    | inr e ↦ rw e (elim (Bool-cases (s.dseg.dseg_end == null)) [
      | inl z ↦
          rw z (w, grown-IsHeap s w v 1, grown-SameBlock s w v 1, λ nn. absurd (nn (ground arith)))
      | inr n ↦
          let page = end-IsPage 1 (omega arith) (ground arith) in
          let idle_page = end_idle s w v s.dseg.dseg_end (omega arith) in
          let v1 = grown-IsHeap s w v 1 in
          let s1 = grown s 1 in
          let first = fill_refs-first s1 w v1 s.dseg.dseg_end page idle_page empty in
          rw n (
            view s1 w v1 s.dseg.dseg_end page idle_page empty,
            fill_refs-IsHeap s1 w v1 s.dseg.dseg_end page idle_page empty,
            λ a.
                let x = fill_refs-SameBlock s1 w v1 s.dseg.dseg_end page idle_page empty a in
                let y = grown-SameBlock s w v 1 a in (x.0 ∙ y.0, x.1 ∙ y.1),
            λ nn. (first.0, first.1, inl first.2),
          )
    ])
  ]

  -- In a heap in order `allocpageref` returns NULL or a page reference that is on no list, and leaves
  -- the heap in order and the same blocks live.
  pub allocpageref-Obtains : Returns (Obtains s w) (allocpageref s)
  unfolding allocpageref
  allocpageref-Obtains = from (w.lists recycled) (w.lists fresh) refl refl
    where
      from :
          (rs fs : List ℕ)
          → w.lists recycled ≡ rs
          → w.lists fresh ≡ fs
          → Returns (Obtains s w) (allocpageref s)
      from (x ∷ xs) fs r f =
          let (e, nn, tail) = rw r at (v.subpages.linked.chain recycled) in
          let ne : (s.recycled_refs == null) ≡ false = ground arith in
          rw ne (
            pop-Obtains s _ w recycled s.recycled_refs xs v (λ t z. absurd (cc))
              (r ∙ ap (λ (z : ℕ). z ∷ xs) (sym e)) refl refl refl refl refl refl
              (other_recycled s _))
      from [] (x ∷ xs) r f =
          let none_left = rw r at (v.subpages.linked.chain recycled) in
          let (e, nn, tail) = rw f at (v.subpages.linked.chain fresh) in
          let t1 : (s.recycled_refs == null) ≡ true = ground arith in
          let ne : (s.fresh_refs == null) ≡ false = ground arith in
          rw (t1, ne)
            (pop-Obtains s _ w fresh s.fresh_refs xs v (λ t z. absurd (cc))
              (f ∙ ap (λ (z : ℕ). z ∷ xs) (sym e)) refl refl refl refl refl refl (other_fresh s _))
      from [] [] r f =
          let none_left = rw r at (v.subpages.linked.chain recycled) in
          let none_fresh = rw f at (v.subpages.linked.chain fresh) in
          let t1 : (s.recycled_refs == null) ≡ true = ground arith in
          let t2 : (s.fresh_refs == null) ≡ true = ground arith in rw (t1, t2) (new_refs-Obtains f)
