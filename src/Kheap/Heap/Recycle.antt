-- ===== src/Kheap/Heap/Recycle.antt =====
-- `recycle`: a page whose blocks are all free leaves the list of its class.
use parallel_memory_allocato.Base.{
  ℕ, zero, suc, ◌≤◌, ◌<◌, ◌≡◌, ◌≢◌, refl, sym, ◌∙◌, true, false, Bool-cases, inl, inr, none, some,
  ◌==◌, has, length, arith, if◌then◌else◌, leb, ltb, ok, Returns, Allows,
}
use parallel_memory_allocato.Memlib.{null}
use parallel_memory_allocato.A2alloc.Heap.Count.{length_bound, has_all}
use parallel_memory_allocato.A2alloc.Links.Unlink.{remove}
use parallel_memory_allocato.Kheap.Sizes.{n_sizes, frame, size_of}
use parallel_memory_allocato.Kheap.State.{State, put_ref, set_sizebase}
use parallel_memory_allocato.Kheap.PageRefs.{set_link, remove_lists_from, remove_lists, freepageref}
use parallel_memory_allocato.Kheap.PageRefs.Remove.{next, IsWithout, remove_lists-remove}
use parallel_memory_allocato.Kheap.Subpage.{recycle}
use parallel_memory_allocato.Kheap.Heap.{
  Loc, fresh, recycled, sized, loc_eq, head, small, ref_data, page_in, capacity, all_blocks, View,
  IsClass, IsHeap, live,
}
use parallel_memory_allocato.Kheap.Heap.Listed.{set_list, set_place, remove-IsListed, Chain-ne_null}
use parallel_memory_allocato.Kheap.Heap.Keep.{SameBlock}
use parallel_memory_allocato.Kheap.Heap.Keep.Blocks.{live_in_class}
use parallel_memory_allocato.Kheap.Heap.Refs.{Moves, move, Moves-IsHeap, Moves-SameBlocks, dead}
use parallel_memory_allocato.Kheap.Heap.Search.{list_bound}
use parallel_memory_allocato.Kheap.Heap.Subpage.{freepageref-Moves}

-- Only links and heads of size classes differ.
abbrev KeepsData : State → State → Type 0
KeepsData s s' =
    ((a : ℕ) → ref_data (s'.refs a) ≡ ref_data (s.refs a))
    × (s'.cells ≡ s.cells)
    × (s'.chunks ≡ s.chunks)
    × (s'.bigchunks ≡ s.bigchunks)
    × (s'.dseg ≡ s.dseg)
    × (s'.fresh_refs ≡ s.fresh_refs)
    × (s'.recycled_refs ≡ s.recycled_refs)

set_link-KeepsData : (s : State) (t before p : ℕ) → KeepsData s (set_link s t before p)
unfolding set_link put_ref set_sizebase
set_link-KeepsData s t before p = elim (Bool-cases (before == null)) [
  | inl y ↦ rw y ((λ a. refl), refl, refl, refl, refl, refl, refl)
  | inr n ↦ rw n ((λ a. fields a), refl, refl, refl, refl, refl, refl)
]
  where
    fields :
        (a : ℕ)
        → ref_data (if a == before then record (s.refs before) { next = p } else s.refs a)
          ≡ ref_data (s.refs a)
    fields a = elim (Bool-cases (a == before)) [
      | inl y ↦ let e : a ≡ before = ground arith in rw (y, e) refl
      | inr f ↦ rw f refl
    ]

remove_lists_from-KeepsData :
    (fuel : ℕ) (s : State) (t pr before cur : ℕ)
    → Allows (KeepsData s) (remove_lists_from fuel s t pr before cur)
unfolding remove_lists_from
remove_lists_from-KeepsData zero s t pr before cur = tt
remove_lists_from-KeepsData (suc n) s t pr before cur = elim (Bool-cases (cur == null)) [
  | inl y ↦ rw y ((λ a. refl), refl, refl, refl, refl, refl, refl)
  | inr f ↦ elim (Bool-cases (cur == pr)) [
    | inl y ↦ rw (f, y) (set_link-KeepsData s t before (next s pr))
    | inr g ↦ rw (f, g) (remove_lists_from-KeepsData n s t pr cur (next s cur))
  ]
]

remove_lists-KeepsData :
    (fuel : ℕ) (s s' : State) (pr t : ℕ)
    → t < n_sizes
    → remove_lists fuel s pr t ≡ ok s'
    → KeepsData s s'
unfolding remove_lists
remove_lists-KeepsData fuel s s' pr t lt e =
    let below : ltb t n_sizes ≡ true = ground arith in
    let k = remove_lists_from-KeepsData fuel s t pr null (s.sizebases t) in rw (rw below at e) at k

module _ (s : State) (w : View) (v : IsHeap s w) (pr t : ℕ)
    (here : w.place pr ≡ some (sized t)) where
  class_here : IsClass s.cells (ref_data (s.refs pr)) w.use_of (w.free_blocks pr) pr t
  class_here = v.subpages.item pr (sized t) here

  -- Without the page reference on the list of its class.
  without : View
  without =
      move w (set_list w.lists (sized t) (remove pr (w.lists (sized t))))
        (set_place w.place pr none)

  out_now : (set_place w.place pr none) pr ≡ none
  out_now = ground arith

  removed-Moves :
      (s' : State)
      → KeepsData s s'
      → IsWithout s t pr (w.lists (sized t)) s'
      → Moves s s' w
          (set_list w.lists (sized t) (remove pr (w.lists (sized t))))
          (set_place w.place pr none)
          pr
  removed-Moves s' (fields, cells, chunks, big, dseg, first, second) (chain, bases, same) = record {
    valid = v;
    data_eq = fields;
    place_eq = λ a ne. ground arith;
    linked =
        remove-IsListed v.subpages.linked (next s') (head s') (sized t) pr here chain heads same;
    own = λ k z. absurd (let y = sym out_now ∙ z in cc);
    cells_eq = cells;
    chunks_eq = chunks;
    bigchunks_eq = big;
    dseg_eq = dseg;
  }
    where
      heads : (k : Loc) → loc_eq (sized t) k ≡ false → head s' k ≡ head s k
      heads fresh n = first
      heads recycled n = second
      heads (sized u) n = bases u (λ z. let e : (t == u) ≡ true = ground arith in cc)

  page_bound : length (w.free_blocks pr) ≤ capacity t
  page_bound =
      length_bound (page_in (ref_data (s.refs pr))) (size_of t) (capacity t) (w.free_blocks pr)
        class_here.legit class_here.distinct

  -- As many free blocks as the page has are all its blocks.
  unused :
      capacity t ≤ length (w.free_blocks pr)
      → (a : ℕ) → w.use_of (frame a) ≡ small pr
      → live s w a ≡ false
  unused full a u =
      let at = (v.subpages.owner (frame a) pr u).0 in
      live_in_class s w pr t (frame a) a refl u here
      ∙ elim (Bool-cases (has a (all_blocks (frame a) t))) [
        | inl y ↦
            let m =
              has_all (page_in (ref_data (s.refs pr))) (size_of t) (capacity t) (w.free_blocks pr)
                class_here.legit class_here.distinct full a (rw at y) in
            rw (y, m) refl
        | inr n ↦ rw n refl
      ]

  -- The heap is in order after a call, and the same blocks are live.
  abbrev pub Settles : State → Type 0
  Settles s' = (w' : View) × IsHeap s' w' × ((a : ℕ) → SameBlock s w s' w' a)

  retired-Settles :
      (s' : State)
      → capacity t ≤ length (w.free_blocks pr)
      → KeepsData s s'
      → IsWithout s t pr (w.lists (sized t)) s'
      → Settles (freepageref s' pr)
  unfolding without
  retired-Settles s' full k z =
      let m = removed-Moves s' k z in
      let keep = Moves-SameBlocks m (unused full) (λ u e. absurd (let y = sym out_now ∙ e in cc)) in
      let same : ref_data (s'.refs pr) ≡ ref_data (s.refs pr) = k.0 pr in
      let nn =
        Chain-ne_null _ _ pr (w.lists (sized t)) (v.subpages.linked.chain (sized t))
          (v.subpages.linked.listed (sized t) pr here) in
      let m2 =
        freepageref-Moves s' without pr (Moves-IsHeap m) out_now (v.subpages.home pr (sized t) here)
          nn (inr (rw same class_here.owned)) in
      let keep2 =
        Moves-SameBlocks m2
          (λ a u. dead s' without pr a u (λ x e. absurd (let y = sym out_now ∙ e in cc)))
          (λ x e. not_sized pr x e) in
      (_, Moves-IsHeap m2, λ a. ((keep2 a).0 ∙ (keep a).0, (keep2 a).1 ∙ (keep a).1))
    where
      not_sized :
          (y x : ℕ)
          → (if y == y then some recycled else set_place w.place pr none y) ≢ some (sized x)
      not_sized y x z = absurd (let e : (y == y) ≡ true = ground arith in let q = rw e at z in cc)

  pub recycle-Settles : (fuel : ℕ) → s.dseg.dseg_end < fuel → Returns Settles (recycle fuel s pr t)
  unfolding recycle
  recycle-Settles fuel enough =
      let counted : (s.refs pr).nfree ≡ length (w.free_blocks pr) = class_here.counted in
      let bound : leb (s.refs pr).nfree (capacity t) ≡ true = let b = page_bound in ground arith in
      elim (Bool-cases ((s.refs pr).nfree == capacity t)) [
        | inl y ↦
            let full : capacity t ≤ length (w.free_blocks pr) = ground arith in
            let (s', run, z) =
              remove_lists-remove fuel s pr t (w.lists (sized t)) class_here.below
                (v.subpages.linked.chain (sized t)) (v.subpages.linked.distinct (sized t))
                (v.subpages.linked.listed (sized t) pr here)
                (omega (arith, list_bound s w v (sized t))) in
            rw (bound, y, run)
              (retired-Settles s' full (remove_lists-KeepsData fuel s s' pr t class_here.below run)
                z)
        | inr n ↦ rw (bound, n) (w, v, λ a. (refl, refl))
      ]
