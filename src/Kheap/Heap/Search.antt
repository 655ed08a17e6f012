-- ===== src/Kheap/Heap/Search.antt =====
-- The searches of kheap.c in a heap in order.
use parallel_memory_allocato.Base.{
  ℕ, zero, suc, ◌+◌, ◌*◌, ◌≤◌, ◌<◌, ◌≡◌, ◌≢◌, refl, sym, ◌∙◌, ap, Bool, true, false, Bool-cases,
  inl, inr, ◌⊎◌, some, List, [], ◌∷◌, ◌==◌, has, length, arith, Returns,
}
use parallel_memory_allocato.Memlib.{null}
use parallel_memory_allocato.A2alloc.Blocks.{blocks_down}
use parallel_memory_allocato.A2alloc.Heap.Count.{length_bound}
use parallel_memory_allocato.Kheap.Sizes.{frame, size_of, largest_subpage_size}
use parallel_memory_allocato.Kheap.Sizes.Choice.{blocktype_lem}
use parallel_memory_allocato.Kheap.State.{State, pr_blocktype}
use parallel_memory_allocato.Kheap.Subpage.{doalloc, subpage_kmalloc}
use parallel_memory_allocato.Kheap.Subpage.Search.{first_of, is_ready, find_page-first_of}
use parallel_memory_allocato.Kheap.Heap.{Loc, sized, part, class_in, View, IsHeap, Allots}
use parallel_memory_allocato.Kheap.Heap.Layout.{frame_le}
use parallel_memory_allocato.Kheap.Heap.Listed.{Chain-ne_null}
use parallel_memory_allocato.Kheap.Heap.Take.{doalloc-Allots}
use parallel_memory_allocato.Kheap.Heap.Subpage.{kmalloc_new-Allots}

pub has_below : (n a : ℕ) → a < n → has a (blocks_down 0 1 n) ≡ true
unfolding blocks_down
has_below zero a lt = absurd (omega arith)
has_below (suc n) a lt = elim (Bool-cases (a == 0 + n * 1)) [
  | inl y ↦ ground arith
  | inr f ↦ let other : a < n = ground arith in ground (arith, has_below n a other)
]

-- The search stops at the first of the list that the test is true of.
pub first_of-cases :
    (test : ℕ → Bool) (xs : List ℕ)
    → ((a : ℕ) → has a xs ≡ true → a ≢ null)
    → (first_of test xs ≡ null) × ((a : ℕ) → has a xs ≡ true → test a ≡ false)
      ⊎ (has (first_of test xs) xs ≡ true) × (test (first_of test xs) ≡ true)
first_of-cases test [] nn = inl (refl, λ a m. cc)
first_of-cases test (x ∷ xs) nn = elim (Bool-cases (test x)) [
  | inl y ↦ let self : (x == x) ≡ true = ground arith in inr (rw (y, self) (refl, y))
  | inr n ↦ elim (first_of-cases test xs (λ a m. nn a (ground arith))) [
    | inl (e, k) ↦ inl (
      rw n e,
      λ a m. elim (Bool-cases (a == x)) [
        | inl z ↦ let q : a ≡ x = ground arith in rw q n
        | inr z ↦ k a (ground arith)
      ],
    )
    | inr (m, t) ↦
        let step : first_of test (x ∷ xs) ≡ first_of test xs = rw n refl in
        inr (ap (λ z. has z (x ∷ xs)) step ∙ further _ m, ap test step ∙ t)
  ]
]
  where
    further : (y : ℕ) → has y xs ≡ true → has y (x ∷ xs) ≡ true
    further y m = ground arith

module _ (s : State) (w : View) (v : IsHeap s w) where
  -- A page reference of a list lies below the end of the segment.
  below_end : (l : Loc) (pr : ℕ) → has pr (w.lists l) ≡ true → pr < s.dseg.dseg_end
  below_end l pr m =
      let home = v.subpages.home pr l (v.subpages.linked.placed l pr m) in
      elim (v.used (frame pr)) [
        | inl i ↦ absurd (let z = sym home ∙ i in cc)
        | inr (aligned, nn, lt) ↦ omega (arith, frame_le pr, v.ended)
      ]

  pub part_below : (hdr : ℕ) → w.use_of hdr ≡ part hdr → hdr < s.dseg.dseg_end
  part_below hdr own = elim (v.used hdr) [
    | inl i ↦ absurd (let z = sym own ∙ i in cc)
    | inr (aligned, nn, lt) ↦ lt
  ]

  pub list_bound : (l : Loc) → length (w.lists l) ≤ s.dseg.dseg_end
  list_bound l =
      length_bound 0 1 s.dseg.dseg_end (w.lists l)
        (λ a m. has_below s.dseg.dseg_end a (below_end l a m)) (v.subpages.linked.distinct l)

  pub class_of : (t pr : ℕ) → has pr (w.lists (sized t)) ≡ true → pr_blocktype (s.refs pr) ≡ t
  unfolding pr_blocktype class_in
  class_of t pr m = (v.subpages.item pr (sized t) (v.subpages.linked.placed (sized t) pr m)).class

  pub listed-ne_null : (l : Loc) (a : ℕ) → has a (w.lists l) ≡ true → a ≢ null
  listed-ne_null l a m = Chain-ne_null _ _ a (w.lists l) (v.subpages.linked.chain l) m

  ready-Allots :
      (t pr size : ℕ)
      → size ≤ size_of t
      → has pr (w.lists (sized t)) ≡ true
      → is_ready s pr ≡ true
      → Returns (Allots s w size) (doalloc s pr)
  ready-Allots t pr size fits m ready =
      let here = v.subpages.linked.placed (sized t) pr m in
      go here (w.free_blocks pr) refl (v.subpages.item pr (sized t) here).counted
    where
      go :
          w.place pr ≡ some (sized t)
          → (bs : List ℕ) → w.free_blocks pr ≡ bs
          → (s.refs pr).nfree ≡ length (w.free_blocks pr)
          → Returns (Allots s w size) (doalloc s pr)
      go here [] e n = let z : (s.refs pr).nfree ≡ 0 = n ∙ rw e refl in absurd (ground arith)
      go here (b ∷ bs) e n = doalloc-Allots s w v pr b t bs here e size fits

  -- In a heap in order, with fuel above the end of the segment, `subpage_kmalloc` of at most 2048
  -- bytes returns, and the heap is in order. Either the result is NULL and the same blocks are live, or
  -- it was not live and is now, beside the old ones, with room for the size. The old ones have the
  -- room that they had.
  pub subpage_kmalloc-Allots :
      (fuel size : ℕ)
      → size ≤ largest_subpage_size
      → s.dseg.dseg_end < fuel
      → Returns (Allots s w size) (subpage_kmalloc fuel size s)
  unfolding subpage_kmalloc
  subpage_kmalloc-Allots fuel size le enough =
      let (t, e, lt, fits, least) = (blocktype_lem size).0 le in
      let found =
        find_page-first_of fuel s t (s.sizebases t) (w.lists (sized t))
          (v.subpages.linked.chain (sized t)) (class_of t) (omega (arith, list_bound (sized t))) in
      rw (e, found)
        (elim (first_of-cases (is_ready s) (w.lists (sized t)) (listed-ne_null (sized t))) [
          | inl (z, k) ↦ rw z (kmalloc_new-Allots s w v t size lt fits)
          | inr (m, ready) ↦
              let nn = listed-ne_null (sized t) _ m in
              let f : (first_of (is_ready s) (w.lists (sized t)) == null) ≡ false = ground arith in
              rw f (ready-Allots t _ size fits m ready)
        ])
