-- ===== src/Kheap/Heap/Subpage.antt =====
-- `subpage_kmalloc`.
use parallel_memory_allocato.Base.{
  ℕ, suc, ◌-◌, ◌≤◌, ◌<◌, ◌≡◌, ◌≢◌, refl, sym, ap, ◌∙◌, true, false, Bool-cases, inl, inr, none,
  some, ◌∷◌, arith, ◌==◌, if◌then◌else◌, ok, ◌>>=◌, Returns, Returns-map, Returns-bind,
}
use parallel_memory_allocato.Memlib.{null}
use parallel_memory_allocato.Client.{Allots-after, Allots-none}
use parallel_memory_allocato.A2alloc.Blocks.{blocks_down}
use parallel_memory_allocato.A2alloc.Blocks.Carve.{blocks_down-suc}
use parallel_memory_allocato.Kheap.Sizes.{n_sizes, size_of, frame}
use parallel_memory_allocato.Kheap.State.{State, PageRef, put_ref, pr_pageaddr}
use parallel_memory_allocato.Kheap.PageRefs.{freepageref, allocpageref}
use parallel_memory_allocato.Kheap.PageRefs.Remove.{next}
use parallel_memory_allocato.Kheap.Subpage.{page_address, new_page, doalloc, kmalloc_new}
use parallel_memory_allocato.Kheap.Heap.{
  Loc, fresh, recycled, sized, loc_eq, head, refs, ref_data, page_in, capacity, IsSpare, IsHeap,
  View, live, room, Allots,
}
use parallel_memory_allocato.Kheap.Heap.Layout.{capacity_bounds}
use parallel_memory_allocato.Kheap.Heap.Listed.{set_list, set_place, push-IsListed}
use parallel_memory_allocato.Kheap.Heap.Keep.{SameBlock}
use parallel_memory_allocato.Kheap.Heap.Grow.{
  grown-refs, grown-IsHeap, grown-SameBlock, end_idle, sbrk_cases,
}
use parallel_memory_allocato.Kheap.Heap.Take.{doalloc-Allots}
use parallel_memory_allocato.Kheap.Heap.Refs.{Obtains, Moves, Moves-IsHeap, Moves-SameBlocks, dead}
use parallel_memory_allocato.Kheap.Heap.Refs.Alloc.{allocpageref-Obtains, end-IsPage}
use parallel_memory_allocato.Kheap.Heap.NewPage.Placed.{
  IsReady, placed, new_page-IsHeap, new_page-SameBlocks, new_page-place,
}

-- A page reference that is on no list goes to the front of the recycled ones.
pub freepageref-Moves :
    (s : State) (w : View) (pr : ℕ)
    → IsHeap s w
    → w.place pr ≡ none
    → w.use_of (frame pr) ≡ refs
    → pr ≢ null
    → IsSpare (ref_data (s.refs pr)) w.use_of pr
    → Moves s
        (freepageref s pr)
        w
        (set_list w.lists recycled (pr ∷ w.lists recycled))
        (set_place w.place pr (some recycled))
        pr
unfolding freepageref put_ref
freepageref-Moves s w pr v out home nn spare = record {
  valid = v;
  data_eq = λ a. ground arith;
  place_eq = λ a ne. ground arith;
  linked =
      push-IsListed v.subpages.linked (next (freepageref s pr)) (head (freepageref s pr)) recycled
        pr out nn refl (ground arith) (λ k e. other k e) (λ a ne. ground arith);
  own = λ l e.
      let q : recycled ≡ l = (let z = sym (own_place pr) ∙ e in cc) in (home, rw (← q) spare);
  cells_eq = refl;
  chunks_eq = refl;
  bigchunks_eq = refl;
  dseg_eq = refl;
}
  where
    own_place : (x : ℕ) → (if x == x then some recycled else w.place x) ≡ some recycled
    own_place x = ground arith

    other : (k : Loc) → loc_eq recycled k ≡ false → head (freepageref s pr) k ≡ head s k
    other fresh e = refl
    other recycled e = absurd (cc)
    other (sized t) e = refl

module _ (s : State) (w : View) (pr : ℕ) (v : IsHeap s w) (out : w.place pr ≡ none)
    (home : w.use_of (frame pr) ≡ refs) (nn : pr ≢ null)
    (spare : IsSpare (ref_data (s.refs pr)) w.use_of pr) where
  -- The page of a page reference, NULL if there is none.
  abbrev Addressed : ℕ × State → Type 0
  Addressed (page, s') =
      IsHeap s' w
      × (s'.refs ≡ s.refs)
      × ((a : ℕ) → SameBlock s w s' w a)
      × (page ≢ null → IsReady s' w pr page)

  page_address-Addressed : Returns Addressed (page_address s pr)
  unfolding page_address pr_pageaddr page_in
  page_address-Addressed = elim (Bool-cases (frame (s.refs pr).pageaddr_and_blocktype == null)) [
    | inl y ↦ rw y (elim (sbrk_cases s 1 (omega arith)) [
      | inl e ↦ rw e (v, refl, λ a. (refl, refl), λ z. absurd (z refl))
      | inr e ↦ rw e (
        grown-IsHeap s w v 1,
        grown-refs s 1,
        grown-SameBlock s w v 1,
        λ z. record {
          valid = grown-IsHeap s w v 1;
          spare = out;
          home = home;
          ne_null = nn;
          in_segment = end-IsPage s w v 1 (omega arith) z;
          whose = inr (
            end_idle s w v s.dseg.dseg_end (omega arith),
            ap (λ (f : ℕ → PageRef). page_in (ref_data (f pr))) (grown-refs s 1) ∙ ground arith,
          );
        },
      )
    ])
    | inr n ↦ rw n (
      v,
      refl,
      λ a. (refl, refl),
      λ z. elim spare [
        | inl e ↦ absurd (ground arith)
        | inr u ↦ elim (v.used _) [
          | inl i ↦ absurd (let y = sym u ∙ i in cc)
          | inr i ↦ record {
            valid = v;
            spare = out;
            home = home;
            ne_null = nn;
            in_segment = i;
            whose = inl u;
          }
        ]
      ],
    )
  ]

  -- The rest of `subpage_kmalloc` with a page.
  with_page :
      (t size page : ℕ) (s2 : State)
      → t < n_sizes
      → size ≤ size_of t
      → Addressed (page, s2)
      → page ≢ null
      → Returns (Allots s w size) (doalloc (new_page s2 t pr page) pr)
  with_page t size page s2 lt fits (v2, same_refs, same, ready) some_page =
      let g = ready some_page in
      let s3 = new_page s2 t pr page in
      let w3 = placed g t lt in
      let (here, free) = new_page-place g t lt in
      let full : capacity t ≡ suc (capacity t - 1) = omega (arith, capacity_bounds t lt) in
      let blocks =
        free
        ∙ ap (blocks_down page (size_of t)) full
        ∙ blocks_down-suc page (size_of t) (capacity t - 1) in
      Returns-map (Allots s3 w3 size) (Allots s w size) _
        (doalloc-Allots s3 w3 (new_page-IsHeap g t lt) pr _ t _ here blocks size fits)
        (λ r k.
          Allots-after IsHeap live room s s3 w w3 size r
            (λ a. (new_page-SameBlocks g t lt a).0 ∙ (same a).0)
            (λ a m. (new_page-SameBlocks g t lt a).1 ((same a).0 ∙ m) ∙ (same a).1) k)

  -- Without one, the page reference is kept for later.
  without_page :
      (size : ℕ) (s2 : State) → Addressed (null, s2) → Allots s w size (null, freepageref s2 pr)
  without_page size s2 (v2, same_refs, same, ready) =
      let m = freepageref-Moves s2 w pr v2 out home nn (rw same_refs spare) in
      let keep =
        Moves-SameBlocks m (λ a u. dead s2 w pr a u (λ t z. absurd (let y = sym out ∙ z in cc)))
          (λ t z. not_sized pr t z) in
      Allots-none IsHeap live room s (freepageref s2 pr) w _ size (Moves-IsHeap m)
        (λ a. (keep a).0 ∙ (same a).0) (λ a z. (keep a).1 ∙ (same a).1)
    where
      not_sized : (x t : ℕ) → (if x == x then some recycled else w.place x) ≢ some (sized t)
      not_sized x t z = absurd (let y : (x == x) ≡ true = ground arith in let q = rw y at z in cc)

  Addressed-Allots :
      (t size : ℕ) (r : ℕ × State)
      → t < n_sizes
      → size ≤ size_of t
      → Addressed r
      → Returns
          (Allots s w size)
          (if r.0 == 0 then ok (null, freepageref r.1 pr) else doalloc (new_page r.1 t pr r.0) pr)
  Addressed-Allots t size (page, s2) lt fits k = elim (Bool-cases (page == 0)) [
    | inl y ↦ let e : page ≡ null = ground arith in rw y (without_page size s2 (rw e at k))
    | inr n ↦ rw n (with_page t size page s2 lt fits k (ground arith))
  ]

module _ (s : State) (w : View) (v : IsHeap s w) where
  obtained-Allots :
      (t size : ℕ) (r : ℕ × State)
      → t < n_sizes
      → size ≤ size_of t
      → Obtains s w r
      → Returns (Allots s w size) (
          if r.0 == null
          then ok (null, r.1)
          else (page_address r.1 r.0 >>= λ p.
              if p.0 == 0
              then ok (null, freepageref p.1 r.0)
              else doalloc (new_page p.1 t r.0 p.0) r.0))
  obtained-Allots t size (pr, s1) lt fits (w1, v1, same, found) = elim (Bool-cases (pr == null)) [
    | inl y ↦
        rw y (Allots-none IsHeap live room s s1 w w1 size v1 (λ a. (same a).0) (λ a m. (same a).1))
    | inr n ↦
        let nn : pr ≢ null = ground arith in
        let (out, home, spare) = found nn in
        rw n (
          Returns-map (Allots s1 w1 size) (Allots s w size) _
            (Returns-bind (Addressed s1 w1 pr v1 out home nn spare) (Allots s1 w1 size)
              (page_address s1 pr) _ (page_address-Addressed s1 w1 pr v1 out home nn spare)
              (λ p k. Addressed-Allots s1 w1 pr v1 out home nn spare t size p lt fits k))
            (λ p k.
              Allots-after IsHeap live room s s1 w w1 size p (λ a. (same a).0) (λ a m. (same a).1)
                k))
  ]

  pub kmalloc_new-Allots :
      (t size : ℕ) → t < n_sizes → size ≤ size_of t → Returns (Allots s w size) (kmalloc_new s t)
  unfolding kmalloc_new
  kmalloc_new-Allots t size lt fits =
      Returns-bind (Obtains s w) (Allots s w size) (allocpageref s) _ (allocpageref-Obtains s w v)
        (λ r found. obtained-Allots t size r lt fits found)
