-- ===== src/Kheap/Heap/NewPage/Placed.antt =====
-- The heap after `new_page`.
use parallel_memory_allocato.Base.{
  ℕ, ◌<◌, ◌≡◌, ◌≢◌, refl, sym, ap, ◌∙◌, Bool, true, false, not, ◌&&◌, Bool-cases, inl, inr, ◌⊎◌,
  none, some, ◌∷◌, has, arith, ◌==◌, if◌then◌else◌,
}
use parallel_memory_allocato.Memlib.{null}
use parallel_memory_allocato.Kheap.Sizes.{n_sizes, frame}
use parallel_memory_allocato.Kheap.State.{State, PageRef, pr_pageaddr, pr_blocktype}
use parallel_memory_allocato.Kheap.State.Pack.{mkpab_lem}
use parallel_memory_allocato.Kheap.Subpage.{new_page}
use parallel_memory_allocato.Kheap.PageRefs.Remove.{next}
use parallel_memory_allocato.Kheap.Heap.{
  Loc, fresh, recycled, sized, loc_eq, head, idle, refs, small, ref_data, page_in, class_in,
  all_blocks, IsClass, IsListed, View, IsPage, IsHeap, live, room,
}
use parallel_memory_allocato.Kheap.Heap.Listed.{set_list, set_place, push-IsListed}
use parallel_memory_allocato.Kheap.Heap.Keep.{
  Changes, Changes-to, KeepsRefs, KeepsRefs-IsSubpages, KeepsRefs-SameBlock, IsChunks-frame,
}
use parallel_memory_allocato.Kheap.Heap.Keep.Blocks.{live_in_class}
use parallel_memory_allocato.Kheap.Heap.Refs.{dead}
use parallel_memory_allocato.Kheap.Heap.Carve.{
  carved-Chain, carved-other, all_blocks-length, all_blocks-IsDistinct,
}
use parallel_memory_allocato.Kheap.Heap.NewPage.{new_ref, Makes, new_page-Makes}

-- A page for the page reference `pr`: its own one, or one with no use if it has none.
pub record IsReady (s : State) (w : View) (pr page : ℕ) : Type 0 where
  pub valid : IsHeap s w
  pub spare : w.place pr ≡ none
  pub home : w.use_of (frame pr) ≡ refs
  pub ne_null : pr ≢ null
  pub in_segment : IsPage s page
  pub whose :
      (w.use_of page ≡ small pr) ⊎ (w.use_of page ≡ idle) × (page_in (ref_data (s.refs pr)) ≡ null)

module _ {s : State} {w : View} {pr page : ℕ} (g : IsReady s w pr page) (t : ℕ)
    (lt : t < n_sizes) where
  abbrev pub placed : View
  placed = record {
    lists = set_list w.lists (sized t) (pr ∷ w.lists (sized t));
    place = set_place w.place pr (some (sized t));
    use_of = λ q. if q == page then small pr else w.use_of q;
    free_blocks = λ a. if a == pr then all_blocks page t else w.free_blocks a;
    free_chunks = w.free_chunks;
  }

  uses : Changes idle (small pr) w.use_of placed.use_of
  uses q = elim (Bool-cases (q == page)) [
    | inl y ↦
        let e : q ≡ page = ground arith in
        elim g.whose [ inl z ↦ inl (rw (y, e, z) refl) | inr z ↦ inr (rw e z.0, rw y refl) ]
    | inr n ↦ inl (rw n refl)
  ]

  -- The page reference owns no other page.
  only_page : (q : ℕ) → w.use_of q ≡ small pr → q ≡ page
  only_page q u =
      let (at, home) = g.valid.subpages.owner q pr u in
      elim g.whose [
        | inl z ↦ sym at ∙ (g.valid.subpages.owner page pr z).0
        | inr z ↦ elim (g.valid.used q) [
          | inl i ↦ absurd (let y = sym u ∙ i in cc)
          | inr i ↦ absurd (i.1 (sym at ∙ z.1))
        ]
      ]

  not_other : (a : ℕ) → a ≢ pr → w.use_of page ≢ small a
  not_other a ne u = elim g.whose [
    | inl z ↦ ne (let y = sym u ∙ z in cc)
    | inr z ↦ absurd (let y = sym u ∙ z.0 in cc)
  ]

  module _ (s' : State) (m : Makes s t pr page s') where
    made-KeepsRefs : KeepsRefs s s' w placed idle (small pr) pr
    made-KeepsRefs = record {
      uses = uses;
      old_free = λ a z. absurd (cc);
      old_refs = λ z. absurd (cc);
      new_own = λ a ne z. ne (cc);
      data_eq = λ a ne. rw (m.other_ref a ne) refl;
      place_eq = λ a ne. ground arith;
      blocks_eq = λ a ne. ground arith;
      cells_eq = λ b a ne u.
          rw m.cells_eq
            (carved-other s page t lt b g.in_segment.0 (λ z. not_other a ne (rw (← z) u)));
    }

    made-head : (l : Loc) → loc_eq (sized t) l ≡ false → head s' l ≡ head s l
    made-head fresh e = m.fresh_eq
    made-head recycled e = m.recycled_eq
    made-head (sized u) e = m.other_base u (ground arith)

    made-IsListed : IsListed (next s') (head s') placed.lists placed.place
    made-IsListed =
        push-IsListed g.valid.subpages.linked (next s') (head s') (sized t) pr g.spare g.ne_null
          m.first_eq (ap (λ (r : PageRef). r.next) m.ref_eq) made-head
          (λ a ne. ap (λ (r : PageRef). r.next) (m.other_ref a ne))

    packed : (page_in (ref_data (s'.refs pr)) ≡ page) × (class_in (ref_data (s'.refs pr)) ≡ t)
    unfolding page_in class_in pr_pageaddr pr_blocktype
    packed =
        let (at, class, word) =
          mkpab_lem page t (new_ref s t pr page) g.in_segment.0 (omega arith) in
        rw m.ref_eq (at, class)

    own_use : (x : ℕ) → (if x == x then small pr else w.use_of x) ≡ small pr
    own_use x = ground arith

    made-IsClass : IsClass s'.cells (ref_data (s'.refs pr)) placed.use_of (all_blocks page t) pr t
    made-IsClass = record {
      below = lt;
      class = packed.1;
      owned = rw packed.0 (own_use page);
      chain = rw (m.ref_eq, m.cells_eq) (carved-Chain s page t lt g.in_segment.1);
      counted = rw m.ref_eq (sym (all_blocks-length s page t lt));
      distinct = all_blocks-IsDistinct s page t lt;
      legit = λ b z. rw packed.0 z;
    }

    made-IsHeap : IsHeap s' placed
    made-IsHeap = record {
      subpages =
          KeepsRefs-IsSubpages s s' w placed idle (small pr) pr made-KeepsRefs g.valid.subpages
            made-IsListed
            (λ l e.
              let q : sized t ≡ l = (let z = sym (own_place pr) ∙ e in cc) in
              (home_kept, rw (own_blocks pr, ← q) made-IsClass))
            (λ q u. (packed.0 ∙ sym (own_page q (q == page) refl u), home_kept));
      chunks =
          IsChunks-frame s s' w placed idle (small pr) uses (λ h z. absurd (cc))
            (λ h z. absurd (cc)) m.chunks_eq m.bigchunks_eq refl g.valid.chunks;
      used = λ q. elim (Bool-cases (q == page)) [
        | inl y ↦ let e : q ≡ page = ground arith in inr (rw (e, m.dseg_eq) g.in_segment)
        | inr n ↦ rw (n, m.dseg_eq) (g.valid.used q)
      ];
      ended = rw m.dseg_eq g.valid.ended;
    }
      where
        own_place : (x : ℕ) → (if x == x then some (sized t) else w.place x) ≡ some (sized t)
        own_place x = ground arith

        own_blocks :
            (x : ℕ) → (if x == x then all_blocks page t else w.free_blocks x) ≡ all_blocks page t
        own_blocks x = ground arith

        home_kept : placed.use_of (frame pr) ≡ refs
        home_kept = Changes-to uses (frame pr) refs (λ z. absurd (cc)) g.home

        own_page : (q : ℕ) (o : Bool) → (q == page) ≡ o → placed.use_of q ≡ small pr → q ≡ page
        own_page q true y u = ground arith
        own_page q false n u = only_page q (rw n at u)

    -- No block of the page is live before or after.
    made-live : (a : ℕ) → frame a ≡ page → (live s' placed a ≡ false) × (live s w a ≡ false)
    made-live a e = (
      live_in_class s' placed pr t page a e (own_use page) (own_place pr)
          ∙ rw (own_blocks pr) all_free,
      elim g.whose [
        | inl z ↦ dead s w pr a (rw e z) (λ u y. absurd (let x = sym g.spare ∙ y in cc))
        | inr z ↦ rw (e, z.0) refl
      ],
    )
      where
        own_place : (x : ℕ) → (if x == x then some (sized t) else w.place x) ≡ some (sized t)
        own_place x = ground arith

        own_blocks :
            (x : ℕ) → (if x == x then all_blocks page t else w.free_blocks x) ≡ all_blocks page t
        own_blocks x = ground arith

        all_free : (has a (all_blocks page t) && not (has a (all_blocks page t))) ≡ false
        all_free = ground arith

    made-SameBlocks :
        (a : ℕ)
        → (live s' placed a ≡ live s w a) × (live s w a ≡ true → room s' placed a ≡ room s w a)
    made-SameBlocks a = elim (Bool-cases (frame a == page)) [
      | inl y ↦
          let (after, before) = made-live a (ground arith) in
          (after ∙ sym before, λ z. absurd (let x = sym before ∙ z in cc))
      | inr n ↦
          let same =
            KeepsRefs-SameBlock s s' w placed idle (small pr) pr made-KeepsRefs refl m.chunks_eq a
              (rw n refl) (λ u. let z = only_page (frame a) u in absurd (ground arith)) in
          (same.0, λ z. same.1)
    ]

  -- After `new_page` the heap is in order, the same blocks are live with the same room, and the page
  -- has all its blocks free.
  pub new_page-IsHeap : IsHeap (new_page s t pr page) placed
  new_page-IsHeap = made-IsHeap (new_page s t pr page) (new_page-Makes s t pr page)

  pub new_page-SameBlocks :
      (a : ℕ)
      → (live (new_page s t pr page) placed a ≡ live s w a)
        × (live s w a ≡ true → room (new_page s t pr page) placed a ≡ room s w a)
  new_page-SameBlocks = made-SameBlocks (new_page s t pr page) (new_page-Makes s t pr page)

  pub new_page-place :
      (placed.place pr ≡ some (sized t)) × (placed.free_blocks pr ≡ all_blocks page t)
  new_page-place = (ground arith, ground arith)
