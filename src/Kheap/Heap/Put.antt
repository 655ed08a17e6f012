-- ===== src/Kheap/Heap/Put.antt =====
-- `put_back`: a block goes back to the free blocks of its page.
use native.Mathlib.Nat.{mul-mod_left}
use parallel_memory_allocato.Base.{
  ℕ, ◌+◌, ◌≤◌, ◌-◌, ◌*◌, ◌%◌, ◌≡◌, ◌≢◌, refl, sym, ◌∙◌, Bool, true, false, not, ◌&&◌, ◌||◌,
  Bool-cases, inl, inr, some, ◌∷◌, ◌==◌, has, arith, if◌then◌else◌, leb, ltb, ◌<◌,
}
use parallel_memory_allocato.Memlib.{null}
use parallel_memory_allocato.A2alloc.Blocks.{Chain-frame}
use parallel_memory_allocato.A2alloc.Links.Segment.{ne_of_has}
use parallel_memory_allocato.Kheap.Sizes.{page_size, frame, size_of}
use parallel_memory_allocato.Kheap.State.{State, put_ref, put_cell, pr_pageaddr, pr_blocktype}
use parallel_memory_allocato.Kheap.Subpage.{fill_deadbeef, put_back}
use parallel_memory_allocato.Kheap.Heap.{
  Loc, capacity, fresh, recycled, sized, head, small, ref_data, page_in, class_in, all_blocks, View,
  IsClass, IsHeap, live,
}
use parallel_memory_allocato.Kheap.Heap.Layout.{
  slots, frame_within, block_at, frame_le, capacity_bounds,
}
use parallel_memory_allocato.Kheap.Heap.Keep.Blocks.{
  reblock, Reblocks, Reblocks-live, Reblocks-live_before, Reblocks-SameBlock,
}

put_back-head : (s : State) (pr ptr : ℕ) (l : Loc) → head (put_back s pr ptr) l ≡ head s l
unfolding put_back put_ref put_cell fill_deadbeef
put_back-head s pr ptr fresh = refl
put_back-head s pr ptr recycled = refl
put_back-head s pr ptr (sized t) = refl

module _ (s : State) (w : View) (v : IsHeap s w) (pr ptr t : ℕ) (here : w.place pr ≡ some (sized t))
    (owned : w.use_of (frame ptr) ≡ small pr) (alive : live s w ptr ≡ true) where
  before : IsClass s.cells (ref_data (s.refs pr)) w.use_of (w.free_blocks pr) pr t
  before = v.subpages.item pr (sized t) here

  pub page_at : page_in (ref_data (s.refs pr)) ≡ frame ptr
  page_at = (v.subpages.owner (frame ptr) pr owned).0

  -- A live block is a block of its page that is not free.
  block : (has ptr (all_blocks (frame ptr) t) ≡ true) × (has ptr (w.free_blocks pr) ≡ false)
  block =
      let e : (has ptr (all_blocks (frame ptr) t) && not (has ptr (w.free_blocks pr))) ≡ true =
        rw (owned, here) at alive in
      ground arith

  -- The checks of `subpage_kfree` on the offset.
  pub offset :
      leb page_size (ptr - pr_pageaddr (s.refs pr))
        || not ((ptr - pr_pageaddr (s.refs pr)) % size_of (pr_blocktype (s.refs pr)) == 0)
      ≡ false
  unfolding pr_pageaddr pr_blocktype page_in class_in
  offset =
      let (i, below, e, inside) = block_at (frame ptr) t ptr before.below block.0 in
      let at : ptr - frame (s.refs pr).pageaddr_and_blocktype ≡ i * size_of t =
        omega (arith, e, page_at) in
      let bounds = capacity_bounds t before.below in
      let first : leb page_size (i * size_of t) ≡ false = ground arith in
      rw (before.class, at, mul-mod_left i (size_of t), first) refl

  ptr-ne_null : ptr ≢ null
  ptr-ne_null z = elim (v.used (frame ptr)) [
    | inl i ↦ absurd (let e = sym owned ∙ i in cc)
    | inr (aligned, nn, lt) ↦ absurd (nn (omega (arith, frame_le ptr, z)))
  ]

  -- The word of a block that does not overlap the block is as before.
  put_back-cells :
      (a : ℕ)
      → (leb ptr a && ltb a (ptr + size_of t)) ≡ false
      → (put_back s pr ptr).cells a ≡ s.cells a
  unfolding put_back put_ref put_cell fill_deadbeef pr_blocktype class_in
  put_back-cells a out =
      let apart : (a == ptr) ≡ false = not_first a out in
      let inside : (leb ptr a
            && ltb a (ptr + size_of ((s.refs pr).pageaddr_and_blocktype % page_size)))
          ≡ false =
        rw before.class out in
      rw (apart, inside) refl
    where
      not_first : (a : ℕ) → (leb ptr a && ltb a (ptr + size_of t)) ≡ false → (a == ptr) ≡ false
      not_first a o = let (two, eight, whole) = capacity_bounds t before.below in ground arith

  -- Another block of the page does not overlap the block.
  other_block :
      (a : ℕ) → has a (w.free_blocks pr) ≡ true → (leb ptr a && ltb a (ptr + size_of t)) ≡ false
  other_block a m =
      let ne = ne_of_has a ptr (w.free_blocks pr) block.1 m in
      let (i, lt, at, inside) = block_at (frame ptr) t ptr before.below block.0 in
      let (j, lt2, at2, inside2) =
        block_at (frame ptr) t a before.below (rw page_at at (before.legit a m)) in
      elim (Bool-cases (ltb i j)) [
        | inl y ↦
            let ij : i < j = ground arith in
            let past : ptr + size_of t ≤ a = omega (arith, slots i j (size_of t) ij, at, at2) in
            ground arith
        | inr f ↦ elim (Bool-cases (ltb j i)) [
          | inl y ↦
              let ji : j < i = ground arith in
              let (two, eight, whole) = capacity_bounds t before.below in
              let under : a < ptr = omega (arith, slots j i (size_of t) ji, at, at2, eight) in
              ground arith
          | inr g ↦ let same : j ≡ i = ground arith in absurd (ne (at2 ∙ rw same refl ∙ sym at))
        ]
      ]

  -- A word of another page is not in the block.
  other_page :
      (b a : ℕ)
      → a ≢ pr
      → w.use_of (frame b) ≡ small a
      → (leb ptr b && ltb b (ptr + size_of t)) ≡ false
  other_page b a ne u = elim (Bool-cases (leb ptr b && ltb b (ptr + size_of t))) [
    | inr f ↦ f
    | inl y ↦
        let (i, lt, at, inside) = block_at (frame ptr) t ptr before.below block.0 in
        let (two, eight, whole) = capacity_bounds t before.below in
        let end = slots i (capacity t) (size_of t) lt in
        let le : ptr ≤ b = ground arith in
        let below : b < ptr + size_of t = ground arith in
        let (le2, gt, aligned) = frame_le ptr in
        let same : frame b ≡ frame ptr =
          frame_within (frame ptr) b aligned (omega (arith, le, le2))
            (omega (arith, below, at, end, whole)) in
        let o : w.use_of (frame b) ≡ small pr = rw same owned in
        absurd (ne (let z = sym u ∙ o in cc))
  ]

  put_back-IsClass :
      IsClass
        (put_back s pr ptr).cells
        (ref_data ((put_back s pr ptr).refs pr))
        w.use_of
        (ptr ∷ w.free_blocks pr)
        pr
        t
  unfolding put_back put_ref put_cell fill_deadbeef page_in class_in
  put_back-IsClass =
      let self : (pr == pr) ≡ true = ground arith in
      let here : (ptr == ptr) ≡ true = ground arith in
      let c = before in
      let (b, out) = block in
      record {
        below = c.below;
        class = rw self c.class;
        owned = rw self c.owned;
        chain =
            rw (self, here)
              (
                refl,
                ptr-ne_null,
                Chain-frame s.cells (put_back s pr ptr).cells _ (w.free_blocks pr) c.chain
                    (λ a m. put_back-cells a (other_block a m)),
              );
        counted = rw self (let n = c.counted in omega (arith, n));
        distinct = (out, c.distinct);
        legit = λ a m. rw self (elim (Bool-cases (a == ptr)) [
          | inl y ↦ let e : a ≡ ptr = ground arith in rw (page_at, e) b
          | inr f ↦ c.legit a (ground arith)
        ]);
      }

  pub put_back-Reblocks : Reblocks s (put_back s pr ptr) w pr t (ptr ∷ w.free_blocks pr)
  unfolding put_back put_ref put_cell fill_deadbeef page_in
  put_back-Reblocks = record {
    valid = v;
    here = here;
    data_eq = λ a ne. let f : (a == pr) ≡ false = ground arith in rw f refl;
    next_eq = λ a. ground arith;
    head_eq = put_back-head s pr ptr;
    page_eq = let self : (pr == pr) ≡ true = ground arith in rw self refl;
    cells_eq = λ b a ne u. put_back-cells b (other_page b a ne u);
    class = put_back-IsClass;
    chunks_eq = refl;
    bigchunks_eq = refl;
    dseg_eq = refl;
  }

  pub put_back-live :
      (a : ℕ)
      → live (put_back s pr ptr) (reblock w pr (ptr ∷ w.free_blocks pr)) a
        ≡ (if a == ptr then false else live s w a)
  put_back-live a = elim (Bool-cases (frame a == page_in (ref_data (s.refs pr)))) [
    | inl y ↦
        let e : frame a ≡ page_in (ref_data (s.refs pr)) = ground arith in
        Reblocks-live put_back-Reblocks a e
        ∙ rw (Reblocks-live_before put_back-Reblocks a e)
            (returned a (has a (all_blocks (page_in (ref_data (s.refs pr))) t)))
    | inr n ↦
        let ne : (a == ptr) ≡ false = other a n in
        (Reblocks-SameBlock put_back-Reblocks a (ground arith)).0 ∙ rw ne refl
  ]
    where
      returned :
          (a : ℕ) (b : Bool)
          → (b && not (has a (ptr ∷ w.free_blocks pr)))
            ≡ (if a == ptr then false else b && not (has a (w.free_blocks pr)))
      returned a b = ground arith

      other : (a : ℕ) → (frame a == page_in (ref_data (s.refs pr))) ≡ false → (a == ptr) ≡ false
      other a n = elim (Bool-cases (a == ptr)) [
        | inl z ↦
            let q : a ≡ ptr = ground arith in absurd (let f = rw (q, page_at) at n in ground arith)
        | inr z ↦ z
      ]
