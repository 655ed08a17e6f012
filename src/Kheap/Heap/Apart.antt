-- ===== src/Kheap/Heap/Apart.antt =====
-- The live blocks of a heap in order.
use parallel_memory_allocato.Base.{
  ℕ, ◌+◌, ◌-◌, ◌*◌, ◌/◌, ◌≤◌, ◌<◌, ◌≡◌, ◌≢◌, refl, sym, ◌∙◌, ap, true, Bool-cases, inl, inr, ◌⊎◌,
  Option, none, some, ◌==◌, has, arith, ltb,
}
use parallel_memory_allocato.Kheap.Sizes.{page_size, n_sizes, frame, size_of, smallest_subpage_size}
use parallel_memory_allocato.Kheap.State.{State}
use parallel_memory_allocato.Kheap.Heap.{
  Loc, fresh, recycled, sized, Use, idle, refs, small, part, ref_data, class_in, capacity,
  all_blocks, View, IsHeap, live, room, npages,
}
use parallel_memory_allocato.Kheap.Heap.Layout.{capacity_bounds, slots, block_at, frame_le}

module _ (s : State) (w : View) where
  -- The block `i` of a page of the class `t`.
  abbrev IsBlock : ℕ → ℕ → ℕ → Type 0
  IsBlock a t i =
      (t < n_sizes) × (i < capacity t) × (a ≡ frame a + i * size_of t) × (room s w a ≡ size_of t)

  -- A block of a size class, or the block of a chunk.
  abbrev Shape : ℕ → Type 0
  Shape a =
      ((pr t i : ℕ) × (w.use_of (frame a) ≡ small pr)
        × (class_in (ref_data (s.refs pr)) ≡ t)
        × IsBlock a t i)
      ⊎ (w.use_of (frame a) ≡ part (frame a)) × (a ≡ frame a + smallest_subpage_size)

  module _ (v : IsHeap s w) where
    live-Shape : (a : ℕ) → live s w a ≡ true → Shape a
    live-Shape a alive = by_use (w.use_of (frame a)) refl
      where
        by_place :
            (pr : ℕ) (o : Option Loc) → w.use_of (frame a) ≡ small pr → w.place pr ≡ o → Shape a
        by_place pr none u e = absurd (let z = rw (u, e) at alive in cc)
        by_place pr (some fresh) u e = absurd (let z = rw (u, e) at alive in cc)
        by_place pr (some recycled) u e = absurd (let z = rw (u, e) at alive in cc)
        by_place pr (some (sized t)) u e =
            let c = v.subpages.item pr (sized t) e in
            let z = rw (u, e) at alive in
            let m : has a (all_blocks (frame a) t) ≡ true = ground arith in
            let (i, lt, at, inside) = block_at (frame a) t a c.below m in
            inl (pr, t, i, u, c.class, (c.below, lt, at, rw (u, c.class) refl))

        by_use : (x : Use) → w.use_of (frame a) ≡ x → Shape a
        by_use idle e = absurd (let z = rw e at alive in cc)
        by_use refs e = absurd (let z = rw e at alive in cc)
        by_use (small pr) e = by_place pr (w.place pr) e refl
        by_use (part hdr) e =
            let z = rw e at alive in
            let own : hdr ≡ frame a = ground arith in inr (e ∙ ap part own, ground arith)

    -- The end of a block of a size class lies in its page.
    block_end : (a t i : ℕ) → IsBlock a t i → a + room s w a ≤ frame a + page_size
    block_end a t i (below, lt, at, r) =
        omega (arith, at, r, capacity_bounds t below, slots i (capacity t) (size_of t) lt)

    before_page : (p q : ℕ) → p < q → frame p ≢ frame q → frame p + page_size ≤ frame q
    before_page p q lt ne =
        let (le, gt, aligned) = frame_le p in let (le2, gt2, aligned2) = frame_le q in omega arith

    same_page :
        (p q t i j : ℕ)
        → p < q
        → frame p ≡ frame q
        → IsBlock p t i
        → IsBlock q t j
        → p + room s w p ≤ q
    same_page p q t i j lt e (below, lt_i, at, r) (below2, lt_j, at2, r2) =
        let ij : i < j = elim (Bool-cases (ltb i j)) [
          | inl y ↦ ground arith
          | inr f ↦
              let k : j ≤ i = ground arith in
              absurd (
                let m : j * size_of t ≤ i * size_of t = grind arith in
                omega (arith, lt, at, at2, e, m))
        ] in
        omega (arith, slots i j (size_of t) ij, at, at2, e, r)

    -- A page behind the header of a chunk with another block is behind the chunk.
    part_page :
        (p q : ℕ)
        → w.use_of (frame p) ≡ part (frame p)
        → Shape q
        → frame p ≢ frame q
        → frame p ≤ frame q
        → frame p + npages s (frame p) * page_size ≤ frame q
    part_page p q u sh ne le =
        elim (Bool-cases (ltb (frame q) (frame p + npages s (frame p) * page_size))) [
          | inr f ↦ ground arith
          | inl y ↦
              let (le1, gt1, aligned) = frame_le p in
              let (le2, gt2, aligned2) = frame_le q in
              let i = (frame q - frame p) / page_size in
              let at : frame p + i * page_size ≡ frame q = omega arith in
              let below : i < npages s (frame p) =
                (let z : frame q < frame p + npages s (frame p) * page_size = ground arith in
                  omega (arith, at, z)) in
              let inside : w.use_of (frame q) ≡ part (frame p) =
                ap w.use_of (sym at) ∙ (v.chunks.chunk (frame p) u).1 i below in
              elim sh [
                | inl (pr, t, j, u2, c, b) ↦ absurd (let z = sym inside ∙ u2 in cc)
                | inr (u2, at2) ↦ absurd (ne (let z = sym inside ∙ u2 in cc))
              ]
        ]

    -- A live block of a chunk takes all its pages.
    part_apart :
        (p q : ℕ)
        → p < q
        → w.use_of (frame p) ≡ part (frame p)
        → p ≡ frame p + smallest_subpage_size
        → Shape q
        → p + room s w p ≤ q
    part_apart p q lt u at sh =
        let (le, gt, aligned) = frame_le p in
        let (le2, gt2, aligned2) = frame_le q in
        let apart = part_page p q u sh in
        let ne : frame p ≢ frame q = (λ e. elim sh [
          | inl (pr, t, i, u2, c, b) ↦ absurd (let z = sym u ∙ ap w.use_of e ∙ u2 in cc)
          | inr (u2, at2) ↦ absurd (omega (arith, lt, at, at2, e))
        ]) in
        let past = apart ne (omega arith) in
        let r : room s w p ≡ npages s (frame p) * page_size - smallest_subpage_size = rw u refl in
        omega (arith, r, at, past)

    -- In a heap in order a live block ends before the next one starts.
    pub live-apart : (p q : ℕ) → p < q → live s w p ≡ true → live s w q ≡ true → p + room s w p ≤ q
    live-apart p q lt lp lq = elim (live-Shape p lp) [
      | inr (u, at) ↦ part_apart p q lt u at (live-Shape q lq)
      | inl (pr, t, i, u, c, b) ↦ elim (Bool-cases (frame p == frame q)) [
        | inr f ↦
            omega (arith, block_end p t i b, before_page p q lt (λ z. ground arith), frame_le q)
        | inl y ↦
            let e : frame p ≡ frame q = ground arith in
            elim (live-Shape q lq) [
              | inr (u2, at2) ↦ absurd (let z = sym u ∙ ap w.use_of e ∙ u2 in cc)
              | inl (pr2, t2, j, u2, c2, b2) ↦
                  let u3 : w.use_of (frame p) ≡ small pr2 = rw e u2 in
                  let o : pr ≡ pr2 = (let z = sym u ∙ u3 in cc) in
                  let k : t2 ≡ t = sym c2 ∙ rw (← o) c in same_page p q t i j lt e b (rw k at b2)
            ]
      ]
    ]
