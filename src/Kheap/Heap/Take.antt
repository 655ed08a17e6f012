-- ===== src/Kheap/Heap/Take.antt =====
-- `doalloc`: the first free block of a page is handed out.
use parallel_memory_allocato.Base.{
  ℕ, ◌-◌, ◌≤◌, ◌≡◌, refl, ◌∙◌, true, false, not, ◌&&◌, Bool-cases, inl, inr, some, List, [], ◌∷◌,
  ◌==◌, has, arith, if◌then◌else◌, ltb, ok, Returns,
}
use parallel_memory_allocato.Memlib.{null}
use parallel_memory_allocato.Kheap.Sizes.{page_size, frame, size_of}
use parallel_memory_allocato.Kheap.State.{State, put_ref, pr_pageaddr}
use parallel_memory_allocato.Kheap.Subpage.{doalloc, doalloc_check}
use parallel_memory_allocato.Kheap.PageRefs.Remove.{next}
use parallel_memory_allocato.Kheap.Heap.{
  Loc, fresh, recycled, sized, head, Use, ref_data, page_in, class_in, all_blocks, View, IsClass,
  IsHeap, live, Allots,
}
use parallel_memory_allocato.Kheap.Heap.Layout.{block_at, frame_of_block, capacity_bounds}
use parallel_memory_allocato.Kheap.Heap.Listed.{Chain-ne_null}
use parallel_memory_allocato.Kheap.Heap.Keep.{page_in_aligned}
use parallel_memory_allocato.Kheap.Heap.Keep.Blocks.{
  room_in_class, reblock, Reblocks, Reblocks-IsHeap, Reblocks-live, Reblocks-live_before,
  Reblocks-room, Reblocks-SameBlock,
}

-- The page reference without its first free block.
unfoldable pub took : State → ℕ → State
unfolding put_ref
took s pr =
    let r = s.refs pr in put_ref s pr (record r { flist = s.cells r.flist; nfree = r.nfree - 1 })

doalloc-took :
    (s : State) (pr b t : ℕ) (bs : List ℕ) (use_of : ℕ → Use)
    → IsClass s.cells (ref_data (s.refs pr)) use_of (b ∷ bs) pr t
    → doalloc s pr ≡ ok (b, took s pr)
unfolding doalloc doalloc_check took pr_pageaddr page_in
doalloc-took s pr b t bs use_of c = go bs c
  where
    go :
        (bs : List ℕ)
        → IsClass s.cells (ref_data (s.refs pr)) use_of (b ∷ bs) pr t
        → doalloc s pr ≡ ok (b, took s pr)
    go [] c =
        let (e, nn, last) = c.chain in
        let f : (b == null) ≡ false = ground arith in
        let n : (s.refs pr).nfree ≡ 1 = c.counted in rw (e, f, last, n) refl
    go (d ∷ ds) c =
        let (e, nn, (e2, nn2, tail)) = c.chain in
        let f : (b == null) ≡ false = ground arith in
        let f2 : (d == null) ≡ false = ground arith in
        let some_left : ltb 0 ((s.refs pr).nfree - 1) ≡ true = let n = c.counted in ground arith in
        let (i, below, at, inside) = block_at _ t b c.below (c.legit b (ground arith)) in
        let near : ltb (b - frame (s.refs pr).pageaddr_and_blocktype) page_size ≡ true =
          let q = capacity_bounds t c.below in ground arith in
        rw (e, f, e2, f2, some_left, near) refl

took-ref :
    (s : State) (pr a : ℕ) → (a == pr) ≡ false → ref_data ((took s pr).refs a) ≡ ref_data (s.refs a)
unfolding took put_ref
took-ref s pr a ne = rw ne refl

took-next : (s : State) (pr a : ℕ) → next (took s pr) a ≡ next s a
unfolding took put_ref
took-next s pr a = ground arith

took-head : (s : State) (pr : ℕ) (l : Loc) → head (took s pr) l ≡ head s l
unfolding took put_ref
took-head s pr fresh = refl
took-head s pr recycled = refl
took-head s pr (sized t) = refl

module _ (s : State) (w : View) (v : IsHeap s w) (pr b t : ℕ) (bs : List ℕ)
    (here : w.place pr ≡ some (sized t)) (first : w.free_blocks pr ≡ b ∷ bs) where
  class_before : IsClass s.cells (ref_data (s.refs pr)) w.use_of (b ∷ bs) pr t
  class_before = rw first at (v.subpages.item pr (sized t) here)

  took-IsClass : IsClass (took s pr).cells (ref_data ((took s pr).refs pr)) w.use_of bs pr t
  unfolding took put_ref page_in class_in
  took-IsClass =
      let c = class_before in
      let (e, nn, tail) = c.chain in
      let self : (pr == pr) ≡ true = ground arith in
      let n = c.counted in
      record {
        below = c.below;
        class = rw self c.class;
        owned = rw self c.owned;
        chain = rw (self, e) tail;
        counted = rw self (omega (arith, n));
        distinct = c.distinct.1;
        legit = λ a m. rw self (c.legit a (ground arith));
      }

  took-Reblocks : Reblocks s (took s pr) w pr t bs
  unfolding took put_ref page_in
  took-Reblocks = record {
    valid = v;
    here = here;
    data_eq = λ a ne. took-ref s pr a (ground arith);
    next_eq = took-next s pr;
    head_eq = took-head s pr;
    page_eq = let self : (pr == pr) ≡ true = ground arith in rw self refl;
    cells_eq = λ b a ne e. refl;
    class = took-IsClass;
    chunks_eq = refl;
    bigchunks_eq = refl;
    dseg_eq = refl;
  }

  -- In a heap in order, the first free block of a page of a size class is not live, and is then.
  pub doalloc-Allots : (size : ℕ) → size ≤ size_of t → Returns (Allots s w size) (doalloc s pr)
  doalloc-Allots size fits =
      let c = class_before in
      let r = took-Reblocks in
      let page = page_in (ref_data (s.refs pr)) in
      let block = c.legit b (ground arith) in
      let at = frame_of_block page t b (page_in_aligned _) c.below block in
      let old : live s w b ≡ false =
        Reblocks-live_before r b at ∙ rw (first, block) (ground arith) in
      rw (doalloc-took s pr b t bs w.use_of c) (
        reblock w pr bs,
        Reblocks-IsHeap r,
        inr (
          Chain-ne_null _ _ b (b ∷ bs) c.chain (ground arith),
          old,
          rw (Reblocks-room r b, room_in_class s w pr page b at c.owned, c.class) fits,
          λ a. changed a,
        ),
        λ a m. Reblocks-room r a,
      )
    where
      changed :
          (a : ℕ) → live (took s pr) (reblock w pr bs) a ≡ (if a == b then true else live s w a)
      changed a =
          let c = class_before in
          let page = page_in (ref_data (s.refs pr)) in
          let block = c.legit b (ground arith) in
          let at = frame_of_block page t b (page_in_aligned _) c.below block in
          elim (Bool-cases (frame a == page)) [
            | inl y ↦
                let e : frame a ≡ page = ground arith in
                Reblocks-live took-Reblocks a e
                ∙ rw (Reblocks-live_before took-Reblocks a e, first) (taken a block c.distinct.0)
            | inr n ↦
                let ne : (a == b) ≡ false = other a n at in
                (Reblocks-SameBlock took-Reblocks a (ground arith)).0 ∙ rw ne refl
          ]
        where
          other :
              (a : ℕ)
              → (frame a == page_in (ref_data (s.refs pr))) ≡ false
              → frame b ≡ page_in (ref_data (s.refs pr))
              → (a == b) ≡ false
          other a n at = elim (Bool-cases (a == b)) [
            | inl z ↦ let q : a ≡ b = ground arith in absurd (let f = rw q at n in ground arith)
            | inr z ↦ z
          ]

          taken :
              (a : ℕ)
              → has b (all_blocks (page_in (ref_data (s.refs pr))) t) ≡ true
              → has b bs ≡ false
              → (has a (all_blocks (page_in (ref_data (s.refs pr))) t) && not (has a bs)) ≡ (
                  if a == b
                  then true
                  else has a (all_blocks (page_in (ref_data (s.refs pr))) t)
                    && not (has a (b ∷ bs)))
          taken a m o = elim (Bool-cases (a == b)) [
            | inl z ↦ let e : a ≡ b = ground arith in rw (z, e, m, o) refl
            | inr f ↦ rw f refl
          ]
