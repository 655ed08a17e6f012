-- ===== src/Kheap/Heap/Checked.antt =====
-- The consistency checks of kheap.c in a heap in order.
use native.Mathlib.Nat.{mul-mod_left}
use parallel_memory_allocato.Base.{
  ℕ, zero, suc, ◌+◌, ◌-◌, ◌*◌, ◌%◌, ◌≤◌, ◌<◌, ◌≡◌, refl, sym, ◌∙◌, ap, true, false, ◌&&◌, some, inl,
  inr, List, [], ◌∷◌, ◌==◌, has, length, arith, leb, ltb, ok,
}
use parallel_memory_allocato.Memlib.{null}
use parallel_memory_allocato.A2alloc.Blocks.{Chain}
use parallel_memory_allocato.A2alloc.Heap.Count.{length_bound}
use parallel_memory_allocato.Kheap.Sizes.{page_size, n_sizes, frame, size_of}
use parallel_memory_allocato.Kheap.State.{State, pr_pageaddr, pr_blocktype}
use parallel_memory_allocato.Kheap.PageRefs.Remove.{next}
use parallel_memory_allocato.Kheap.Checks.{
  check_blocks, checksubpage, check_list, check_lists, checksubpages,
}
use parallel_memory_allocato.Kheap.Heap.{
  sized, ref_data, page_in, class_in, capacity, all_blocks, View, IsHeap,
}
use parallel_memory_allocato.Kheap.Heap.Layout.{capacity_bounds, block_at}
use parallel_memory_allocato.Kheap.Heap.Search.{list_bound}
use parallel_memory_allocato.Client.Trace.{Client, Reach}
use parallel_memory_allocato.Kheap.Heap.Trace.{kheap, kheap-InOrder}

-- A free block passes the two asserts of the loop.
block_passes :
    (page t b : ℕ)
    → t < n_sizes
    → has b (all_blocks page t) ≡ true
    → ((leb page b && ltb b (page + page_size)) ≡ true) × (((b - page) % size_of t == 0) ≡ true)
block_passes page t b lt m =
    let (i, below, e, inside) = block_at page t b lt m in
    let bounds = capacity_bounds t lt in
    let at : b - page ≡ i * size_of t = omega (arith, e) in
    let whole : (b - page) % size_of t ≡ 0 = rw at (mul-mod_left i (size_of t)) in
    (ground arith, ground arith)

module _ (s : State) (page t : ℕ) (below : t < n_sizes) where
  check_blocks_count :
      (fuel fl n : ℕ) (bs : List ℕ)
      → Chain s.cells fl bs
      → ((b : ℕ) → has b bs ≡ true → has b (all_blocks page t) ≡ true)
      → length bs < fuel
      → check_blocks fuel s page t fl n ≡ ok (n + length bs)
  unfolding check_blocks
  check_blocks_count zero fl n bs c legit lt = absurd (omega (arith, lt))
  check_blocks_count (suc fuel) fl n [] c legit lt =
      let e : (fl == null) ≡ true = ground arith in rw e (ap ok (omega arith))
  check_blocks_count (suc fuel) fl n (b ∷ bs) (e, nn, tail) legit lt =
      let ne : (b == null) ≡ false = ground arith in
      let (inside, whole) = block_passes page t b below (legit b (ground arith)) in
      rw (e, ne, inside, whole)
        (check_blocks_count fuel (s.cells b) (n + 1) bs tail (λ a m. legit a (ground arith))
            (omega (arith, lt))
          ∙ ap ok (omega arith))

module _ (s : State) (w : View) (v : IsHeap s w) (fuel : ℕ) (enough : s.dseg.dseg_end < fuel) where
  -- A page has fewer blocks than the segment has bytes.
  blocks_short :
      (t pr : ℕ)
      → w.place pr ≡ some (sized t)
      → length (w.free_blocks pr) ≤ capacity t
      → length (w.free_blocks pr) < fuel
  blocks_short t pr here bound =
      let c = v.subpages.item pr (sized t) here in
      let (two, eight, whole) = capacity_bounds t c.below in
      let fewer : capacity t ≤ capacity t * size_of t = grind arith in
      elim (v.used (page_in (ref_data (s.refs pr)))) [
        | inl i ↦ absurd (let z = sym c.owned ∙ i in cc)
        | inr (aligned, nn, lt) ↦ omega (arith, fewer, whole, bound, v.ended)
      ]

  checked : (t pr : ℕ) → w.place pr ≡ some (sized t) → checksubpage fuel s pr ≡ ok tt
  unfolding checksubpage pr_pageaddr pr_blocktype page_in class_in
  checked t pr here = go (w.free_blocks pr) refl
    where
      go : (bs : List ℕ) → w.free_blocks pr ≡ bs → checksubpage fuel s pr ≡ ok tt
      go [] e =
          let c = v.subpages.item pr (sized t) here in
          let first : (s.refs pr).flist ≡ null = rw e at c.chain in
          let none_left : (s.refs pr).nfree ≡ 0 = c.counted ∙ ap length e in
          let y : ((s.refs pr).flist == null) ≡ true = ground arith in
          let z : ((s.refs pr).nfree == 0) ≡ true = ground arith in rw (y, z) refl
      go (b ∷ bs) e =
          let c = v.subpages.item pr (sized t) here in
          let (first, nn, tail) = rw e at c.chain in
          let n : ((s.refs pr).flist == null) ≡ false = ground arith in
          let page = frame (s.refs pr).pageaddr_and_blocktype in
          let bound =
            length_bound page (size_of t) (capacity t) (w.free_blocks pr) c.legit c.distinct in
          let short = blocks_short t pr here bound in
          let count =
            check_blocks_count s page t c.below fuel (s.refs pr).flist 0 (w.free_blocks pr) c.chain
              c.legit short in
          let same : (0 + length (w.free_blocks pr) == (s.refs pr).nfree) ≡ true =
            (let q = c.counted in ground arith) in
          rw (n, c.class, count, same) refl

  check_list_passes :
      (n p sc : ℕ) (prs : List ℕ)
      → Chain (next s) p prs
      → ((pr : ℕ) → has pr prs ≡ true → checksubpage fuel s pr ≡ ok tt)
      → length prs < n
      → check_list n fuel s p sc ≡ ok (sc + length prs)
  unfolding check_list
  check_list_passes zero p sc prs c pass lt = absurd (omega (arith, lt))
  check_list_passes (suc n) p sc [] c pass lt =
      let e : (p == null) ≡ true = ground arith in rw e (ap ok (omega arith))
  check_list_passes (suc n) p sc (x ∷ xs) (e, nn, tail) pass lt =
      let ne : (x == null) ≡ false = ground arith in
      rw (e, ne, pass x (ground arith))
        (check_list_passes n (next s x) (sc + 1) xs tail (λ pr m. pass pr (ground arith))
            (omega (arith, lt))
          ∙ ap ok (omega arith))

  -- The page references of the `n` lists from list `i` on.
  abbrev total : ℕ → ℕ → ℕ
  total zero i = 0
  total (suc n) i = length (w.lists (sized i)) + total n (i + 1)

  check_lists_pass : (n i sc : ℕ) → check_lists fuel n i s sc ≡ ok (sc + total n i)
  unfolding check_lists
  check_lists_pass zero i sc = ap ok (omega arith)
  check_lists_pass (suc n) i sc =
      rw
        (check_list_passes fuel (s.sizebases i) sc (w.lists (sized i))
          (v.subpages.linked.chain (sized i))
          (λ pr m. checked i pr (v.subpages.linked.placed (sized i) pr m))
          (omega (arith, list_bound s w v (sized i))))
        (check_lists_pass n (i + 1) (sc + length (w.lists (sized i))) ∙ ap ok (omega arith))

  -- In a heap in order, with fuel above the end of the segment, no assert of `checksubpages` fails, and
  -- it counts the page references that are on the lists of the size classes.
  pub checksubpages_pass : checksubpages fuel s ≡ ok (total n_sizes 0)
  unfolding checksubpages
  checksubpages_pass = check_lists_pass n_sizes 0 0 ∙ ap ok (omega arith)

-- After `mm_init` and any sequence of calls of a client, with fuel above the end of the segment, no
-- assert of `checksubpages` fails.
pub kheap_checks :
    {c : Client kheap}
    → Reach kheap c
    → (fuel : ℕ) → c.state.dseg.dseg_end < fuel
    → (sc : ℕ) × (checksubpages fuel c.state ≡ ok sc)
kheap_checks {c} r fuel enough =
    let o = kheap-InOrder r in
    (
      total c.state o.view o.heap fuel enough n_sizes 0,
      checksubpages_pass c.state o.view o.heap fuel enough,
    )
