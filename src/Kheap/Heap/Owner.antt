-- ===== src/Kheap/Heap/Owner.antt =====
-- The search of `subpage_kfree` in a heap in order.
use parallel_memory_allocato.Base.{
  ℕ, zero, suc, ◌+◌, ◌≤◌, ◌<◌, ◌≡◌, refl, sym, ◌∙◌, ap, Bool, true, false, Bool-cases, inl, inr,
  ◌⊎◌, some, List, ◌||◌, ◌==◌, has, arith, ok, has-append,
}
use parallel_memory_allocato.Memlib.{null}
use parallel_memory_allocato.Kheap.Sizes.{n_sizes, frame}
use parallel_memory_allocato.Kheap.State.{State, pr_pageaddr}
use parallel_memory_allocato.Kheap.Subpage.{find_owner}
use parallel_memory_allocato.Kheap.Subpage.Search.{first_of, owns, all_refs, find_owner-first_of}
use parallel_memory_allocato.Kheap.Heap.{sized, small, part, page_in, View, IsHeap}
use parallel_memory_allocato.Kheap.Heap.Layout.{frame_le, frame_within}
use parallel_memory_allocato.Kheap.Heap.Search.{
  first_of-cases, list_bound, class_of, listed-ne_null,
}

has-all_refs :
    (lists : ℕ → List ℕ) (n i pr : ℕ)
    → has pr (all_refs lists n i) ≡ true
    → (t : ℕ) × (has pr (lists t) ≡ true)
has-all_refs lists zero i pr m = cc
has-all_refs lists (suc n) i pr m = elim (Bool-cases (has pr (lists i))) [
  | inl y ↦ (i, y)
  | inr f ↦ has-all_refs lists n (i + 1) pr (sym (has-append pr (lists i) _ ∙ rw f refl) ∙ m)
]

all_refs-has :
    (lists : ℕ → List ℕ) (n i t pr : ℕ)
    → i ≤ t
    → t < i + n
    → has pr (lists t) ≡ true
    → has pr (all_refs lists n i) ≡ true
all_refs-has lists zero i t pr le lt m = absurd (omega (arith, le, lt))
all_refs-has lists (suc n) i t pr le lt m =
    has-append pr (lists i) (all_refs lists n (i + 1)) ∙ elim (Bool-cases (t == i)) [
      | inl y ↦ let e : t ≡ i = ground arith in rw (← e, m) refl
      | inr f ↦
          let above : i + 1 ≤ t = ground arith in
          rw (all_refs-has lists n (i + 1) t pr above (omega (arith, lt)) m)
            (or_true (has pr (lists i)))
    ]
  where
    or_true : (b : Bool) → (b || true) ≡ true
    or_true b = ground arith

module _ (s : State) (w : View) (v : IsHeap s w) where
  -- A page reference of a class whose page holds the address owns the page of the address.
  owns-small :
      (t pr ptr : ℕ)
      → has pr (w.lists (sized t)) ≡ true
      → owns s ptr pr ≡ true
      → w.use_of (frame ptr) ≡ small pr
  unfolding pr_pageaddr page_in
  owns-small t pr ptr m o =
      let c = v.subpages.item pr (sized t) (v.subpages.linked.placed (sized t) pr m) in
      let (le, gt, aligned) = frame_le (s.refs pr).pageaddr_and_blocktype in
      let at =
        frame_within (frame (s.refs pr).pageaddr_and_blocktype) ptr aligned (ground arith)
          (ground arith) in
      rw at c.owned

  small-owns : (t pr ptr : ℕ) → w.use_of (frame ptr) ≡ small pr → owns s ptr pr ≡ true
  unfolding pr_pageaddr page_in
  small-owns t pr ptr u =
      let e = (v.subpages.owner (frame ptr) pr u).0 in
      let (le, gt, aligned) = frame_le ptr in rw e (ground arith)

  abbrev class : ℕ → List ℕ
  class t = w.lists (sized t)

  found_owner :
      (fuel ptr : ℕ)
      → s.dseg.dseg_end < fuel
      → find_owner fuel n_sizes 0 s ptr ≡ ok (first_of (owns s ptr) (all_refs class n_sizes 0))
  found_owner fuel ptr enough =
      find_owner-first_of s ptr fuel class (λ t. v.subpages.linked.chain (sized t))
        (λ t pr m.
          rw (class_of s w v t pr m)
            (v.subpages.item pr (sized t) (v.subpages.linked.placed (sized t) pr m)).below)
        (λ t. omega (arith, list_bound s w v (sized t)))

  cases :
      (ptr : ℕ)
      → (first_of (owns s ptr) (all_refs class n_sizes 0) ≡ null)
          × ((a : ℕ) → has a (all_refs class n_sizes 0) ≡ true → owns s ptr a ≡ false)
        ⊎ (w.use_of (frame ptr) ≡ small (first_of (owns s ptr) (all_refs class n_sizes 0)))
  cases ptr =
      elim (first_of-cases (owns s ptr) (all_refs class n_sizes 0) (λ a m.
        let (t, h) = has-all_refs class n_sizes 0 a m in listed-ne_null s w v (sized t) a h)) [
          | inl z ↦ inl z
          | inr (m, o) ↦
              let (t, h) = has-all_refs class n_sizes 0 _ m in inr (owns-small t _ ptr h o)
        ]

  -- The page reference of the page that the address is in.
  pub find_owner-small :
      (fuel ptr pr t : ℕ)
      → s.dseg.dseg_end < fuel
      → w.use_of (frame ptr) ≡ small pr
      → w.place pr ≡ some (sized t)
      → find_owner fuel n_sizes 0 s ptr ≡ ok pr
  find_owner-small fuel ptr pr t enough u here = found_owner fuel ptr enough ∙ elim (cases ptr) [
    | inl (z, k) ↦
        let c = v.subpages.item pr (sized t) here in
        let m =
          all_refs-has class n_sizes 0 t pr (omega arith) (omega (arith, c.below))
            (v.subpages.linked.listed (sized t) pr here) in
        absurd (let f = k pr m in let y = small-owns t pr ptr u in cc)
    | inr z ↦ let e = sym z ∙ u in ap ok cc
  ]

  -- No page reference has a part of a chunk.
  pub find_owner-part :
      (fuel ptr hdr : ℕ)
      → s.dseg.dseg_end < fuel
      → w.use_of (frame ptr) ≡ part hdr
      → find_owner fuel n_sizes 0 s ptr ≡ ok null
  find_owner-part fuel ptr hdr enough u =
      found_owner fuel ptr enough
      ∙ elim (cases ptr) [ inl (z, k) ↦ ap ok z | inr z ↦ absurd (let e = sym z ∙ u in cc) ]
