-- ===== src/Kheap/Heap/Kfree.antt =====
-- `subpage_kfree` in a heap in order.
use mathlib.Core.Path.{subst}
use parallel_memory_allocato.Base.{
  sym, ◌>>=◌, ℕ, ◌∷◌, ◌<◌, ◌≡◌, refl, ◌∙◌, ap, true, false, Option, none, some, ◌==◌, arith, ok,
  Returns, Returns-bind,
}
use parallel_memory_allocato.Memlib.{null}
use parallel_memory_allocato.Kheap.Sizes.{frame}
use parallel_memory_allocato.Kheap.State.{State}
use parallel_memory_allocato.Kheap.Subpage.{put_back, recycle, subpage_kfree}
use parallel_memory_allocato.Kheap.Heap.{
  Loc, fresh, recycled, sized, Use, idle, refs, small, part, View, IsHeap, live, Frees,
}
use parallel_memory_allocato.Kheap.Heap.Keep.Blocks.{reblock, Reblocks-IsHeap, Reblocks-room}
use parallel_memory_allocato.Kheap.Heap.Search.{class_of, listed-ne_null}
use parallel_memory_allocato.Kheap.Heap.Owner.{find_owner-small, find_owner-part}
use parallel_memory_allocato.Kheap.Heap.Put.{offset, put_back-Reblocks, put_back-live}
use parallel_memory_allocato.Kheap.Heap.Recycle.{Settles, recycle-Settles}

-- What `subpage_kfree` does with a live block: it frees the block, or leaves it if it belongs to a
-- chunk.
abbrev pub Takes : State → View → ℕ → Option State → Type 0
Takes s w ptr none = w.use_of (frame ptr) ≡ part (frame ptr)
Takes s w ptr (some s') = Frees s w ptr s'

module _ (s : State) (w : View) (v : IsHeap s w) (fuel ptr : ℕ) (alive : live s w ptr ≡ true)
    (enough : s.dseg.dseg_end < fuel) where
  small-Takes :
      (pr t : ℕ)
      → w.use_of (frame ptr) ≡ small pr
      → w.place pr ≡ some (sized t)
      → Returns (Takes s w ptr) (subpage_kfree fuel ptr s)
  unfolding subpage_kfree
  small-Takes pr t u here =
      let m = v.subpages.linked.listed (sized t) pr here in
      let ne : (pr == null) ≡ false =
        let nn = listed-ne_null s w v (sized t) pr m in ground arith in
      let r = put_back-Reblocks s w v pr ptr t here u alive in
      let s1 = put_back s pr ptr in
      let w1 = reblock w pr (ptr ∷ w.free_blocks pr) in
      let settled : Returns (Takes s w ptr) (recycle fuel s1 pr t >>= λ s2. ok (some s2)) =
        Returns-bind (Settles s1 w1 (Reblocks-IsHeap r) pr t here) (Takes s w ptr)
          (recycle fuel s1 pr t) (λ s2. ok (some s2))
          (recycle-Settles s1 w1 (Reblocks-IsHeap r) pr t here fuel (rw r.dseg_eq enough))
          (λ s2 (w2, v2, same). (
            w2,
            v2,
            λ a. (same a).0 ∙ put_back-live s w v pr ptr t here u alive a,
            λ a x. (same a).1 ∙ Reblocks-room r a,
          )) in
      rw
        (find_owner-small s w v fuel ptr pr t enough u here, ne, offset s w v pr ptr t here u alive)
        (subst (λ (x : ℕ). Returns (Takes s w ptr) (recycle fuel s1 pr x >>= λ s2. ok (some s2)))
          (sym (class_of s w v t pr m)) settled)

  -- In a heap in order, with fuel above the end of the segment, `subpage_kfree` of a live block
  -- returns. Either its result is -1 and the block belongs to a chunk, or the heap is in order, and
  -- the live blocks are the old ones without the block, with the room that they had.
  pub subpage_kfree-Takes : Returns (Takes s w ptr) (subpage_kfree fuel ptr s)
  unfolding subpage_kfree
  subpage_kfree-Takes = by_use (w.use_of (frame ptr)) refl
    where
      by_place :
          (pr : ℕ) (o : Option Loc)
          → w.use_of (frame ptr) ≡ small pr
          → w.place pr ≡ o
          → Returns (Takes s w ptr) (subpage_kfree fuel ptr s)
      by_place pr none u e = absurd (let z = rw (u, e) at alive in cc)
      by_place pr (some fresh) u e = absurd (let z = rw (u, e) at alive in cc)
      by_place pr (some recycled) u e = absurd (let z = rw (u, e) at alive in cc)
      by_place pr (some (sized t)) u e = small-Takes pr t u e

      by_use :
          (x : Use) → w.use_of (frame ptr) ≡ x → Returns (Takes s w ptr) (subpage_kfree fuel ptr s)
      by_use idle e = absurd (let z = rw e at alive in cc)
      by_use refs e = absurd (let z = rw e at alive in cc)
      by_use (small pr) e = by_place pr (w.place pr) e refl
      by_use (part hdr) e =
          let own : hdr ≡ frame ptr = (let z = rw e at alive in ground arith) in
          rw (find_owner-part s w v fuel ptr hdr enough e) (e ∙ ap part own)
