-- ===== src/Kheap/Heap/Chunks/Freed.antt =====
-- `big_kfree`: a chunk comes to the front of the list.
use mathlib.Core.Path.{subst}
use parallel_memory_allocato.Base.{
  ℕ, ◌+◌, ◌-◌, ◌≡◌, ◌≢◌, refl, sym, ◌∙◌, true, false, not, Bool-cases, inl, inr, ◌∷◌, ◌==◌, has,
  arith, if◌then◌else◌,
}
use parallel_memory_allocato.A2alloc.Blocks.{Chain, Chain-frame}
use parallel_memory_allocato.A2alloc.Links.Segment.{ne_of_has}
use parallel_memory_allocato.Kheap.Sizes.{frame, smallest_subpage_size}
use parallel_memory_allocato.Kheap.State.{State, put_chunk}
use parallel_memory_allocato.Kheap.Big.{big_kfree}
use parallel_memory_allocato.Kheap.Heap.{part, View, IsHeap, live, Frees}
use parallel_memory_allocato.Kheap.Heap.Chunks.{same_head, rechunk, Rechunks-IsHeap}
use parallel_memory_allocato.Kheap.Heap.Chunks.Relist.{
  Relinks, relist_chunks, relist-KeptBlock, chunk-IsPage, chunk_live,
}

module _ (s : State) (w : View) (v : IsHeap s w) where
  freed-Relinks : (h : ℕ) → Relinks s (big_kfree (h + smallest_subpage_size) s)
  unfolding big_kfree put_chunk
  freed-Relinks h = (
    (λ a. ground arith),
    refl,
    refl,
    (λ l. same_head s (big_kfree (h + smallest_subpage_size) s) refl refl refl l),
    refl,
  )

  freed-next :
      (h a : ℕ)
      → ((big_kfree (h + smallest_subpage_size) s).chunks a).next
        ≡ (if a == h then s.bigchunks else (s.chunks a).next)
  unfolding big_kfree put_chunk
  freed-next h a =
      let e : h + smallest_subpage_size - smallest_subpage_size ≡ h = omega arith in
      rw e (ground arith)

  freed-Chain :
      (h : ℕ)
      → w.use_of h ≡ part h
      → has h w.free_chunks ≡ false
      → Chain
          (λ c. ((big_kfree (h + smallest_subpage_size) s).chunks c).next)
          (big_kfree (h + smallest_subpage_size) s).bigchunks
          (h ∷ w.free_chunks)
  unfolding big_kfree
  freed-Chain h own out =
      let e : h + smallest_subpage_size - smallest_subpage_size ≡ h = omega arith in
      let self : (h == h) ≡ true = ground arith in
      rw e (
        refl,
        (chunk-IsPage s w v h own).1,
        rw self (
            Chain-frame (λ c. (s.chunks c).next) _ s.bigchunks w.free_chunks v.chunks.chain
              (λ a m.
                let ne = ne_of_has a h w.free_chunks out m in
                let f : (a == h) ≡ false = ground arith in freed-next h a ∙ rw f refl)),
      )

  freed-Frees :
      (h : ℕ)
      → w.use_of h ≡ part h
      → has h w.free_chunks ≡ false
      → Frees s w (h + smallest_subpage_size) (big_kfree (h + smallest_subpage_size) s)
  freed-Frees h own out =
      let s2 = big_kfree (h + smallest_subpage_size) s in
      let cs = h ∷ w.free_chunks in
      let k = freed-Relinks h in
      let same : (a : ℕ) → a ≢ h → has a cs ≡ has a w.free_chunks = (λ a ne. ground arith) in
      let r =
        relist_chunks s w v s2 h cs k own (freed-Chain h own out) (out, v.chunks.distinct) same in
      let dead : not (has h cs) ≡ false = ground arith in
      let kept = (λ (a : ℕ) (ne : (a == h + smallest_subpage_size) ≡ false).
        relist-KeptBlock s w v s2 h cs k r same (chunk-IsPage s w v h own).0 a ne own) in
      (
        rechunk w w.use_of cs,
        Rechunks-IsHeap r,
        λ a. elim (Bool-cases (a == h + smallest_subpage_size)) [
          | inl y ↦
              let e : a ≡ h + smallest_subpage_size = ground arith in
              rw y (chunk_live s w v s2 cs h a own e ∙ dead)
          | inr n ↦ rw n (kept a n).0
        ],
        λ a m. elim (Bool-cases (a == h + smallest_subpage_size)) [
          | inl y ↦
              let e : a ≡ h + smallest_subpage_size = ground arith in
              absurd (let z = sym m ∙ chunk_live s w v s2 cs h a own e ∙ dead in cc)
          | inr n ↦ (kept a n).1 (sym (kept a n).0 ∙ m)
        ],
      )

  -- A live block of a chunk is not live once `big_kfree` put its chunk on the list.
  pub big_kfree-Frees :
      (ptr : ℕ)
      → live s w ptr ≡ true
      → w.use_of (frame ptr) ≡ part (frame ptr)
      → Frees s w ptr (big_kfree ptr s)
  big_kfree-Frees ptr alive own =
      let z = rw own at alive in
      let e : ptr ≡ frame ptr + smallest_subpage_size = ground arith in
      let out : has (frame ptr) w.free_chunks ≡ false = ground arith in
      subst (λ x. Frees s w x (big_kfree x s)) (sym e) (freed-Frees (frame ptr) own out)
