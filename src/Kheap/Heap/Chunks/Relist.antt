-- ===== src/Kheap/Heap/Chunks/Relist.antt =====
-- A chunk that leaves the list of free chunks, or comes to its front.
use parallel_memory_allocato.Base.{
  ℕ, ◌+◌, ◌*◌, ◌%◌, ◌≤◌, ◌≡◌, ◌≢◌, refl, sym, ◌∙◌, ap, true, false, not, Bool-cases, inl, inr, some,
  List, ◌==◌, has, IsDistinct, arith, if◌then◌else◌,
}
use parallel_memory_allocato.Memlib.{null}
use parallel_memory_allocato.A2alloc.Blocks.{Chain, Chain-frame}
use parallel_memory_allocato.A2alloc.Links.Segment.{ne_of_has}
use parallel_memory_allocato.A2alloc.Links.Unlink.{
  remove, has_of_remove, remove_self, remove-IsDistinct,
}
use parallel_memory_allocato.Kheap.Sizes.{page_size, frame, smallest_subpage_size}
use parallel_memory_allocato.Kheap.State.{State, put_chunk}
use parallel_memory_allocato.Kheap.Big.{take_chunk}
use parallel_memory_allocato.Kheap.Big.Search.{first_fit}
use parallel_memory_allocato.Kheap.Heap.{
  Loc, head, part, View, IsPage, IsHeap, live, npages, Allots,
}
use parallel_memory_allocato.Kheap.Heap.Layout.{frame_within}
use parallel_memory_allocato.Kheap.Heap.Listed.{Chain-ne_null, has_same}
use parallel_memory_allocato.Kheap.Heap.Chunks.{
  same_head, rechunk, Rechunks, Rechunks-KeptBlock, Rechunks-Allots, KeptBlock,
}
use parallel_memory_allocato.Kheap.Heap.Chunks.Unlink.{first_fit-Skips, skip}

-- Only links of free chunks and the first free chunk differ.
abbrev pub Relinks : State → State → Type 0
Relinks s s' =
    ((a : ℕ) → npages s' a ≡ npages s a)
    × (s'.refs ≡ s.refs)
    × (s'.cells ≡ s.cells)
    × ((l : Loc) → head s' l ≡ head s l)
    × (s'.dseg ≡ s.dseg)

module _ (s : State) (w : View) (v : IsHeap s w) where
  pub relist_chunks :
      (s' : State) (hdr : ℕ) (cs : List ℕ)
      → Relinks s s'
      → w.use_of hdr ≡ part hdr
      → Chain (λ c. (s'.chunks c).next) s'.bigchunks cs
      → IsDistinct cs
      → ((a : ℕ) → a ≢ hdr → has a cs ≡ has a w.free_chunks)
      → Rechunks s s' w (part hdr) hdr w.use_of cs
  relist_chunks s' hdr cs (pages, same_refs, cells, heads, dseg) own chain distinct same = record {
    valid = v;
    uses = λ q. inl refl;
    old_refs = λ z. absurd (cc);
    old_small = λ a z. absurd (cc);
    refs_eq = same_refs;
    cells_eq = cells;
    head_eq = heads;
    chunks = record {
      chain = chain;
      distinct = distinct;
      free = λ a m. elim (Bool-cases (a == hdr)) [
        | inl y ↦ let e : a ≡ hdr = ground arith in rw e own
        | inr n ↦ v.chunks.free a (sym (same a (ground arith)) ∙ m)
      ];
      chunk = λ a e. rw (pages a) (v.chunks.chunk a e);
    };
    used = λ page. rw dseg (v.used page);
    ended = rw dseg v.ended;
  }

  -- The blocks of other chunks.
  pub relist-KeptBlock :
      (s' : State) (hdr : ℕ) (cs : List ℕ)
      → Relinks s s'
      → Rechunks s s' w (part hdr) hdr w.use_of cs
      → ((a : ℕ) → a ≢ hdr → has a cs ≡ has a w.free_chunks)
      → hdr % page_size ≡ 0
      → (a : ℕ) → (a == hdr + smallest_subpage_size) ≡ false
      → w.use_of hdr ≡ part hdr
      → KeptBlock s w s' (rechunk w w.use_of cs) a
  relist-KeptBlock s' hdr cs k r same aligned a ne own = elim (Bool-cases (frame a == hdr)) [
    | inl y ↦
        let e : frame a ≡ hdr = ground arith in
        let u : w.use_of (frame a) ≡ part hdr = rw e own in
        let f : (a == frame a + smallest_subpage_size) ≡ false = ground arith in
        rw (u, f) (refl, λ z. absurd (cc))
    | inr n ↦
        Rechunks-KeptBlock r a refl (λ e out. k.0 (frame a)) (λ e. same (frame a) (ground arith))
  ]

  pub chunk-IsPage : (hdr : ℕ) → w.use_of hdr ≡ part hdr → IsPage s hdr
  chunk-IsPage hdr own = elim (v.used hdr) [
    | inl i ↦ absurd (let z = sym own ∙ i in cc)
    | inr p ↦ p
  ]

  block_at_chunk : (hdr : ℕ) → w.use_of hdr ≡ part hdr → frame (hdr + smallest_subpage_size) ≡ hdr
  block_at_chunk hdr own =
      frame_within hdr (hdr + smallest_subpage_size) (chunk-IsPage hdr own).0 (omega arith)
        (omega arith)

  pub chunk_live :
      (s' : State) (cs : List ℕ) (hdr a : ℕ)
      → w.use_of hdr ≡ part hdr
      → a ≡ hdr + smallest_subpage_size
      → live s' (rechunk w w.use_of cs) a ≡ not (has hdr cs)
  chunk_live s' cs hdr a own e =
      let at : frame a ≡ hdr = ap frame e ∙ block_at_chunk hdr own in
      let u : w.use_of (frame a) ≡ part hdr = rw at own in
      let first : (a == frame a + smallest_subpage_size) ≡ true = ground arith in
      let second : (frame a == hdr) ≡ true = ground arith in rw (u, first, second) refl

  taken-Relinks : (b x : ℕ) → Relinks s (take_chunk s b x).1
  unfolding take_chunk put_chunk
  taken-Relinks b x = elim (Bool-cases (b == null)) [
    | inl y ↦ rw y (
      (λ a. refl),
      refl,
      refl,
      (λ l. same_head s (record s { bigchunks = (s.chunks x).next }) refl refl refl l),
      refl,
    )
    | inr n ↦ rw n (
      (λ a. kept a),
      refl,
      refl,
      (λ l.
          same_head s (put_chunk s b (record (s.chunks b) { next = (s.chunks x).next })) refl refl
            refl l),
      refl,
    )
  ]
    where
      kept :
          (a : ℕ)
          → (if a == b then record (s.chunks b) { next = (s.chunks x).next } else s.chunks a).npages
            ≡ (s.chunks a).npages
      kept a = elim (Bool-cases (a == b)) [
        | inl y ↦ let e : a ≡ b = ground arith in rw (y, e) refl
        | inr f ↦ rw f refl
      ]

  taken-Chain :
      (n b x : ℕ)
      → first_fit (npages s) n null w.free_chunks ≡ some (b, x)
      → (has x w.free_chunks ≡ true)
        × (n ≤ npages s x)
        × Chain
            (λ c. ((take_chunk s b x).1.chunks c).next)
            (take_chunk s b x).1.bigchunks
            (remove x w.free_chunks)
  unfolding take_chunk put_chunk
  taken-Chain n b x e =
      let cs = w.free_chunks in
      let step = (λ (c : ℕ). (s.chunks c).next) in
      let absent : has null cs ≡ false = (elim (Bool-cases (has null cs)) [
        | inl y ↦ absurd (Chain-ne_null step s.bigchunks null cs v.chunks.chain y refl)
        | inr f ↦ f
      ]) in
      let (m, le, r) =
        first_fit-Skips step (npages s) n null s.bigchunks cs b x v.chunks.chain v.chunks.distinct
          absent e in
      (
        m,
        le,
        elim r [
          | inl (q, to, c) ↦
              let first : (b == null) ≡ true = ground arith in
              rw first (
                Chain-frame (skip step (npages s) n b x) step (step x) (remove x cs) c (λ a h.
                  let ne = ne_of_has a null cs absent (has_of_remove a x cs h) in
                  let f : (a == b) ≡ false = ground arith in rw f refl))
          | inr (mb, c) ↦
              let nn = Chain-ne_null step s.bigchunks b cs v.chunks.chain mb in
              let later : (b == null) ≡ false = ground arith in
              rw later (
                Chain-frame (skip step (npages s) n b x) _ s.bigchunks (remove x cs) c
                  (λ a h. elim (Bool-cases (a == b)) [ inl y ↦ rw y refl | inr f ↦ rw f refl ]))
        ],
      )

  pub fit_chunk :
      (n b x : ℕ)
      → first_fit (npages s) n null w.free_chunks ≡ some (b, x)
      → has x w.free_chunks ≡ true
  fit_chunk n b x e = (taken-Chain n b x e).0

  -- A free chunk with as many pages as are needed leaves the list, and its block is live then.
  pub take_chunk-Allots :
      (n b x size : ℕ)
      → first_fit (npages s) n null w.free_chunks ≡ some (b, x)
      → size + smallest_subpage_size ≤ n * page_size
      → Allots s w size (take_chunk s b x)
  unfolding take_chunk
  take_chunk-Allots n b x size e fits =
      let cs = w.free_chunks in
      let (m, le, chain) = taken-Chain n b x e in
      let own = v.chunks.free x m in
      let k = taken-Relinks b x in
      let same = (λ (a : ℕ) (ne : a ≢ x). has_same a x cs ne) in
      let page = chunk-IsPage x own in
      let s2 = (take_chunk s b x).1 in
      let r =
        relist_chunks s2 x (remove x cs) k own chain (remove-IsDistinct x cs v.chunks.distinct)
          same in
      Rechunks-Allots r size (rw k.4 page) own (remove_self x cs v.chunks.distinct)
        (chunk_live s cs x (x + smallest_subpage_size) own refl ∙ rw m refl)
        (rw (k.0 x) (omega (arith, fits, le)))
        (λ a ne. relist-KeptBlock s2 x (remove x cs) k r same page.0 a ne own)
