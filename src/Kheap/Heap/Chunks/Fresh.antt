-- ===== src/Kheap/Heap/Chunks/Fresh.antt =====
-- `new_chunk`: a chunk from `mem_sbrk`.
use parallel_memory_allocato.Base.{
  ℕ, ◌+◌, ◌*◌, ◌%◌, ◌≤◌, ◌<◌, ◌≡◌, ◌≢◌, refl, sym, ◌∙◌, Bool, true, false, ◌&&◌, Bool-cases, inl,
  inr, ◌==◌, has, arith, if◌then◌else◌, ltb, leb, Returns,
}
use parallel_memory_allocato.Memlib.{null}
use parallel_memory_allocato.Client.{Allots-none}
use parallel_memory_allocato.A2alloc.Blocks.{Chain-frame}
use parallel_memory_allocato.Kheap.Sizes.{page_size, frame, smallest_subpage_size}
use parallel_memory_allocato.Kheap.State.{State, put_chunk}
use parallel_memory_allocato.Kheap.Big.{new_chunk}
use parallel_memory_allocato.Kheap.Heap.{
  Use, idle, part, View, IsPage, IsHeap, live, room, npages, Allots,
}
use parallel_memory_allocato.Kheap.Heap.Layout.{frame_within}
use parallel_memory_allocato.Kheap.Heap.Keep.{Changes, Changes-to}
use parallel_memory_allocato.Kheap.Heap.Grow.{
  grown, sbrk_cases, grown-IsHeap, grown-SameBlock, end_idle,
}
use parallel_memory_allocato.Kheap.Heap.Chunks.{
  put_chunk-npages, put_chunk-next, same_head, rechunk, Rechunks, Rechunks-KeptBlock,
  Rechunks-Allots, KeptBlock,
}

module _ (s : State) (w : View) (v : IsHeap s w) (n : ℕ) (pos : 0 < n) where
  module _ (nn : s.dseg.dseg_end ≢ null) where
    abbrev hdr : ℕ
    hdr = s.dseg.dseg_end

    -- Whether the page is one of the new ones.
    abbrev is_new : ℕ → Bool
    is_new q = leb hdr q && ltb q (hdr + n * page_size) && q % page_size == 0

    abbrev new_use : ℕ → Use
    new_use q = if is_new q then part hdr else w.use_of q

    -- The state with the new chunk.
    chunked : State
    chunked = put_chunk (grown s n) hdr (record ((grown s n).chunks hdr) { npages = n })

    Changes-new_use : Changes idle (part hdr) w.use_of new_use
    Changes-new_use q = elim (Bool-cases (is_new q)) [
      | inl y ↦ let le : hdr ≤ q = ground arith in inr (end_idle s w v q le, rw y refl)
      | inr f ↦ inl (rw f refl)
    ]

    new_page_of : (i : ℕ) → i < n → new_use (hdr + i * page_size) ≡ part hdr
    new_page_of i lt =
        let aligned : (hdr + i * page_size) % page_size ≡ 0 = let e = v.ended in omega arith in
        let yes : is_new (hdr + i * page_size) ≡ true = ground arith in rw yes refl

    chunked-npages : (a : ℕ) → npages chunked a ≡ (if a == hdr then n else npages s a)
    unfolding chunked grown
    chunked-npages a = put_chunk-npages (grown s n) hdr n a

    chunked-next : (a : ℕ) → (chunked.chunks a).next ≡ (s.chunks a).next
    unfolding chunked grown
    chunked-next a = put_chunk-next (grown s n) hdr n a

    -- The old chunks are others.
    old-npages : (a h : ℕ) → w.use_of a ≡ part h → npages chunked a ≡ npages s a
    old-npages a h u =
        let other : (a == hdr) ≡ false = elim (Bool-cases (a == hdr)) [
          | inl y ↦
              let e : a ≡ hdr = ground arith in
              let z : w.use_of a ≡ idle = rw e (end_idle s w v hdr (omega arith)) in
              absurd (let q = sym u ∙ z in cc)
          | inr f ↦ f
        ] in
        chunked-npages a ∙ rw other refl

    chunked-chunk :
        (h : ℕ)
        → new_use h ≡ part h
        → (0 < npages chunked h)
          × ((i : ℕ) → i < npages chunked h → new_use (h + i * page_size) ≡ part h)
    chunked-chunk h e = elim (Changes-new_use h) [
      | inl same ↦
          let u = sym same ∙ e in
          let (some_page, inside) = v.chunks.chunk h u in
          rw (old-npages h h u) (
            some_page,
            λ i lt.
                Changes-to Changes-new_use (h + i * page_size) (part h) (λ z. absurd (cc))
                  (inside i lt),
          )
      | inr (old, new) ↦
          let q : hdr ≡ h = (let z = sym new ∙ e in cc) in
          let self : (h == hdr) ≡ true = ground arith in
          let pages : npages chunked h ≡ n = chunked-npages h ∙ rw self refl in
          rw pages (pos, λ i lt. rw (← q) (new_page_of i lt))
    ]

    chunked-Rechunks : Rechunks s chunked w idle hdr new_use w.free_chunks
    unfolding chunked grown put_chunk
    chunked-Rechunks = record {
      valid = v;
      uses = Changes-new_use;
      old_refs = λ z. absurd (cc);
      old_small = λ a z. absurd (cc);
      refs_eq = refl;
      cells_eq = refl;
      head_eq = same_head s chunked refl refl refl;
      chunks = record {
        chain =
            Chain-frame (λ c. (s.chunks c).next) (λ c. (chunked.chunks c).next) s.bigchunks
              w.free_chunks v.chunks.chain (λ a m. chunked-next a);
        distinct = v.chunks.distinct;
        free = λ h m. Changes-to Changes-new_use h (part h) (λ z. absurd (cc)) (v.chunks.free h m);
        chunk = chunked-chunk;
      };
      used = λ page. elim (Bool-cases (is_new page)) [
        | inl y ↦ inr (ground arith, (λ z. nn (ground arith)), ground arith)
        | inr f ↦ rw f (elim (v.used page) [
          | inl i ↦ inl i
          | inr (aligned, ne, lt) ↦ inr (aligned, ne, omega (arith, lt))
        ])
      ];
      ended = let e = v.ended in omega arith;
    }

    chunked-KeptBlock :
        (a : ℕ)
        → (a == hdr + smallest_subpage_size) ≡ false
        → KeptBlock s w chunked (rechunk w new_use w.free_chunks) a
    chunked-KeptBlock a ne = elim (Bool-cases (is_new (frame a))) [
      | inl y ↦
          let le : hdr ≤ frame a = ground arith in
          let before : live s w a ≡ false = rw (end_idle s w v (frame a) le) refl in
          let after : live chunked (rechunk w new_use w.free_chunks) a ≡ false =
            rw y (ground arith) in
          (after ∙ sym before, λ z. absurd (let q = sym before ∙ z in cc))
      | inr f ↦
          let same : new_use (frame a) ≡ w.use_of (frame a) = rw f refl in
          Rechunks-KeptBlock chunked-Rechunks a same (λ u out. old-npages (frame a) (frame a) u)
            (λ u. refl)
    ]

    hdr-out : has hdr w.free_chunks ≡ false
    hdr-out = elim (Bool-cases (has hdr w.free_chunks)) [
      | inl y ↦ absurd (let z = sym (v.chunks.free hdr y) ∙ end_idle s w v hdr (omega arith) in cc)
      | inr f ↦ f
    ]

    chunked-Allots :
        (size : ℕ)
        → size + smallest_subpage_size ≤ n * page_size
        → Allots s w size (hdr + smallest_subpage_size, chunked)
    chunked-Allots size fits =
        let self : (hdr == hdr) ≡ true = ground arith in
        let pages : npages chunked hdr ≡ n = chunked-npages hdr ∙ rw self refl in
        let at : frame (hdr + smallest_subpage_size) ≡ hdr =
          frame_within hdr (hdr + smallest_subpage_size) v.ended (omega arith) (omega arith) in
        let gone : w.use_of (frame (hdr + smallest_subpage_size)) ≡ idle =
          rw at (end_idle s w v hdr (omega arith)) in
        let own : new_use hdr ≡ part hdr =
          (let z = new_page_of 0 pos in
            let e : hdr + 0 * page_size ≡ hdr = omega arith in rw e at z) in
        let page : IsPage chunked hdr = elim (chunked-Rechunks.used hdr) [
          | inl i ↦ absurd (let z = sym own ∙ i in cc)
          | inr p ↦ p
        ] in
        Rechunks-Allots chunked-Rechunks size page own hdr-out (rw gone refl) (rw pages fits)
          chunked-KeptBlock

  -- Either `mem_sbrk` has no more pages and the same blocks are live, or the block of a new chunk is.
  pub new_chunk-Allots :
      (size : ℕ)
      → size + smallest_subpage_size ≤ n * page_size
      → Returns (Allots s w size) (new_chunk s n)
  unfolding new_chunk chunked
  new_chunk-Allots size fits = elim (sbrk_cases s n pos) [
    | inl e ↦ rw e (Allots-none IsHeap live room s s w w size v (λ a. refl) (λ a z. refl))
    | inr e ↦ rw e (elim (Bool-cases (s.dseg.dseg_end == null)) [
      | inl y ↦ rw y (
          Allots-none IsHeap live room s (grown s n) w w size (grown-IsHeap s w v n)
            (λ a. (grown-SameBlock s w v n a).0) (λ a z. (grown-SameBlock s w v n a).1))
      | inr f ↦ rw f (chunked-Allots (λ z. ground arith) size fits)
    ])
  ]
