-- ===== src/Kheap/Heap/Chunks/Cut.antt =====
-- `carve`: the last pages of a free chunk become a chunk of their own.
use parallel_memory_allocato.Base.{
  ℕ, ◌+◌, ◌-◌, ◌*◌, ◌≤◌, ◌<◌, ◌≡◌, ◌≢◌, refl, sym, ◌∙◌, ap, Bool, true, false, ◌&&◌, Bool-cases,
  inl, inr, ◌⊎◌, ◌==◌, has, arith, if◌then◌else◌, leb,
}
use parallel_memory_allocato.A2alloc.Blocks.{Chain-frame}
use parallel_memory_allocato.Kheap.Sizes.{page_size, frame, smallest_subpage_size}
use parallel_memory_allocato.Kheap.State.{State, put_chunk}
use parallel_memory_allocato.Kheap.Big.{carve}
use parallel_memory_allocato.Kheap.Heap.{
  Use, idle, refs, small, part, View, IsChunks, IsPage, IsHeap, live, npages, Allots,
}
use parallel_memory_allocato.Kheap.Heap.Layout.{frame_within}
use parallel_memory_allocato.Kheap.Heap.Keep.{Changes}
use parallel_memory_allocato.Kheap.Heap.Chunks.{
  put_chunk-npages, put_chunk-next, same_head, rechunk, Rechunks, Rechunks-KeptBlock,
  Rechunks-Allots, KeptBlock,
}

abbrev is_part : ℕ → Use → Bool
is_part h (part k) = k == h
is_part h idle = false
is_part h refs = false
is_part h (small pr) = false

is_part-eq : (h : ℕ) (u : Use) → is_part h u ≡ true → u ≡ part h
is_part-eq h (part k) e = ap part (ground arith)
is_part-eq h idle e = absurd (cc)
is_part-eq h refs e = absurd (cc)
is_part-eq h (small pr) e = absurd (cc)

module _ (s : State) (w : View) (v : IsHeap s w) (tmp n : ℕ) (free : has tmp w.free_chunks ≡ true)
    (lt : n < npages s tmp) (pos : 0 < n) where
  abbrev hdr : ℕ
  hdr = tmp + (npages s tmp - n) * page_size

  -- Whether the page is cut off.
  abbrev is_cut : ℕ → Bool
  is_cut q = is_part tmp (w.use_of q) && leb hdr q

  abbrev cut_use : ℕ → Use
  cut_use q = if is_cut q then part hdr else w.use_of q

  above : tmp < hdr
  above = omega (arith, lt)

  inner : (i : ℕ) → i < npages s tmp → w.use_of (tmp + i * page_size) ≡ part tmp
  inner = (v.chunks.chunk tmp (v.chunks.free tmp free)).1

  hdr-use : w.use_of hdr ≡ part tmp
  hdr-use = inner (npages s tmp - n) (omega (arith, lt, pos))

  hdr-IsPage : IsPage s hdr
  hdr-IsPage = elim (v.used hdr) [ inl i ↦ absurd (let z = sym hdr-use ∙ i in cc) | inr p ↦ p ]

  -- The new header is the header of no chunk yet.
  hdr-new : w.use_of hdr ≢ part hdr
  hdr-new e =
      let z : part tmp ≡ part hdr = sym hdr-use ∙ e in
      let q : tmp ≡ hdr = cc in omega (arith, above, q)

  cut-npages :
      (a : ℕ)
      → npages (carve s n tmp).1 a
        ≡ (if a == hdr then n else if a == tmp then npages s tmp - n else npages s a)
  unfolding carve
  cut-npages a =
      let left = npages s tmp - n in
      let s1 = put_chunk s tmp (record (s.chunks tmp) { npages = left }) in
      put_chunk-npages s1 hdr n a ∙ elim (Bool-cases (a == hdr)) [
        | inl y ↦ rw y refl
        | inr f ↦ rw f (put_chunk-npages s tmp left a)
      ]

  cut-next : (a : ℕ) → ((carve s n tmp).1.chunks a).next ≡ (s.chunks a).next
  unfolding carve
  cut-next a =
      let left = npages s tmp - n in
      let s1 = put_chunk s tmp (record (s.chunks tmp) { npages = left }) in
      put_chunk-next s1 hdr n a ∙ put_chunk-next s tmp left a

  Changes-cut_use : Changes (part tmp) (part hdr) w.use_of cut_use
  Changes-cut_use q = elim (Bool-cases (is_cut q)) [
    | inl y ↦
        let p : is_part tmp (w.use_of q) ≡ true = ground arith in
        inr (is_part-eq tmp _ p, rw y refl)
    | inr f ↦ inl (rw f refl)
  ]

  -- A page of another chunk, or before the cut, keeps its use.
  spared : (q h : ℕ) → w.use_of q ≡ part h → (h ≢ tmp) ⊎ (q < hdr) → cut_use q ≡ w.use_of q
  spared q h e o = elim (Bool-cases (is_cut q)) [
    | inl y ↦
        let p = is_part-eq tmp (w.use_of q) (ground arith) in
        let z : h ≡ tmp = (let z = sym e ∙ p in cc) in
        let le : hdr ≤ q = ground arith in
        elim o [ inl ne ↦ absurd (ne z) | inr below ↦ absurd (omega (arith, le, below)) ]
    | inr f ↦ rw f refl
  ]

  cut_page : (i : ℕ) → i < n → cut_use (hdr + i * page_size) ≡ part hdr
  cut_page i below =
      let at : hdr + i * page_size ≡ tmp + (npages s tmp - n + i) * page_size = omega (arith, lt) in
      let u : w.use_of (hdr + i * page_size) ≡ part tmp =
        ap w.use_of at ∙ inner (npages s tmp - n + i) (omega (arith, lt, below)) in
      let self : (tmp == tmp) ≡ true = ground arith in
      let le : leb hdr (hdr + i * page_size) ≡ true = ground arith in rw (u, self, le) refl

  cut-chunk :
      (h : ℕ)
      → cut_use h ≡ part h
      → (0 < npages (carve s n tmp).1 h)
        × ((i : ℕ) → i < npages (carve s n tmp).1 h → cut_use (h + i * page_size) ≡ part h)
  cut-chunk h e = elim (Changes-cut_use h) [
    | inr (old, new) ↦
        let q : hdr ≡ h = (let z = sym new ∙ e in cc) in
        let self : (h == hdr) ≡ true = ground arith in
        let size : npages (carve s n tmp).1 h ≡ n = cut-npages h ∙ rw self refl in
        rw size (pos, λ i below. rw (← q) (cut_page i below))
    | inl same ↦
        let u : w.use_of h ≡ part h = sym same ∙ e in
        let other : (h == hdr) ≡ false = elim (Bool-cases (h == hdr)) [
          | inl y ↦ let q : h ≡ hdr = ground arith in absurd (hdr-new (rw q at u))
          | inr f ↦ f
        ] in
        let (some_page, inside) = v.chunks.chunk h u in
        elim (Bool-cases (h == tmp)) [
          | inl y ↦
              let q : h ≡ tmp = ground arith in
              let size : npages (carve s n tmp).1 h ≡ npages s tmp - n =
                cut-npages h ∙ rw (other, y) refl in
              rw size (
                omega (arith, lt),
                λ i below.
                    let p = inside i (rw (ap (npages s) q) (omega (arith, below))) in
                    spared (h + i * page_size) h p (inr (omega (arith, below, q))) ∙ p,
              )
          | inr f ↦
              let size : npages (carve s n tmp).1 h ≡ npages s h =
                cut-npages h ∙ rw (other, f) refl in
              rw size (
                some_page,
                λ i below.
                    spared (h + i * page_size) h (inside i below) (inl (λ z. ground arith))
                    ∙ inside i below,
              )
        ]
  ]

  cut-IsChunks : IsChunks (carve s n tmp).1 (rechunk w cut_use w.free_chunks)
  unfolding carve put_chunk
  cut-IsChunks = record {
    chain =
        Chain-frame (λ c. (s.chunks c).next) (λ c. ((carve s n tmp).1.chunks c).next) s.bigchunks
          w.free_chunks v.chunks.chain (λ a m. cut-next a);
    distinct = v.chunks.distinct;
    free = λ h m.
        let u = v.chunks.free h m in
        elim (Bool-cases (h == tmp)) [
          | inl y ↦ spared h h u (inr (let q : h ≡ tmp = ground arith in omega (arith, above))) ∙ u
          | inr f ↦ spared h h u (inl (λ z. ground arith)) ∙ u
        ];
    chunk = cut-chunk;
  }

  cut-Rechunks : Rechunks s (carve s n tmp).1 w (part tmp) hdr cut_use w.free_chunks
  unfolding carve put_chunk
  cut-Rechunks = record {
    valid = v;
    uses = Changes-cut_use;
    old_refs = λ z. absurd (cc);
    old_small = λ a z. absurd (cc);
    refs_eq = refl;
    cells_eq = refl;
    head_eq = same_head s (carve s n tmp).1 refl refl refl;
    chunks = cut-IsChunks;
    used = λ page. elim (Changes-cut_use page) [
      | inl same ↦ rw same (v.used page)
      | inr (old, new) ↦ elim (v.used page) [
        | inl i ↦ absurd (let z = sym old ∙ i in cc)
        | inr p ↦ inr p
      ]
    ];
    ended = v.ended;
  }

  cut-KeptBlock :
      (a : ℕ)
      → (a == hdr + smallest_subpage_size) ≡ false
      → KeptBlock s w (carve s n tmp).1 (rechunk w cut_use w.free_chunks) a
  cut-KeptBlock a ne = elim (Bool-cases (is_cut (frame a))) [
    | inl y ↦
        let old = is_part-eq tmp (w.use_of (frame a)) (ground arith) in
        let le : hdr ≤ frame a = ground arith in
        let apart : (frame a == tmp) ≡ false = (let z = above in ground arith) in
        let before : live s w a ≡ false = rw (old, apart) (ground arith) in
        let after : live (carve s n tmp).1 (rechunk w cut_use w.free_chunks) a ≡ false =
          rw y (ground arith) in
        (after ∙ sym before, λ z. absurd (let q = sym before ∙ z in cc))
    | inr f ↦
        let same : cut_use (frame a) ≡ w.use_of (frame a) = rw f refl in
        Rechunks-KeptBlock cut-Rechunks a same
          (λ u out.
            let other : (frame a == tmp) ≡ false =
              apart (frame a) tmp (λ e. let z = rw e at out in cc) in
            let other2 : (frame a == hdr) ≡ false =
              apart (frame a) hdr (λ e. hdr-new (rw e at u)) in
            cut-npages (frame a) ∙ rw (other2, other) refl)
          (λ u. refl)
  ]
    where
      apart : (x y : ℕ) → x ≢ y → (x == y) ≡ false
      apart x y ne = ground arith

  hdr-out : has hdr w.free_chunks ≡ false
  hdr-out = elim (Bool-cases (has hdr w.free_chunks)) [
    | inl y ↦ absurd (hdr-new (v.chunks.free hdr y))
    | inr f ↦ f
  ]

  cut-dead : live s w (hdr + smallest_subpage_size) ≡ false
  cut-dead =
      let at : frame (hdr + smallest_subpage_size) ≡ hdr =
        frame_within hdr (hdr + smallest_subpage_size) hdr-IsPage.0 (omega arith) (omega arith) in
      let u : w.use_of (frame (hdr + smallest_subpage_size)) ≡ part tmp = rw at hdr-use in
      let other : (frame (hdr + smallest_subpage_size) == tmp) ≡ false =
        (let z = above in ground arith) in
      rw (u, other) (ground arith)

  -- A free chunk with more pages than are needed keeps the others, and the block of its last pages is
  -- live then.
  pub carve-Allots :
      (size : ℕ) → size + smallest_subpage_size ≤ n * page_size → Allots s w size (carve s n tmp)
  unfolding carve
  carve-Allots size fits =
      let self : (hdr == hdr) ≡ true = ground arith in
      let same : (tmp == tmp) ≡ true = ground arith in
      let le : leb hdr hdr ≡ true = ground arith in
      let pages : npages (carve s n tmp).1 hdr ≡ n = cut-npages hdr ∙ rw self refl in
      Rechunks-Allots cut-Rechunks size hdr-IsPage (rw (hdr-use, same, le) refl) hdr-out cut-dead
        (rw pages fits) cut-KeptBlock
