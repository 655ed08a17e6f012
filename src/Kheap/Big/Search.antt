-- ===== src/Kheap/Big/Search.antt =====
-- The search of `big_kmalloc` on the list of free chunks.
use parallel_memory_allocato.Base.{
  ℕ, zero, suc, ◌+◌, ◌-◌, ◌<◌, ◌≡◌, ◌≢◌, refl, ◌∙◌, Bool-cases, inl, inr, Option, none, some, List,
  [], ◌∷◌, Outcome, ok, ltb, ◌==◌, true, false, if◌then◌else◌, length, arith,
}
use parallel_memory_allocato.Memlib.{null}
use parallel_memory_allocato.A2alloc.Blocks.{Chain}
use parallel_memory_allocato.Kheap.Sizes.{smallest_subpage_size}
use parallel_memory_allocato.Kheap.State.{State, put_chunk}
use parallel_memory_allocato.Kheap.Big.{
  big_pages, carve, take_chunk, search_chunks, new_chunk, big_kmalloc, big_kfree,
}

-- The pages of a chunk, and the chunk after it.
abbrev pub pages : State → ℕ → ℕ
pages s c = (s.chunks c).npages

abbrev pub next : State → ℕ → ℕ
next s c = (s.chunks c).next

-- The first chunk of the list with at least `n` pages, behind the one before it.
abbrev pub first_fit : (ℕ → ℕ) → ℕ → ℕ → List ℕ → Option (ℕ × ℕ)
first_fit size n before [] = none
first_fit size n before (x ∷ xs) =
    let rest = first_fit size n x xs in if ltb (size x) n then rest else some (before, x)

-- The chunk is cut if it has more pages than needed, and taken otherwise.
abbrev pub serve : State → ℕ → Option (ℕ × ℕ) → Option (ℕ × State)
serve s n none = none
serve s n (some (before, x)) =
    some (if ltb n (pages s x) then carve s n x else take_chunk s before x)

search_chunks-first_fit :
    (fuel : ℕ) (s : State) (n before p : ℕ) (cs : List ℕ)
    → Chain (next s) p cs
    → length cs < fuel
    → search_chunks fuel s n before p ≡ ok (serve s n (first_fit (pages s) n before cs))
unfolding search_chunks
search_chunks-first_fit zero s n before p cs c lt = absurd (omega (arith, lt))
search_chunks-first_fit (suc fuel) s n before p [] c lt =
    let e : (p == null) ≡ true = ground arith in rw e refl
search_chunks-first_fit (suc fuel) s n before p (x ∷ xs) (e, nn, tail) lt =
    let ne : (x == null) ≡ false = ground arith in
    elim (Bool-cases (ltb (pages s x) n)) [
      | inl small ↦
          let over : ltb n (pages s x) ≡ false = ground arith in
          let same : (pages s x == n) ≡ false = ground arith in
          rw (e, ne, over, same, small)
            (search_chunks-first_fit fuel s n x (next s x) xs tail (omega (arith, lt)))
      | inr large ↦ elim (Bool-cases (ltb n (pages s x))) [
        | inl over ↦ rw (e, ne, over, large, over) refl
        | inr le ↦
            let same : (pages s x == n) ≡ true = ground arith in
            rw (e, ne, le, same, large, le) refl
      ]
    ]

-- What `big_kmalloc` does by the first chunk that is large enough.
abbrev pub kmalloc_by : State → ℕ → Option (ℕ × ℕ) → Outcome (ℕ × State)
kmalloc_by s n none = new_chunk s n
kmalloc_by s n (some (before, x)) =
    ok (if ltb n (pages s x) then carve s n x else take_chunk s before x)

-- With more fuel than there are free chunks, `big_kmalloc` takes the first chunk of the list that has
-- enough pages, cut or whole, and a new one from `mem_sbrk` if no chunk has.
pub big_kmalloc-first_fit :
    (fuel : ℕ) (s : State) (sz : ℕ) (cs : List ℕ)
    → Chain (next s) s.bigchunks cs
    → length cs < fuel
    → big_kmalloc fuel sz s
      ≡ kmalloc_by s (big_pages sz) (first_fit (pages s) (big_pages sz) null cs)
unfolding big_kmalloc
big_kmalloc-first_fit fuel s sz cs c lt =
    rw (search_chunks-first_fit fuel s (big_pages sz) null s.bigchunks cs c lt)
      (by_result (first_fit (pages s) (big_pages sz) null cs))
  where
    by_result :
        (o : Option (ℕ × ℕ))
        → elim (serve s (big_pages sz) o) [ none ↦ new_chunk s (big_pages sz) | some r ↦ ok r ]
          ≡ kmalloc_by s (big_pages sz) o
    by_result none = refl
    by_result (some r) = refl

search_chunks-take_chunk :
    (fuel : ℕ) (s : State) (n before p : ℕ)
    → p ≢ null
    → pages s p ≡ n
    → search_chunks (suc fuel) s n before p ≡ ok (some (take_chunk s before p))
unfolding search_chunks
search_chunks-take_chunk fuel s n before p nn e =
    let ne : (p == null) ≡ false = ground arith in
    let over : ltb n (pages s p) ≡ false = ground arith in
    let same : (pages s p == n) ≡ true = ground arith in rw (ne, over, same) refl

module _ (ptr : ℕ) (s : State) where
  header : ℕ
  header = ptr - smallest_subpage_size

  big_kfree-bigchunks : (big_kfree ptr s).bigchunks ≡ header
  unfolding big_kfree put_chunk header
  big_kfree-bigchunks = refl

  big_kfree-next : next (big_kfree ptr s) header ≡ s.bigchunks
  unfolding big_kfree put_chunk header
  big_kfree-next = ground arith

  big_kfree-pages : (c : ℕ) → pages (big_kfree ptr s) c ≡ pages s c
  unfolding big_kfree put_chunk
  big_kfree-pages c = ground arith

  -- A freed chunk is the first free one, so the next request for as many pages gets it back: the
  -- first free chunk and the pages of all chunks are then as before the two calls.
  pub big_kmalloc-big_kfree :
      (fuel sz : ℕ)
      → smallest_subpage_size < ptr
      → pages s (ptr - smallest_subpage_size) ≡ big_pages sz
      → (s' : State) × (big_kmalloc (suc fuel) sz (big_kfree ptr s) ≡ ok (ptr, s'))
        × (s'.bigchunks ≡ s.bigchunks)
        × ((c : ℕ) → pages s' c ≡ pages s c)
  unfolding big_kmalloc take_chunk header big_kfree
  big_kmalloc-big_kfree fuel sz lt e =
      let s1 = big_kfree ptr s in
      let found =
        search_chunks-take_chunk fuel s1 (big_pages sz) null header (λ z. omega arith)
          (big_kfree-pages header ∙ e) in
      let back : header + smallest_subpage_size ≡ ptr = omega arith in
      (
        record s1 { bigchunks = next s1 header },
        rw (big_kfree-bigchunks, found, back) refl,
        big_kfree-next,
        big_kfree-pages,
      )
