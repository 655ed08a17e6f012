-- ===== src/A2alloc/Heap/FindPage.antt =====
-- The page that `find_page` finds.
use parallel_memory_allocato.Base.{
  ℕ, ◌+◌, ◌%◌, ◌≤◌, ◌<◌, ◌≡◌, ◌≢◌, refl, sym, ◌∙◌, false, Bool-cases, inl, inr, ◌⊎◌, ◌*◌, Option,
  none, some, List, [], ◌∷◌, ◌==◌, arith, ok, Returns, ltb,
}
use parallel_memory_allocato.Memlib.{Dseg, null, mem_sbrk}
use parallel_memory_allocato.A2alloc.Sizes.{superblock_page_size, global_heap_id, page_of}
use parallel_memory_allocato.A2alloc.State.{State, Loc, free}
use parallel_memory_allocato.A2alloc.Relocate.{pop_free}
use parallel_memory_allocato.A2alloc.Malloc.{find_page, sbrk}
use parallel_memory_allocato.A2alloc.Links.{set_list, set_place}
use parallel_memory_allocato.A2alloc.Links.Moves.{taken_place}
use parallel_memory_allocato.A2alloc.Links.FreePages.{pop_free-IsLinked}
use parallel_memory_allocato.A2alloc.Links.FreshPage.{spared-IsLinked}
use parallel_memory_allocato.A2alloc.Links.SmallMalloc.{
  take_free_none, take_free_some, find_page_own, find_page_global, find_page_new,
}
use parallel_memory_allocato.A2alloc.Heap.{View, IsHeap, live, room}
use parallel_memory_allocato.A2alloc.Heap.Frame.{
  Touches, nothing, only, Touches-any, Touches-room, pop_free-Touches,
}
use parallel_memory_allocato.A2alloc.Heap.Give.{live_at}
use parallel_memory_allocato.A2alloc.Heap.Keep.{
  Keeps-live, Keeps-IsHeap, rest, rest-Keeps, rest-IsHeap,
}
use parallel_memory_allocato.A2alloc.Heap.Take.{IsReady}

-- The heap is in order, the same blocks are live with the same room, and the page is NULL
-- or on no list.
abbrev pub Obtains : State → View → ℕ × State → Type 0
Obtains s w (page, s') =
    (w' : View) × IsHeap s' w'
    × ((a : ℕ) → live s' w' a ≡ live s w a)
    × ((a : ℕ) → room s' a ≡ room s a)
    × (page ≢ null → (w'.place page ≡ none) × IsReady s' w' page)

-- A page that is placed lies inside no large block.
pub outside_of_placed :
    {s : State} {w : View} {page : ℕ} {l : Loc}
    → IsHeap s w
    → w.place page ≡ some l
    → w.within page ≡ none
outside_of_placed {s} {w} {page} {l} v e = go (w.within page) refl
  where
    go : (o : Option ℕ) → w.within page ≡ o → o ≡ none
    go none z = refl
    go (some p) z = let (unplaced, lt, aligned, nn) = v.inside page p z in cc

module _ (s : State) (w : View) (v : IsHeap s w) where
  -- The first page of a list of free pages.
  first_page : ℕ → ℕ → List ℕ → View
  first_page h x xs =
      rest w (set_list w.lists (free h) xs) (set_place w.place x none) x (w.free_blocks x)

  pop_free-Obtains :
      (h x : ℕ) (xs : List ℕ) → w.lists (free h) ≡ x ∷ xs → Obtains s w (x, pop_free s h)
  unfolding first_page
  pop_free-Obtains h x xs e =
      let s' = pop_free s h in
      let t : Touches (only x) s s' = Touches-any (only x) s s' (pop_free-Touches s h) in
      let placed = v.linked.placed (free h) x (rw e (ground arith)) in
      let i = v.item x (free h) placed in
      (
        first_page h x xs,
        rest-IsHeap s s' w _ _ x _ v t (λ a ne. ground arith)
            (pop_free-IsLinked s v.linked h x xs e) (outside_of_placed v placed)
            (λ l z. let out = taken_place w.place x in absurd (cc)),
        (λ a. elim (Bool-cases (page_of a == x)) [
          | inl q ↦
              let q' : page_of a ≡ x = ground arith in
              live_at s' (first_page h x xs) x a none q' (taken_place w.place x)
              ∙ sym (live_at s w x a (some (free h)) q' placed)
          | inr f ↦
              Keeps-live s s' w (first_page h x xs) (only x)
                (rest-Keeps s s' w _ _ x _ t (λ b ne. ground arith)) a f
        ]),
        λ a. Touches-room nothing s s' (pop_free-Touches s h) a refl,
        λ nn. (
          taken_place w.place x,
          record {
            outside = outside_of_placed v placed;
            aligned = i.aligned;
            above = omega (arith, i.above, t.lo_eq);
            below = omega (arith, i.below, t.grows);
          },
        ),
      )

  -- A new page at the end of the segment.
  pub end_unplaced : w.place s.dseg.dseg_end ≡ none
  end_unplaced = go (w.place s.dseg.dseg_end) refl
    where
      go : (o : Option Loc) → w.place s.dseg.dseg_end ≡ o → o ≡ none
      go none e = refl
      go (some l) e = let i = v.item s.dseg.dseg_end l e in absurd (omega (arith, i.below))

  pub end_outside : w.within s.dseg.dseg_end ≡ none
  end_outside = go (w.within s.dseg.dseg_end) refl
    where
      go : (o : Option ℕ) → w.within s.dseg.dseg_end ≡ o → o ≡ none
      go none e = refl
      go (some p) e =
          let (unplaced, lt, aligned, nn) = v.inside s.dseg.dseg_end p e in absurd (omega arith)

  -- The segment grown by whole pages.
  unfoldable pub grown : Dseg → State
  grown d = record s { dseg = d }

  grown-Touches :
      (d : Dseg)
      → d.dseg_lo ≡ s.dseg.dseg_lo
      → s.dseg.dseg_end ≤ d.dseg_end
      → (s.dseg.dseg_end % superblock_page_size ≡ 0 → d.dseg_end % superblock_page_size ≡ 0)
      → Touches nothing s (grown d)
  unfolding grown
  grown-Touches d low le aligned = record {
    data_eq = λ a o. refl;
    cells_eq = λ b o. refl;
    lo_eq = low;
    grows = le;
    ended = aligned;
  }

  pub grown-IsHeap : (d : Dseg) → Touches nothing s (grown d) → IsHeap (grown d) w
  unfolding grown
  grown-IsHeap d t =
      Keeps-IsHeap s (grown d) w w nothing
        (record {
          touches = t;
          place_eq = λ a o. refl;
          blocks_eq = λ a o. refl;
          within_eq = λ a p o e. e;
        })
        v (spared-IsLinked s v.linked (grown d) s.dseg.dseg_end end_unplaced (λ a ne. refl) refl)
        (λ page l o e. cc)
        (λ a p e.
          let (unplaced, lt, aligned, nn) = v.inside a p e in
          (unplaced, omega (arith, t.grows), aligned, nn))

  -- The segment after a request for `n` pages that is granted.
  unfoldable pub more : ℕ → Dseg
  more n = record s.dseg { dseg_end = s.dseg.dseg_end + n * superblock_page_size }

  pub sbrk_cases :
      (n : ℕ)
      → 0 < n
      → (sbrk (n * superblock_page_size) s ≡ ok (null, s))
        ⊎ (sbrk (n * superblock_page_size) s ≡ ok (s.dseg.dseg_end, grown (more n)))
  unfolding sbrk mem_sbrk grown more
  sbrk_cases n pos =
      let nz : (n * superblock_page_size == 0) ≡ false = ground arith in
      elim (Bool-cases (
        ltb (s.dseg.dseg_lo + s.dseg.dseg_size + 1) (s.dseg.dseg_end + n * superblock_page_size))) [
          | inl over ↦ inl (rw (nz, over) refl)
          | inr fits ↦ inr (rw (nz, fits) refl)
        ]

  pub more-Touches : (n : ℕ) → Touches nothing s (grown (more n))
  unfolding more
  more-Touches n = grown-Touches (more n) refl (omega arith) (λ e. omega arith)

  pub grown-live : (d : Dseg) (a : ℕ) → live (grown d) w a ≡ live s w a
  unfolding grown
  grown-live d a = refl

  pub end_below : (n : ℕ) → 0 < n → s.dseg.dseg_end < (grown (more n)).dseg.dseg_end
  unfolding grown more
  end_below n pos = omega arith

  new_page-Obtains : Returns (Obtains s w) (sbrk superblock_page_size s)
  new_page-Obtains = elim (sbrk_cases 1 (omega arith)) [
    | inl e ↦ rw e (w, v, λ a. refl, λ a. refl, λ nn. absurd (nn refl))
    | inr e ↦ rw e (
      w,
      grown-IsHeap (more 1) (more-Touches 1),
      grown-live (more 1),
      λ a. Touches-room nothing s (grown (more 1)) (more-Touches 1) a refl,
      λ nn. (
        end_unplaced,
        record {
          outside = end_outside;
          aligned = v.ended;
          above = omega (arith, v.started, (more-Touches 1).lo_eq);
          below = end_below 1 (omega arith);
        },
      ),
    )
  ]

  find_page_from :
      (h : ℕ) (own global : List ℕ)
      → w.lists (free h) ≡ own
      → w.lists (free global_heap_id) ≡ global
      → Returns (Obtains s w) (find_page s h)
  find_page_from h (x ∷ xs) global e g =
      let (first, nn, back, rest) = rw e at (v.linked.segment (free h)) in
      rw (find_page_own s (pop_free s h) h x (take_free_some s h x first nn) nn)
        (pop_free-Obtains h x xs e)
  find_page_from h [] (x ∷ xs) e g =
      let (first, nn, back, rest) = rw g at (v.linked.segment (free global_heap_id)) in
      let own = take_free_none s h (rw e at (v.linked.segment (free h))) in
      rw
        (find_page_global s (pop_free s global_heap_id) h x own
          (take_free_some s global_heap_id x first nn) nn)
        (pop_free-Obtains global_heap_id x xs g)
  find_page_from h [] [] e g =
      let own = take_free_none s h (rw e at (v.linked.segment (free h))) in
      let global =
        take_free_none s global_heap_id (rw g at (v.linked.segment (free global_heap_id))) in
      rw (find_page_new s h own global) new_page-Obtains

  -- In a heap in order `find_page` returns, the heap stays in order, the same blocks are live
  -- with the same room, and the page is NULL or an aligned page of the segment that is on no list and
  -- inside of no large block.
  pub find_page-Obtains : (h : ℕ) → Returns (Obtains s w) (find_page s h)
  find_page-Obtains h =
      find_page_from h (w.lists (free h)) (w.lists (free global_heap_id)) refl refl
