-- ===== src/A2alloc/Heap/LargeMalloc.antt =====
-- `large_malloc`: a block of whole pages at the end of the segment.
use parallel_memory_allocato.Base.{
  ℕ, ◌+◌, ◌-◌, ◌*◌, ◌%◌, ◌^◌, ◌≤◌, ◌<◌, ◌≡◌, ◌≢◌, refl, sym, ◌∙◌, ap, true, false, ◌&&◌, Bool-cases,
  inl, inr, ◌⊎◌, Option, none, some, ◌∷◌, ◌==◌, if◌then◌else◌, arith, ok, Returns, ltb,
}
use parallel_memory_allocato.Memlib.{Dseg, null}
use parallel_memory_allocato.A2alloc.Sizes.{superblock_page_size, sizeof_pageref, page_of}
use parallel_memory_allocato.A2alloc.State.{State, Loc, large, put_page, push_front}
use parallel_memory_allocato.A2alloc.Malloc.{large_pages_needed, large_malloc}
use parallel_memory_allocato.A2alloc.Malloc.Wrap.{large_pages_needed_fit}
use parallel_memory_allocato.A2alloc.Links.{links, IsLinked, set_list, set_place}
use parallel_memory_allocato.A2alloc.Links.Push.{some_inj}
use parallel_memory_allocato.A2alloc.Links.Ops.{push_front-IsLinked}
use parallel_memory_allocato.A2alloc.Links.Moves.{put_page-IsLinked}
use parallel_memory_allocato.A2alloc.Links.LargeMalloc.{
  sbrk_pages_small, large_malloc-eq, put_large_prev, large_header, large_end,
}
use parallel_memory_allocato.A2alloc.Heap.{page_data, View, Item, IsHeap, live, room}
use parallel_memory_allocato.A2alloc.Heap.Frame.{
  Touches, nothing, only, KeepsRoom, Touches-room, Touches-trans, Touches-any, put_page-Touches,
  push_front-Touches, push_front-dseg,
}
use parallel_memory_allocato.A2alloc.Heap.Give.{live_at}
use parallel_memory_allocato.A2alloc.Heap.Keep.{Keeps, Keeps-live, Keeps-IsHeap}
use parallel_memory_allocato.A2alloc.Heap.FindPage.{
  grown, more, sbrk_cases, more-Touches, grown-live, grown-IsHeap, end_unplaced,
}
use parallel_memory_allocato.A2alloc.Heap.Take.{Allots}

-- The addresses of pages strictly inside the `n` pages from `page` lie inside of it.
abbrev pub cover : (ℕ → Option ℕ) → ℕ → ℕ → ℕ → Option ℕ
cover within page n a =
    if ltb page a && ltb a (page + n * superblock_page_size) && (a % superblock_page_size == 0)
    then some page
    else within a

cover_inner :
    (within : ℕ → Option ℕ) (page n i : ℕ)
    → page % superblock_page_size ≡ 0
    → 0 < i
    → i < n
    → cover within page n (page + i * superblock_page_size) ≡ some page
cover_inner within page n i aligned pos lt = ground arith

-- What is inside after a large block of `n` pages is made at `page`.
cover_cases :
    (within : ℕ → Option ℕ) (page n a p : ℕ)
    → cover within page n a ≡ some p
    → (page < a) × (a < page + n * superblock_page_size) × (a % superblock_page_size ≡ 0)
      ⊎ (within a ≡ some p)
cover_cases within page n a p e =
    elim (Bool-cases
      (ltb page a && ltb a (page + n * superblock_page_size) && (a % superblock_page_size == 0))) [
        | inl t ↦ inl (ground arith)
        | inr f ↦ inr (rw f at e)
      ]

pub page_of_large :
    (page : ℕ) → page % superblock_page_size ≡ 0 → page_of (page + sizeof_pageref) ≡ page
unfolding page_of
page_of_large page aligned = omega arith

module _ (s : State) (w : View) (v : IsHeap s w) (n h : ℕ) (pos : 0 < n) where
  abbrev page : ℕ
  page = s.dseg.dseg_end

  abbrev old_state : State
  old_state = grown s w v (more s w v n)

  with_header : State
  with_header = put_page old_state page (large_header old_state page n h)

  made : State
  made = push_front with_header (large h) page

  abbrev after : View
  after = record {
    lists = set_list w.lists (large h) (page ∷ w.lists (large h));
    place = set_place w.place page (some (large h));
    within = cover w.within page n;
    free_blocks = w.free_blocks;
  }

  made-Touches : Touches (only page) s made
  unfolding made with_header
  made-Touches =
      Touches-trans (only page) s with_header made
        (Touches-trans (only page) s old_state with_header
          (Touches-any (only page) s old_state (more-Touches s w v n))
          (put_page-Touches old_state page _))
        (Touches-any (only page) with_header made (push_front-Touches with_header (large h) page))

  made-IsLinked : page ≢ null → IsLinked (links made) after.lists after.place
  unfolding made with_header
  made-IsLinked nn =
      let out = end_unplaced s w v in
      push_front-IsLinked with_header
        (put_page-IsLinked old_state
          (grown-IsHeap s w v (more s w v n) (more-Touches s w v n)).linked page
          (large_header old_state page n h) out)
        (large h) page out nn (λ e. put_large_prev old_state page n h)

  made_data : page_data (made.pages page) ≡ page_data (large_header old_state page n h)
  unfolding made with_header put_page
  made_data = (push_front-Touches with_header (large h) page).data_eq page refl ∙ ground arith

  made-Keeps : Keeps s made w after (only page)
  made-Keeps = record {
    touches = made-Touches;
    place_eq = λ a o. rw o refl;
    blocks_eq = λ a o. refl;
    within_eq = λ a p o e.
        let (unplaced, lt, aligned, nn) = v.inside a p e in
        let f : ltb page a ≡ false = ground arith in rw f e;
  }

  made_end : made.dseg.dseg_end ≡ page + n * superblock_page_size
  unfolding made with_header grown more put_page
  made_end = ap (λ (d : Dseg). d.dseg_end) (push_front-dseg with_header (large h) page)

  above_unplaced : (a : ℕ) → page ≤ a → w.place a ≡ none
  above_unplaced a le = go (w.place a) refl
    where
      go : (o : Option Loc) → w.place a ≡ o → o ≡ none
      go none e = refl
      go (some l) e = let i = v.item a l e in absurd (omega (arith, i.below))

  made-IsHeap : page ≢ null → IsHeap made after
  unfolding large_header
  made-IsHeap nn =
      Keeps-IsHeap s made w after (only page) made-Keeps v (made-IsLinked nn)
        (λ a l o e. let q : a ≡ page = ground arith in rw q (own l (rw q at e)))
        (λ a p e. elim (cover_cases w.within page n a p e) [
          | inl z ↦
              let below = z.0 in
              let ne : (a == page) ≡ false = ground arith in
              (rw ne (above_unplaced a (omega arith)), rw made_end z.1, z.2, omega arith)
          | inr z ↦
              let (unplaced, lt, aligned, ne) = v.inside a p z in
              (ground arith, omega (arith, made_end), aligned, ne)
        ])
    where
      at_page : after.place page ≡ some (large h)
      at_page = ground arith

      own : (l : Loc) → after.place page ≡ some l → Item made after page l
      own l e = record {
        aligned = v.ended;
        above = omega (arith, v.started, made-Touches.lo_eq);
        below = omega (arith, made_end);
        content =
            rw (← some_inj (sym at_page ∙ e), made_data)
              (refl, refl, λ i pos lt. cover_inner w.within page n i v.ended pos lt);
      }

  -- The blocks that are live are the old ones and the new one.
  made-live :
      (a : ℕ) → live made after a ≡ (if a == page + sizeof_pageref then true else live s w a)
  made-live a = elim (Bool-cases (page_of a == page)) [
    | inl q ↦
        let q' : page_of a ≡ page = ground arith in
        live_at made after page a (some (large h)) q' (ground arith)
        ∙ rw (live_at s w page a none q' (end_unplaced s w v)) (ground arith)
    | inr f ↦
        let ne : (a == page + sizeof_pageref) ≡ false = other_block a f in
        Keeps-live s made w after (only page) made-Keeps a f ∙ rw ne refl
  ]
    where
      other_block : (a : ℕ) → (page_of a == page) ≡ false → (a == page + sizeof_pageref) ≡ false
      other_block a f = elim (Bool-cases (a == page + sizeof_pageref)) [
        | inl z ↦
            let e : a ≡ page + sizeof_pageref = ground arith in
            let q : page_of a ≡ page = rw e (page_of_large page v.ended) in absurd (ground arith)
        | inr o ↦ o
      ]

  made-room : room made (page + sizeof_pageref) ≡ n * superblock_page_size - sizeof_pageref
  unfolding large_header
  made-room = rw (page_of_large page v.ended, made_data) refl

  -- The old blocks have the room that they had.
  made_rooms : KeepsRoom (live s w) s made
  made_rooms a m = elim (Bool-cases (page_of a == page)) [
    | inl q ↦
        let q' : page_of a ≡ page = ground arith in
        absurd (let z = sym (live_at s w page a none q' (end_unplaced s w v)) ∙ m in cc)
    | inr f ↦ Touches-room (only page) s made made-Touches a f
  ]

  pub large_end-Allots :
      (size : ℕ)
      → size + sizeof_pageref ≤ n * superblock_page_size
      → Returns (Allots s w size) (large_end n h (page, old_state))
  unfolding large_end made with_header
  large_end-Allots size fits = elim (Bool-cases (page == null)) [
    | inl z ↦ rw z (
      w,
      grown-IsHeap s w v (more s w v n) (more-Touches s w v n),
      inl (refl, grown-live s w v (more s w v n)),
      λ a m. Touches-room nothing s _ (more-Touches s w v n) a refl,
    )
    | inr f ↦
        let nn : page ≢ null = ground arith in
        let q = page_of_large page v.ended in
        rw f (
          after,
          made-IsHeap nn,
          inr (
            omega arith,
            live_at s w page (page + sizeof_pageref) none q (end_unplaced s w v),
            rw made-room (omega arith),
            made-live,
          ),
          made_rooms,
        )
  ]

large_end-null : (n h : ℕ) (s : State) → large_end n h (null, s) ≡ ok (null, s)
unfolding large_end
large_end-null n h s = refl

-- In a heap in order `large_malloc` of less than 2 ^ 30 bytes returns and leaves the heap in order;
-- its result is NULL, or a block that was not live, with room for the request, and is live now.
pub large_malloc-Allots :
    (s : State) (w : View)
    → IsHeap s w
    → (size h : ℕ) → size < 2 ^ 30
    → Returns (Allots s w size) (large_malloc size h s)
large_malloc-Allots s w v size h lt =
    let n = large_pages_needed size in
    let (room, tight) = large_pages_needed_fit size (omega arith) in
    let pos : 0 < n = omega arith in
    rw (large_malloc-eq size h s, sbrk_pages_small n s (omega arith))
      (elim (sbrk_cases s w v n pos) [
        | inl e ↦ rw (e, large_end-null n h s) (w, v, inl (refl, λ a. refl), λ a m. refl)
        | inr e ↦ rw e (large_end-Allots s w v n h pos size (omega arith))
      ])
