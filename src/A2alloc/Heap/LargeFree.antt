-- ===== src/A2alloc/Heap/LargeFree.antt =====
-- `large_free` of a live large block.
use parallel_memory_allocato.Base.{
  ℕ, suc, ◌+◌, ◌-◌, ◌*◌, ◌%◌, ◌≤◌, ◌<◌, ◌≡◌, ◌≢◌, refl, sym, ap, ◌∙◌, Bool, true, false, ◌||◌,
  Bool-cases, inl, inr, ◌⊎◌, Option, none, some, ◌++◌, ◌==◌, has, if◌then◌else◌, arith, Returns,
  Returns-map,
}
use parallel_memory_allocato.Memlib.{null}
use parallel_memory_allocato.A2alloc.Sizes.{
  superblock_page_size, sizeof_pageref, blocktype_free, page_of,
}
use parallel_memory_allocato.A2alloc.State.{State, Loc, free, large, put_page, unlink}
use parallel_memory_allocato.A2alloc.Relocate.{move_page_global}
use parallel_memory_allocato.A2alloc.Free.{large_free}
use parallel_memory_allocato.A2alloc.Links.{links, IsLinked, set_list, set_place}
use parallel_memory_allocato.A2alloc.Links.Segment.{Segment-ne_null, loc_eq_refl}
use parallel_memory_allocato.A2alloc.Links.Unlink.{remove}
use parallel_memory_allocato.A2alloc.Links.Ops.{unlink-IsLinked}
use parallel_memory_allocato.A2alloc.Links.Moves.{put_page-IsLinked, taken_place}
use parallel_memory_allocato.A2alloc.Links.Push.{some_inj}
use parallel_memory_allocato.A2alloc.Links.Splice.{spliced, Splices-IsLinked}
use parallel_memory_allocato.A2alloc.Heap.{PageData, View, Item, IsHeap, live}
use parallel_memory_allocato.A2alloc.Heap.Frame.{
  Touches, only, KeepsRoom, Touches-room, Touches-trans, Touches-any, Touches-weaken,
  put_page-Touches, unlink-Touches,
}
use parallel_memory_allocato.A2alloc.Heap.Keep.{
  Keeps, Keeps-live, Keeps-IsHeap, rest, rest-Keeps, rest-IsHeap,
}
use parallel_memory_allocato.A2alloc.Heap.Relocate.{BecomesFree, move_page_global-BecomesFree}
use parallel_memory_allocato.A2alloc.Heap.Give.{Frees, live_at}
use parallel_memory_allocato.A2alloc.Heap.FindPage.{outside_of_placed}
use parallel_memory_allocato.A2alloc.Heap.Chop.{pages_up, pieces, pages_up_index}
use parallel_memory_allocato.A2alloc.Heap.LargeMalloc.{page_of_large}
use parallel_memory_allocato.A2alloc.Heap.CutUp.{cut_up, cut_up-Splices, cut_up-Touches}

-- Whether an address lies inside of the block at `page`.
abbrev is_inside : ℕ → Option ℕ → Bool
is_inside page none = false
is_inside page (some p) = p == page

module _ (s : State) (w : View) (v : IsHeap s w) (h page : ℕ)
    (placed : w.place page ≡ some (large h)) where
  -- The state with the block off its list, and cut up.
  off : State
  off =
      let s1 = unlink s (large h) page in
      put_page s1 page (record (s1.pages page) { block_type = blocktype_free })

  rounds : ℕ
  rounds = (off.pages page).count - 1

  freed : State
  unfolding off rounds
  freed = cut_up off h page rounds

  off_count : (off.pages page).count ≡ (s.pages page).count
  unfolding off put_page
  off_count =
      let e = (unlink-Touches s (large h) page).data_eq page refl in
      let c = ap (λ (r : PageData). r.count) e in ground arith

  large_free-eq : large_free s h page ≡ move_page_global freed h
  unfolding large_free freed cut_up
  large_free-eq = refl

  abbrev marked : ℕ → Bool
  marked a = (a == page) || is_inside page (w.within a)

  -- The pieces are the block's first page and pages inside of it.
  piece_cases : (a : ℕ) → has a (pieces page rounds) ≡ true → (a ≡ page) ⊎ (w.within a ≡ some page)
  unfolding rounds
  piece_cases a m = elim (Bool-cases (a == page)) [
    | inl t ↦ inl (ground arith)
    | inr f ↦
        let (i, lt, e) =
          pages_up_index (page + superblock_page_size) (rounds - 1) a (ground arith) in
        let (heap, class, inner) = (v.item page (large h) placed).content in
        let q : a ≡ page + suc i * superblock_page_size = omega arith in
        inr (rw q (inner (suc i) (omega arith) (omega (arith, off_count))))
  ]

  piece_above : (a : ℕ) → has a (pieces page rounds) ≡ true → page ≤ a
  piece_above a m = elim (Bool-cases (a == page)) [
    | inl t ↦ ground arith
    | inr f ↦
        let (i, lt, e) =
          pages_up_index (page + superblock_page_size) (rounds - 1) a (ground arith) in
        omega arith
  ]

  piece_marked : (a : ℕ) → marked a ≡ false → has a (pieces page rounds) ≡ false
  piece_marked a o = elim (Bool-cases (has a (pieces page rounds))) [
    | inl m ↦ elim (piece_cases a m) [
      | inl e ↦ absurd (ground arith)
      | inr e ↦ let t = inside_self (w.within a) e in absurd (ground arith)
    ]
    | inr f ↦ f
  ]
    where
      inside_self : (o : Option ℕ) → o ≡ some page → is_inside page o ≡ true
      inside_self none e = cc
      inside_self (some p) e = ground arith

  piece_unplaced :
      (a : ℕ) → has a (pieces page rounds) ≡ true → set_place w.place page none a ≡ none
  piece_unplaced a m = elim (piece_cases a m) [
    | inl e ↦ rw e (taken_place w.place page)
    | inr e ↦ let z = (v.inside a page e).0 in ground arith
  ]

  ne_null : page ≢ null
  ne_null =
      Segment-ne_null _ _ _ _ _ page (w.lists (large h)) (v.linked.segment (large h))
        (v.linked.listed (large h) page placed)

  off-IsLinked :
      IsLinked
        (links off)
        (set_list w.lists (large h) (remove page (w.lists (large h))))
        (set_place w.place page none)
  unfolding off
  off-IsLinked =
      put_page-IsLinked (unlink s (large h) page)
        (unlink-IsLinked s v.linked (large h) page refl (v.linked.listed (large h) page placed))
        page _ (taken_place w.place page)

  abbrev middle : View
  middle = record {
    lists =
        set_list (set_list w.lists (large h) (remove page (w.lists (large h)))) (free h)
          (pieces page rounds ++ w.lists (free h));
    place = spliced (set_place w.place page none) h (pieces page rounds);
    within = λ a. if is_inside page (w.within a) then none else w.within a;
    free_blocks = w.free_blocks;
  }

  freed-IsLinked : IsLinked (links freed) middle.lists middle.place
  unfolding freed
  freed-IsLinked =
      Splices-IsLinked off-IsLinked (links (cut_up off h page rounds)) h page (pieces page rounds)
        (cut_up-Splices off h page rounds ne_null) piece_unplaced

  freed-Touches : Touches marked s freed
  unfolding freed off
  freed-Touches =
      let s1 = unlink s (large h) page in
      Touches-trans marked s off freed
        (Touches-weaken (only page) marked s off (λ a o. ground arith)
          (Touches-trans (only page) s s1 off
            (Touches-any (only page) s s1 (unlink-Touches s (large h) page))
            (put_page-Touches s1 page _)))
        (Touches-weaken (λ a. has a (pieces page rounds)) marked off freed piece_marked
          (cut_up-Touches off h page rounds))

  freed-Keeps : Keeps s freed w middle marked
  freed-Keeps = record {
    touches = freed-Touches;
    place_eq = λ a o. let f = piece_marked a o in rw f (ground arith);
    blocks_eq = λ a o. refl;
    within_eq =
        λ a p o e. let f : is_inside page (w.within a) ≡ false = rw e (ground arith) in rw f e;
  }

  outside : w.within page ≡ none
  outside = outside_of_placed v placed

  -- A page of the block begins at a page and lies in the segment.
  marked_cases : (a : ℕ) → marked a ≡ true → (a ≡ page) ⊎ (w.within a ≡ some page)
  marked_cases a t = elim (Bool-cases (a == page)) [
    | inl q ↦ inl (ground arith)
    | inr f ↦ inr (inside_eq (w.within a) (ground arith))
  ]
    where
      inside_eq : (o : Option ℕ) → is_inside page o ≡ true → o ≡ some page
      inside_eq none e = cc
      inside_eq (some p) e = ground arith

  marked_bounds : (a : ℕ) → marked a ≡ true → (a % superblock_page_size ≡ 0) × (a < s.dseg.dseg_end)
  marked_bounds a t = elim (marked_cases a t) [
    | inl e ↦ let i = v.item page (large h) placed in rw e (i.aligned, i.below)
    | inr e ↦ let (unplaced, lt, aligned, nn) = v.inside a page e in (aligned, lt)
  ]

  -- A page of the block that is no piece is on no list.
  marked_unplaced : (a : ℕ) → marked a ≡ true → set_place w.place page none a ≡ none
  marked_unplaced a t = elim (marked_cases a t) [
    | inl e ↦ rw e (taken_place w.place page)
    | inr e ↦ let z = (v.inside a page e).0 in ground arith
  ]

  own : (a : ℕ) (l : Loc) → marked a ≡ true → middle.place a ≡ some l → Item freed middle a l
  own a l t e = elim (Bool-cases (has a (pieces page rounds))) [
    | inl m ↦ record {
      aligned = (marked_bounds a t).0;
      above =
          omega (arith, (v.item page (large h) placed).above, piece_above a m, freed-Touches.lo_eq);
      below = omega (arith, marked_bounds a t, freed-Touches.grows);
      content = rw (← some_inj (rw m at e)) tt;
    }
    | inr f ↦ let z = marked_unplaced a t in let y = rw f at e in absurd (cc)
  ]

  kept_inside :
      (o : Option ℕ) (p : ℕ)
      → (if is_inside page o then none else o) ≡ some p
      → (o ≡ some p) × (p ≢ page)
  kept_inside none p e = cc
  kept_inside (some q) p e = ground arith

  kept_place : (a p : ℕ) → w.within a ≡ some p → p ≢ page → middle.place a ≡ none
  kept_place a p e ne = elim (Bool-cases (has a (pieces page rounds))) [
    | inl m ↦ elim (piece_cases a m) [
      | inl q ↦ let z : w.within page ≡ some p = rw (← q) e in let y = outside in absurd (cc)
      | inr q ↦ absurd (ne (some_number (sym e ∙ q)))
    ]
    | inr f ↦ let z = (v.inside a p e).0 in rw f (ground arith)
  ]
    where
      some_number : {x y : ℕ} → some x ≡ some y → x ≡ y
      some_number q = cc

  freed-IsHeap : IsHeap freed middle
  freed-IsHeap = Keeps-IsHeap s freed w middle marked freed-Keeps v freed-IsLinked own (λ a p e.
      let (e', ne) = kept_inside (w.within a) p e in
      let (unplaced, lt, aligned, nn) = v.inside a p e' in
      (kept_place a p e' ne, omega (arith, freed-Touches.grows), aligned, nn))

  freed_dead : (a : ℕ) → marked (page_of a) ≡ true → live freed middle a ≡ false
  freed_dead a t = elim (Bool-cases (has (page_of a) (pieces page rounds))) [
    | inl m ↦ live_at freed middle (page_of a) a (some (free h)) refl (rw m refl)
    | inr f ↦ live_at freed middle (page_of a) a none refl (rw f (marked_unplaced (page_of a) t))
  ]

  block_page : page_of (page + sizeof_pageref) ≡ page
  block_page = page_of_large page (v.item page (large h) placed).aligned

  others_dead :
      (a : ℕ)
      → marked (page_of a) ≡ true
      → (if a == page + sizeof_pageref then false else live s w a) ≡ false
  others_dead a t = elim (marked_cases (page_of a) t) [
    | inl q ↦ rw (live_at s w page a (some (large h)) q placed) (ground arith)
    | inr q ↦
        rw (live_at s w (page_of a) a none refl (v.inside (page_of a) page q).0) (ground arith)
  ]

  freed-live :
      (a : ℕ) → live freed middle a ≡ (if a == page + sizeof_pageref then false else live s w a)
  freed-live a = elim (Bool-cases (marked (page_of a))) [
    | inl t ↦ freed_dead a t ∙ sym (others_dead a t)
    | inr f ↦
        let ne : (a == page + sizeof_pageref) ≡ false = other_block a f in
        Keeps-live s freed w middle marked freed-Keeps a f ∙ rw ne refl
  ]
    where
      other_block : (a : ℕ) → marked (page_of a) ≡ false → (a == page + sizeof_pageref) ≡ false
      other_block a f = elim (Bool-cases (a == page + sizeof_pageref)) [
        | inl z ↦
            let e : a ≡ page + sizeof_pageref = ground arith in
            let q : page_of a ≡ page = rw e block_page in absurd (ground arith)
        | inr o ↦ o
      ]

  freed-room : KeepsRoom (live freed middle) s freed
  freed-room a m = elim (Bool-cases (marked (page_of a))) [
    | inl t ↦ absurd (let z = sym (freed_dead a t) ∙ m in cc)
    | inr f ↦ Touches-room marked s freed freed-Touches a f
  ]

  pub large_free-Frees : Returns (Frees s w (page + sizeof_pageref)) (large_free s h page)
  large_free-Frees = rw large_free-eq (
      Returns-map (BecomesFree freed middle.place page) _ (move_page_global freed h)
        (move_page_global-BecomesFree freed freed-IsLinked h page
          (pages_up (page + superblock_page_size) (rounds - 1) ++ w.lists (free h))
          (rw (loc_eq_refl (free h)) refl))
        settled)
    where
      first_free : middle.place page ≡ some (free h)
      first_free = ground arith

      settled :
          (s' : State)
          → BecomesFree freed middle.place page s'
          → Frees s w (page + sizeof_pageref) s'
      settled s' b =
          let w' = rest middle b.lists' b.place' page (w.free_blocks page) in
          let i = v.item page (large h) placed in
          (
            w',
            rest-IsHeap freed s' middle b.lists' b.place' page (w.free_blocks page) freed-IsHeap
                b.touches b.there b.linked (rw outside refl)
                (λ l e. record {
                  aligned = i.aligned;
                  above = omega (arith, i.above, freed-Touches.lo_eq, b.touches.lo_eq);
                  below = omega (arith, i.below, freed-Touches.grows, b.touches.grows);
                  content = rw (← some_inj (sym b.here ∙ e)) tt;
                }),
            λ a. elim (Bool-cases (page_of a == page)) [
              | inl q ↦
                  let q' : page_of a ≡ page = ground arith in
                  live_at s' w' page a _ q' b.here
                  ∙ sym (live_at freed middle page a _ q' first_free)
                  ∙ freed-live a
              | inr f ↦
                  Keeps-live freed s' middle w' (only page)
                    (rest-Keeps freed s' middle b.lists' b.place' page _ b.touches b.there) a f
                  ∙ freed-live a
            ],
            λ a m. elim (Bool-cases (page_of a == page)) [
              | inl q ↦
                  let q' : page_of a ≡ page = ground arith in
                  absurd (let z = sym (live_at s' w' page a _ q' b.here) ∙ m in cc)
              | inr f ↦
                  let k = rest-Keeps freed s' middle b.lists' b.place' page _ b.touches b.there in
                  Touches-room (only page) freed s' b.touches a f
                  ∙ freed-room a (sym (Keeps-live freed s' middle w' (only page) k a f) ∙ m)
            ],
          )
