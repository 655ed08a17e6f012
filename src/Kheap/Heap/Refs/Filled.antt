-- ===== src/Kheap/Heap/Refs/Filled.antt =====
-- The heap after `fill_refs`.
use parallel_memory_allocato.Base.{
  ℕ, ◌+◌, ◌≡◌, ◌≢◌, refl, sym, ap, ◌∙◌, true, false, Bool-cases, inl, inr, Option, none, some, [],
  has, IsDistinct, arith, ◌==◌, if◌then◌else◌,
}
use parallel_memory_allocato.Memlib.{null}
use parallel_memory_allocato.A2alloc.Blocks.{Chain, Chain-frame}
use parallel_memory_allocato.Kheap.Sizes.{sizeof_pageref, frame}
use parallel_memory_allocato.Kheap.State.{State}
use parallel_memory_allocato.Kheap.PageRefs.{bzero_refs, fill_refs}
use parallel_memory_allocato.Kheap.PageRefs.Remove.{next}
use parallel_memory_allocato.Kheap.Heap.{
  Loc, fresh, recycled, sized, loc_eq, head, IsListed, Use, idle, refs, small, part, ref_data,
  page_in, View, IsSubpages, IsPage, IsHeap, live_on, room_on,
}
use parallel_memory_allocato.Kheap.Heap.Layout.{frame_within}
use parallel_memory_allocato.Kheap.Heap.Listed.{set_list, eq_of_loc_eq}
use parallel_memory_allocato.Kheap.Heap.Keep.{
  Changes, Changes-to, Changes-from, Content-frame, IsChunks-frame, SameBlock, page_in_aligned,
}
use parallel_memory_allocato.Kheap.Heap.Refs.Links.{
  refs_up, has-refs_up, refs_up-IsDistinct, link_refs-Chain,
}
use parallel_memory_allocato.Kheap.Heap.Refs.Fill.{
  base, fill_refs-link_refs, fill_refs-refs, run, run-frame, fill_refs-inside, fill_refs-outside,
}

module _ (s : State) (w : View) (v : IsHeap s w) (ref : ℕ) (page : IsPage s ref)
    (unused : w.use_of ref ≡ idle) (empty : w.lists fresh ≡ []) where
  after : State
  after = fill_refs ref s

  abbrev pub view : View
  view = record w {
    lists = set_list w.lists fresh (run ref);
    place = λ a. if has a (run ref) then some fresh else w.place a;
    use_of = λ q. if q == ref then refs else w.use_of q;
  }

  -- A page of references is not the new one.
  apart : (a : ℕ) → w.use_of (frame a) ≡ refs → frame a ≢ ref
  apart a e z = absurd (let y : w.use_of ref ≡ refs = rw (← z) e in let x = sym unused ∙ y in cc)

  apart_run : (a : ℕ) → w.use_of (frame a) ≡ refs → has a (run ref) ≡ false
  apart_run a e = elim (Bool-cases (has a (run ref))) [
    | inl m ↦ absurd (apart a e (run-frame ref a page.0 m))
    | inr o ↦ o
  ]

  uses : Changes idle refs w.use_of view.use_of
  uses q = elim (Bool-cases (q == ref)) [
    | inl y ↦ let e : q ≡ ref = ground arith in inr (rw e unused, rw y refl)
    | inr n ↦ inl (rw n refl)
  ]

  after-head : (l : Loc) → loc_eq fresh l ≡ false → head after l ≡ head s l
  unfolding after base bzero_refs
  after-head fresh e = absurd (cc)
  after-head recycled e = ap (λ (z : State). z.recycled_refs) (fill_refs-refs s ref)
  after-head (sized t) e = ap (λ (z : State). z.sizebases t) (fill_refs-refs s ref)

  after-fresh : head after fresh ≡ ref + sizeof_pageref
  unfolding after base
  after-fresh = ap (λ (z : State). z.fresh_refs) (fill_refs-refs s ref)

  listed_home : (l : Loc) (a : ℕ) → has a (w.lists l) ≡ true → w.use_of (frame a) ≡ refs
  listed_home l a m = v.subpages.home a l (v.subpages.linked.placed l a m)

  fresh-Chain : Chain (next after) (ref + sizeof_pageref) (run ref)
  unfolding after run
  fresh-Chain =
      rw (fill_refs-link_refs s ref)
        (link_refs-Chain 126 (ref + sizeof_pageref) (base s ref) (omega arith))

  run-IsDistinct : IsDistinct (run ref)
  unfolding run
  run-IsDistinct = refs_up-IsDistinct 126 (ref + sizeof_pageref)

  after-IsListed : IsListed (next after) (head after) view.lists view.place
  unfolding after
  after-IsListed = record {
    chain = λ l. elim (Bool-cases (loc_eq fresh l)) [
      | inl y ↦ rw (y, ← eq_of_loc_eq fresh l y, after-fresh) fresh-Chain
      | inr n ↦
          rw (n, after-head l n)
            (Chain-frame (next s) (next after) (head s l) (w.lists l) (v.subpages.linked.chain l)
              (λ a m. (fill_refs-outside s ref a page.0 (apart a (listed_home l a m))).1))
    ];
    distinct = λ l. elim (Bool-cases (loc_eq fresh l)) [
      | inl y ↦ rw y run-IsDistinct
      | inr n ↦ rw n (v.subpages.linked.distinct l)
    ];
    placed = λ l a m. elim (Bool-cases (loc_eq fresh l)) [
      | inl y ↦ let m' = rw y at m in rw (m', eq_of_loc_eq fresh l y) refl
      | inr n ↦
          let m' = rw n at m in
          rw (apart_run a (listed_home l a m')) (v.subpages.linked.placed l a m')
    ];
    listed = λ l a e. elim (Bool-cases (has a (run ref))) [
      | inl y ↦ let q : fresh ≡ l = (let z = rw y at e in cc) in rw (← q) y
      | inr n ↦ old_listed l a (rw n at e)
    ];
  }
    where
      old_listed : (l : Loc) (a : ℕ) → w.place a ≡ some l → has a (view.lists l) ≡ true
      old_listed fresh a e = absurd (let m = rw empty at (v.subpages.linked.listed fresh a e) in cc)
      old_listed recycled a e = v.subpages.linked.listed recycled a e
      old_listed (sized t) a e = v.subpages.linked.listed (sized t) a e

  after-cells : after.cells ≡ s.cells
  unfolding after base bzero_refs
  after-cells = ap (λ (z : State). z.cells) (fill_refs-refs s ref)

  after-IsSubpages : IsSubpages after view
  unfolding after
  after-IsSubpages = record {
    linked = after-IsListed;
    home = λ a l e. elim (Bool-cases (has a (run ref))) [
      | inl y ↦ rw (run-frame ref a page.0 y) (self ref)
      | inr n ↦ Changes-to uses (frame a) refs (λ z. absurd (cc)) (v.subpages.home a l (rw n at e))
    ];
    item = λ a l e. elim (Bool-cases (has a (run ref))) [
      | inl y ↦
          let q : fresh ≡ l = (let z = rw y at e in cc) in
          rw (← q) (inl (fill_refs-inside s ref a (run-frame ref a page.0 y)))
      | inr n ↦
          let e' = rw n at e in
          rw ((fill_refs-outside s ref a page.0 (apart a (v.subpages.home a l e'))).0, after-cells)
            (Content-frame s.cells s.cells _ w.use_of view.use_of _ a l (page_in_aligned _)
              (Changes-to uses _ (small a) (λ z. absurd (cc))) (λ b z. refl)
              (v.subpages.item a l e'))
    ];
    owner = λ p a e.
        let (at, kept) =
          v.subpages.owner p a (Changes-from uses p (small a) (λ z. absurd (cc)) e) in
        (
          (ap page_in (fill_refs-outside s ref a page.0 (apart a kept)).0 ∙ at),
          Changes-to uses (frame a) refs (λ z. absurd (cc)) kept,
        );
  }
    where
      self : (x : ℕ) → (if x == x then refs else w.use_of x) ≡ refs
      self x = ground arith

  after-chunks : (after.chunks ≡ s.chunks) × (after.bigchunks ≡ s.bigchunks) × (after.dseg ≡ s.dseg)
  unfolding after base bzero_refs
  after-chunks = (
    ap (λ (z : State). z.chunks) (fill_refs-refs s ref),
    ap (λ (z : State). z.bigchunks) (fill_refs-refs s ref),
    ap (λ (z : State). z.dseg) (fill_refs-refs s ref),
  )

  pub fill_refs-IsHeap : IsHeap (fill_refs ref s) view
  unfolding after
  fill_refs-IsHeap =
      let (c, b, d) = after-chunks in
      record {
        subpages = after-IsSubpages;
        chunks =
            IsChunks-frame s after w view idle refs uses (λ h z. absurd (cc)) (λ h z. absurd (cc)) c
              b refl v.chunks;
        used = λ q. elim (Bool-cases (q == ref)) [
          | inl y ↦ let e : q ≡ ref = ground arith in inr (rw (d, e) page)
          | inr n ↦ rw (n, d) (v.used q)
        ];
        ended = rw d v.ended;
      }

  pub fill_refs-SameBlock : (a : ℕ) → SameBlock s w (fill_refs ref s) view a
  unfolding after
  fill_refs-SameBlock a = elim (Bool-cases (frame a == ref)) [
    | inl y ↦
        let e : frame a ≡ ref = ground arith in
        let u : w.use_of (frame a) ≡ idle = rw e unused in (rw (y, u) refl, rw (y, u) refl)
    | inr n ↦ rw n (go (w.use_of (frame a)) refl, go_room (w.use_of (frame a)) refl)
  ]
    where
      same : (b : ℕ) → w.use_of (frame a) ≡ small b → ref_data (after.refs b) ≡ ref_data (s.refs b)
      same b e = (fill_refs-outside s ref b page.0 (apart b (v.subpages.owner (frame a) b e).1)).0

      go :
          (u : Use)
          → w.use_of (frame a) ≡ u
          → live_on after view (frame a) a u ≡ live_on s w (frame a) a u
      go idle e = refl
      go refs e = refl
      go (part h) e = refl
      go (small b) e = rw (same b e, apart_run b (v.subpages.owner (frame a) b e).1) refl

      go_room :
          (u : Use) → w.use_of (frame a) ≡ u → room_on after (frame a) u ≡ room_on s (frame a) u
      go_room idle e = refl
      go_room refs e = refl
      go_room (part h) e = rw after-chunks.0 refl
      go_room (small b) e = rw (same b e) refl

  -- The first reference of the page is on no list and has no page.
  pub fill_refs-first :
      (view.place ref ≡ none)
      × (view.use_of (frame ref) ≡ refs)
      × (page_in (ref_data ((fill_refs ref s).refs ref)) ≡ null)
  unfolding run
  fill_refs-first =
      let e : frame ref ≡ ref = frame_within ref ref page.0 (omega arith) (omega arith) in
      let (out, self) = first_tests ref in
      (rw out (unplaced e (w.place ref) refl), rw (e, self) refl, fill_refs-inside s ref ref e)
    where
      first_tests : (x : ℕ) → (has x (refs_up 126 (x + sizeof_pageref)) ≡ false) × ((x == x) ≡ true)
      first_tests x = (
        elim (Bool-cases (has x (refs_up 126 (x + sizeof_pageref)))) [
          | inl m ↦ absurd (let (le, lt) = has-refs_up 126 (x + sizeof_pageref) x m in omega arith)
          | inr o ↦ o
        ],
        ground arith,
      )

      unplaced : frame ref ≡ ref → (o : Option Loc) → w.place ref ≡ o → o ≡ none
      unplaced e none z = refl
      unplaced e (some l) z = absurd (apart ref (v.subpages.home ref l z) e)
