-- ===== src/A2alloc/Heap/Take.antt =====
-- A block handed out: the blocks that are live are then the old ones and this one.
use parallel_memory_allocato.Base.{
  ℕ, ◌%◌, ◌≤◌, ◌<◌, ◌≡◌, ◌≢◌, refl, sym, ◌∙◌, true, false, not, ◌&&◌, Bool-cases, inl, inr, ◌⊎◌,
  Option, none, some, List, ◌∷◌, ◌==◌, if◌then◌else◌, has, arith,
}
use parallel_memory_allocato.Memlib.{null}
use parallel_memory_allocato.Client
use parallel_memory_allocato.A2alloc.Sizes.{
  superblock_page_size, blocktype_large, n_sizes, page_of, size_of,
}
use parallel_memory_allocato.A2alloc.State.{State, Loc, complete, sized}
use parallel_memory_allocato.A2alloc.Links.{links, IsLinked}
use parallel_memory_allocato.A2alloc.Links.Push.{some_inj}
use parallel_memory_allocato.A2alloc.Blocks.Carve.{fresh_blocks}
use parallel_memory_allocato.A2alloc.Heap.{
  PageData, page_data, View, IsClass, Item, IsHeap, room, live, live_on,
}
use parallel_memory_allocato.A2alloc.Heap.Count.{page_of_fresh}
use parallel_memory_allocato.A2alloc.Heap.Frame.{Touches, only, Touches-room, room_small}
use parallel_memory_allocato.A2alloc.Heap.Give.{live_at}
use parallel_memory_allocato.A2alloc.Heap.Keep.{
  Keeps-live, rest, rest-Keeps, rest-IsHeap, set_blocks_self,
}

-- The heap is in order. Either the result is NULL and the same blocks are live, or it was not live
-- and is now, beside the old ones, with room for `size` bytes. The old ones have the
-- room that they had.
abbrev pub Allots : State → View → ℕ → ℕ × State → Type 0
Allots = Client.Allots IsHeap live (λ s w a. room s a)

-- An aligned page of the segment, inside of no large block.
pub record IsReady (s : State) (w : View) (page : ℕ) : Type 0 where
  pub outside : w.within page ≡ none
  pub aligned : page % superblock_page_size ≡ 0
  pub above : s.dseg.dseg_lo ≤ page
  pub below : page < s.dseg.dseg_end

-- The lists that a page of a class may be on.
abbrev pub Home : PageData → ℕ → ℕ → Loc → Type 0
Home r h t l = (l ≡ complete h) × (r.count ≡ 0) ⊎ (l ≡ sized h t) × (r.count ≢ 0)

live-Home :
    (r : PageData) (bs : List ℕ) (h t page a : ℕ) (l : Loc)
    → Home r h t l
    → live_on r bs (some l) page a ≡ (has a (fresh_blocks page r.block_type) && not (has a bs))
live-Home r bs h t page a l (inl z) = rw z.0 refl
live-Home r bs h t page a l (inr z) = rw z.0 refl

-- The first block `b` of the free blocks `b ∷ bs` of a page of the class `t` is handed out.
pub record Takes (s : State) (w : View) (page b t h : ℕ) (bs : List ℕ) : Type 0 where
  pub valid : IsHeap s w
  pub ready : IsReady s w page
  pub class : t < n_sizes
  pub old :
      (a : ℕ)
      → page_of a ≡ page
      → live s w a ≡ (has a (fresh_blocks page t) && not (has a (b ∷ bs)))
  pub old_room : (a : ℕ) → page_of a ≡ page → live s w a ≡ true → room s a ≡ size_of t
  pub block : has b (fresh_blocks page t) ≡ true
  pub ne_null : b ≢ null
  pub once : has b bs ≡ false

module _ {s : State} {w : View} {page b t h : ℕ} {bs : List ℕ} (g : Takes s w page b t h bs) where
  block_page : page_of b ≡ page
  block_page = page_of_fresh page t b g.ready.aligned g.class g.block

  module _ (s' : State) (lists : Loc → List ℕ) (place : ℕ → Option Loc)
      (touches : Touches (only page) s s') (linked : IsLinked (links s') lists place)
      (there : (a : ℕ) → a ≢ page → place a ≡ w.place a)
      (c : IsClass s'.cells (page_data (s'.pages page)) bs page h)
      (same : (s'.pages page).block_type ≡ t) (l : Loc) (here : place page ≡ some l)
      (home : Home (page_data (s'.pages page)) h t l) where
    abbrev after : View
    after = rest w lists place page bs

    after-Item : Item s' after page l
    after-Item = record {
      aligned = g.ready.aligned;
      above = omega (arith, g.ready.above, touches.lo_eq);
      below = omega (arith, g.ready.below, touches.grows);
      content =
          rw (set_blocks_self w.free_blocks page bs)
            (elim home [ inl z ↦ rw z.0 (c, z.1) | inr z ↦ rw z.0 (c, same, z.1) ]);
    }

    after-live_on :
        (a : ℕ)
        → page_of a ≡ page
        → live s' after a ≡ (has a (fresh_blocks page t) && not (has a bs))
    after-live_on a q =
        live_at s' after page a (some l) q here
        ∙ live-Home (page_data (s'.pages page)) _ h t page a l home
        ∙ rw (set_blocks_self w.free_blocks page bs, same) refl

    pub Takes-live : (a : ℕ) → live s' after a ≡ (if a == b then true else live s w a)
    Takes-live a = elim (Bool-cases (page_of a == page)) [
      | inl q ↦
          let q' : page_of a ≡ page = ground arith in
          let m = g.block in let o = g.once in after-live_on a q' ∙ rw (g.old a q') (take_out a)
      | inr f ↦
          let ne : (a == b) ≡ false = other_block a f in
          Keeps-live s s' w after (only page) (rest-Keeps s s' w lists place page bs touches there)
            a f
          ∙ rw ne refl
    ]
      where
        other_block : (a : ℕ) → (page_of a == page) ≡ false → (a == b) ≡ false
        other_block a f = elim (Bool-cases (a == b)) [
          | inl z ↦
              let q : page_of a ≡ page = (let e : a ≡ b = ground arith in rw e block_page) in
              absurd (ground arith)
          | inr n ↦ n
        ]

        take_out :
            (a : ℕ)
            → (has a (fresh_blocks page t) && not (has a bs))
              ≡ (if a == b then true else has a (fresh_blocks page t) && not (has a (b ∷ bs)))
        take_out a = elim (Bool-cases (a == b)) [
          | inl z ↦ let e : a ≡ b = ground arith in rw (z, e, g.block, g.once) refl
          | inr f ↦ rw f refl
        ]

    -- The block was not live, and has room for any request of its class.
    pub Takes-Allots : (size : ℕ) → size ≤ size_of t → Allots s w size (b, s')
    Takes-Allots size fits = (
      after,
      rest-IsHeap s s' w lists place page bs g.valid touches there linked g.ready.outside
          (λ j e. rw (← some_inj (sym here ∙ e)) after-Item),
      inr (g.ne_null, before, rw (block_page, same, small) fits, Takes-live),
      λ a m. elim (Bool-cases (page_of a == page)) [
        | inl q ↦
            let q' : page_of a ≡ page = ground arith in
            room_small s' page t a g.class same q' ∙ sym (g.old_room a q' m)
        | inr f ↦ Touches-room (only page) s s' touches a f
      ],
    )
      where
        small : (t == blocktype_large) ≡ false
        small = let lt = g.class in ground arith

        before : live s w b ≡ false
        before = rw (g.old b block_page, g.block) (ground arith)
