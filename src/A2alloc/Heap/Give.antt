-- ===== src/A2alloc/Heap/Give.antt =====
-- A block given back to its page: the blocks that are live are then all but this one.
use parallel_memory_allocato.Base.{
  ℕ, ◌+◌, ◌%◌, ◌≤◌, ◌<◌, ◌≡◌, ◌≢◌, refl, sym, ◌∙◌, true, false, not, ◌&&◌, Bool-cases, inl, inr,
  Option, none, some, List, ◌∷◌, ◌==◌, IsDistinct, if◌then◌else◌, has, length, arith,
}
use parallel_memory_allocato.Client
use parallel_memory_allocato.A2alloc.Sizes.{
  superblock_page_size, page_of, capacity, size_of, sizeof_pageref,
}
use parallel_memory_allocato.A2alloc.State.{State, Loc, free, sized}
use parallel_memory_allocato.A2alloc.Links.{links, IsLinked}
use parallel_memory_allocato.A2alloc.Blocks.Carve.{fresh_blocks}
use parallel_memory_allocato.A2alloc.Heap.{
  page_data, View, IsClass, Item, IsHeap, live, live_on, room,
}
use parallel_memory_allocato.A2alloc.Heap.Count.{has_all}
use parallel_memory_allocato.A2alloc.Heap.Frame.{Touches, only, KeepsRoom, Touches-room, room_small}
use parallel_memory_allocato.A2alloc.Links.Push.{some_inj}
use parallel_memory_allocato.A2alloc.Heap.Keep.{
  set_blocks_self, Keeps, Keeps-live, rest, rest-Keeps, rest-IsHeap,
}

-- The heap is in order, and the live blocks are the old ones without `ptr`, with the room
-- that they had.
abbrev pub Frees : State → View → ℕ → State → Type 0
Frees = Client.Frees IsHeap live (λ s w a. room s a)

pub live_at :
    (s : State) (w : View) (page a : ℕ) (o : Option Loc)
    → page_of a ≡ page
    → w.place page ≡ o
    → live s w a ≡ live_on (page_data (s.pages page)) (w.free_blocks page) o page a
live_at s w page a o q e = rw (q, e) refl

-- A small block given back. `bs` are the free blocks of its page before.
pub record Gives (s : State) (w : View) (ptr t h : ℕ) (bs : List ℕ) : Type 0 where
  pub valid : IsHeap s w
  pub placed_before : (l : Loc) × (w.place (page_of ptr) ≡ some l) × Item s w (page_of ptr) l
  pub old :
      (a : ℕ)
      → page_of a ≡ page_of ptr
      → live s w a ≡ (has a (fresh_blocks (page_of ptr) t) && not (has a bs))
  pub class_before : (s.pages (page_of ptr)).block_type ≡ t
  pub block : has ptr (fresh_blocks (page_of ptr) t) ≡ true
  pub out : has ptr bs ≡ false

module _ {s : State} {w : View} {ptr t h : ℕ} {bs : List ℕ} (g : Gives s w ptr t h bs) where
  pub not_within : w.within (page_of ptr) ≡ none
  not_within = go (w.within (page_of ptr)) refl
    where
      go : (o : Option ℕ) → w.within (page_of ptr) ≡ o → o ≡ none
      go none e = refl
      go (some p) e =
          let (unplaced, lt, aligned, nn) = g.valid.inside (page_of ptr) p e in
          let (l, placed, item) = g.placed_before in cc

  -- The blocks of the other pages.
  others_live :
      (s' : State) (w' : View)
      → Keeps s s' w w' (only (page_of ptr))
      → ((a : ℕ)
          → page_of a ≡ page_of ptr
          → live s' w' a ≡ (if a == ptr then false else live s w a))
      → (a : ℕ) → live s' w' a ≡ (if a == ptr then false else live s w a)
  others_live s' w' k own a = elim (Bool-cases (page_of a == page_of ptr)) [
    | inl t ↦ own a (ground arith)
    | inr f ↦
        let ne : (a == ptr) ≡ false = other_block a f in
        Keeps-live s s' w w' (only (page_of ptr)) k a f ∙ rw ne refl
  ]
    where
      other_block : (a : ℕ) → (page_of a == page_of ptr) ≡ false → (a == ptr) ≡ false
      other_block a f = elim (Bool-cases (a == ptr)) [
        | inl t ↦ let q : a ≡ ptr = ground arith in absurd (let z = rw q at f in ground arith)
        | inr n ↦ n
      ]

  module _ (s' : State) (lists : Loc → List ℕ) (place : ℕ → Option Loc)
      (touches : Touches (only (page_of ptr)) s s') (linked : IsLinked (links s') lists place)
      (there : (a : ℕ) → a ≢ page_of ptr → place a ≡ w.place a) where
    abbrev after : View
    after = rest w lists place (page_of ptr) (ptr ∷ bs)

    below_after :
        (page_of ptr % superblock_page_size ≡ 0)
        × (s'.dseg.dseg_lo ≤ page_of ptr)
        × (page_of ptr < s'.dseg.dseg_end)
    below_after =
        let (l, placed, item) = g.placed_before in
        (
          item.aligned,
          omega (arith, item.above, touches.lo_eq),
          omega (arith, item.below, touches.grows),
        )

    others_room :
        ((a : ℕ) → page_of a ≡ page_of ptr → live s' after a ≡ true → room s' a ≡ room s a)
        → KeepsRoom (live s' after) s s'
    others_room own a m = elim (Bool-cases (page_of a == page_of ptr)) [
      | inl t ↦ own a (ground arith) m
      | inr f ↦ Touches-room (only (page_of ptr)) s s' touches a f
    ]

    -- The page stays with its size class.
    pub Gives-sized :
        place (page_of ptr) ≡ some (sized h t)
        → IsClass s'.cells (page_data (s'.pages (page_of ptr))) (ptr ∷ bs) (page_of ptr) h
        → (s'.pages (page_of ptr)).block_type ≡ t
        → Frees s w ptr s'
    Gives-sized here c same = (
      after,
      rest-IsHeap s s' w lists place (page_of ptr) (ptr ∷ bs) g.valid touches there linked
          not_within
          (λ l e. record {
            aligned = below_after.0;
            above = below_after.1;
            below = below_after.2;
            content =
                rw
                  (
                    ← some_inj (sym here ∙ e),
                    set_blocks_self w.free_blocks (page_of ptr) (ptr ∷ bs),
                  )
                  (c, same, filled);
          }),
      others_live s' after (rest-Keeps s s' w lists place (page_of ptr) (ptr ∷ bs) touches there)
          (λ a q.
            live_at s' after (page_of ptr) a _ q here
            ∙ rw (set_blocks_self w.free_blocks (page_of ptr) (ptr ∷ bs), same, g.old a q)
                (ground arith)),
      others_room (λ a q m.
          let lt = rw same at c.class in
          room_small s' _ t a lt same q ∙ sym (room_small s _ t a lt g.class_before q)),
    )
      where
        filled : (s'.pages (page_of ptr)).count ≢ 0
        filled = omega (arith, c.counted)

    -- All blocks of the page are free, and the page is.
    pub Gives-free :
        (h' : ℕ)
        → place (page_of ptr) ≡ some (free h')
        → ((a : ℕ) → has a (ptr ∷ bs) ≡ true → has a (fresh_blocks (page_of ptr) t) ≡ true)
        → IsDistinct (ptr ∷ bs)
        → capacity t ≤ length (ptr ∷ bs)
        → Frees s w ptr s'
    Gives-free h' here legit distinct all = (
      after,
      rest-IsHeap s s' w lists place (page_of ptr) (ptr ∷ bs) g.valid touches there linked
          not_within
          (λ l e. record {
            aligned = below_after.0;
            above = below_after.1;
            below = below_after.2;
            content = rw (← some_inj (sym here ∙ e)) tt;
          }),
      others_live s' after (rest-Keeps s s' w lists place (page_of ptr) (ptr ∷ bs) touches there)
          (λ a q.
            live_at s' after (page_of ptr) a _ q here
            ∙ rw (g.old a q) (ground (arith, all_free a))),
      others_room
          (λ a q m. absurd (let z = sym (live_at s' after (page_of ptr) a _ q here) ∙ m in cc)),
    )
      where
        all_free : (a : ℕ) → has a (fresh_blocks (page_of ptr) t) ≡ true → has a (ptr ∷ bs) ≡ true
        all_free =
            has_all (page_of ptr + sizeof_pageref) (size_of t) (capacity t) (ptr ∷ bs) legit
              distinct all
