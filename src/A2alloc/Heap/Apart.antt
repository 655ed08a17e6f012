-- ===== src/A2alloc/Heap/Apart.antt =====
-- The live blocks of a heap in order.
use parallel_memory_allocato.Base.{
  ℕ, ◌+◌, ◌-◌, ◌*◌, ◌/◌, ◌≤◌, ◌<◌, ◌≡◌, ◌≢◌, refl, sym, ◌∙◌, Bool, true, false, not, ◌&&◌,
  Bool-cases, inl, inr, ◌⊎◌, ◌==◌, Option, none, some, has, arith, ltb,
}
use parallel_memory_allocato.A2alloc.Sizes.{
  superblock_page_size, sizeof_pageref, n_sizes, blocktype_large, page_of, size_of, capacity,
}
use parallel_memory_allocato.A2alloc.Sizes.Layout.{block, block_inside, blocks_apart}
use parallel_memory_allocato.A2alloc.Blocks.Carve.{fresh_blocks}
use parallel_memory_allocato.A2alloc.State.{State, Loc, free, complete, large, sized}
use parallel_memory_allocato.A2alloc.Heap.{page_data, View, IsClass, IsHeap, live, room}
use parallel_memory_allocato.A2alloc.Heap.Count.{block_index}
use parallel_memory_allocato.A2alloc.Heap.Give.{live_at}

-- A block of a page of a size class, or the block of a large page.
abbrev pub IsSmall : State → ℕ → Type 0
IsSmall s a =
    let t = (s.pages (page_of a)).block_type in
    (i : ℕ) × (t < n_sizes) × (i < capacity t) × (a ≡ block (page_of a) t i)

abbrev pub IsLarge : State → View → ℕ → Type 0
IsLarge s w a =
    let page = page_of a in
    ((s.pages page).block_type ≡ blocktype_large)
    × (a ≡ page + sizeof_pageref)
    × ((i : ℕ)
        → 0 < i
        → i < (s.pages page).count
        → w.within (page + i * superblock_page_size) ≡ some page)

pub record IsLive (s : State) (w : View) (a : ℕ) : Type 0 where
  pub home : Loc
  pub placed : w.place (page_of a) ≡ some home
  pub shape : IsSmall s a ⊎ IsLarge s w a

both : (x y : Bool) → (x && y) ≡ true → x ≡ true
both true y e = refl
both false y e = e

IsSmall-shape :
    (s : State) (w : View) (a h : ℕ)
    → IsClass s.cells (page_data (s.pages (page_of a))) (w.free_blocks (page_of a)) (page_of a) h
    → (has a (fresh_blocks (page_of a) (s.pages (page_of a)).block_type)
        && not (has a (w.free_blocks (page_of a))))
      ≡ true
    → IsSmall s a
IsSmall-shape s w a h c e =
    let t = (s.pages (page_of a)).block_type in
    let (i, lt, at) =
      block_index (page_of a + sizeof_pageref) (size_of t) (capacity t) a (both _ _ e) in
    (i, c.class, lt, at)

pub live-IsLive : (s : State) (w : View) → IsHeap s w → (a : ℕ) → live s w a ≡ true → IsLive s w a
live-IsLive s w v a alive = go (w.place (page_of a)) refl
  where
    go : (o : Option Loc) → w.place (page_of a) ≡ o → IsLive s w a
    go none e = absurd (let z = sym (live_at s w (page_of a) a none refl e) ∙ alive in cc)
    go (some (free h)) e = absurd (let z = sym (live_at s w (page_of a) a _ refl e) ∙ alive in cc)
    go (some (complete h)) e = record {
      home = complete h;
      placed = e;
      shape =
          let (c, full) = (v.item (page_of a) (complete h) e).content in
          inl (IsSmall-shape s w a h c (sym (live_at s w (page_of a) a _ refl e) ∙ alive));
    }
    go (some (sized h t)) e = record {
      home = sized h t;
      placed = e;
      shape =
          let (c, same, ready) = (v.item (page_of a) (sized h t) e).content in
          inl (IsSmall-shape s w a h c (sym (live_at s w (page_of a) a _ refl e) ∙ alive));
    }
    go (some (large h)) e = record {
      home = large h;
      placed = e;
      shape =
          let (heap, class, inner) = (v.item (page_of a) (large h) e).content in
          let here = sym (live_at s w (page_of a) a _ refl e) ∙ alive in
          inr (class, ground arith, inner);
    }

block_le : (page t j i : ℕ) → j ≤ i → block page t j ≤ block page t i
block_le page t j i le = elim (Bool-cases (ltb j i)) [
  | inl y ↦ omega (arith, blocks_apart page t j i (ground arith))
  | inr n ↦ let e : j ≡ i = ground arith in rw e (omega arith)
]

module _ (s : State) (w : View) (v : IsHeap s w) (p q : ℕ) (lt : p < q) where
  pages_apart : page_of p ≢ page_of q → page_of p + superblock_page_size ≤ page_of q
  unfolding page_of
  pages_apart ne = omega (arith, ne)

  page_le : page_of q ≤ q
  unfolding page_of
  page_le = omega arith

  small_small :
      page_of p ≡ page_of q
      → IsSmall s p
      → IsSmall s q
      → p + size_of (s.pages (page_of p)).block_type ≤ q
  small_small e (i, class, below, at) (j, class', below', at') =
      let t = (s.pages (page_of p)).block_type in
      let at2 : q ≡ block (page_of p) t j = rw e at' in
      elim (Bool-cases (ltb i j)) [
        | inl y ↦ omega (arith, blocks_apart (page_of p) t i j (ground arith), at, at2)
        | inr n ↦ absurd (omega (arith, block_le (page_of p) t j i (ground arith), at, at2, lt))
      ]

  room_small : (t : ℕ) → t < n_sizes → (s.pages (page_of p)).block_type ≡ t → room s p ≡ size_of t
  room_small t less e = let f : (t == blocktype_large) ≡ false = ground arith in rw (e, f) refl

  room_large :
      (s.pages (page_of p)).block_type ≡ blocktype_large
      → room s p ≡ (s.pages (page_of p)).count * superblock_page_size - sizeof_pageref
  room_large e = rw e refl

  same_page : page_of p ≡ page_of q → IsLive s w p → IsLive s w q → p + room s p ≤ q
  same_page e a b = go a.shape b.shape
    where
      go : IsSmall s p ⊎ IsLarge s w p → IsSmall s q ⊎ IsLarge s w q → p + room s p ≤ q
      go (inl x) (inl y) = rw (room_small _ x.1 refl) (small_small e x y)
      go (inl x) (inr y) = let z = rw (← e) at y.0 in absurd (let m = x.1 in omega arith)
      go (inr x) (inl y) = let z = rw (← e) at y.1 in absurd (let m = x.0 in omega arith)
      go (inr x) (inr y) = absurd (omega (arith, x.1, y.1, e, lt))

  -- An address inside of a large block is on no list.
  inside_large :
      IsLarge s w p
      → page_of p ≢ page_of q
      → q < page_of p + (s.pages (page_of p)).count * superblock_page_size
      → w.place (page_of q) ≡ none
  unfolding page_of
  inside_large (class, at, inner) ne over =
      let k = (page_of q - page_of p) / superblock_page_size in
      let e : page_of p + k * superblock_page_size ≡ page_of q = omega (arith, ne) in
      (v.inside (page_of q) (page_of p)
        (rw e at (inner k (omega (arith, ne)) (omega (arith, ne))))).0

  other_page : page_of p ≢ page_of q → IsLive s w p → IsLive s w q → p + room s p ≤ q
  other_page ne a b = go a.shape
    where
      go : IsSmall s p ⊎ IsLarge s w p → p + room s p ≤ q
      go (inl (i, class, below, at)) =
          let t = (s.pages (page_of p)).block_type in
          rw (room_small t class refl)
            (omega (arith, at, block_inside (page_of p) t i class below, pages_apart ne, page_le))
      go (inr l) =
          let n = (s.pages (page_of p)).count in
          elim (Bool-cases (ltb q (page_of p + n * superblock_page_size))) [
            | inl y ↦
                let none_there = inside_large l ne (ground arith) in
                let there = b.placed in absurd (cc)
            | inr y ↦ let at = l.1 in rw (room_large l.0) (ground arith)
          ]

  -- In a heap in order two live blocks do not overlap: the one at the lower address has all its room
  -- before the other.
  pub live-apart : live s w p ≡ true → live s w q ≡ true → p + room s p ≤ q
  live-apart a b =
      let x = live-IsLive s w v p a in
      let y = live-IsLive s w v q b in
      elim (Bool-cases (page_of p == page_of q)) [
        | inl t ↦ same_page (ground arith) x y
        | inr f ↦ other_page (ground arith) x y
      ]
