-- ===== src/A2alloc/Heap/Inside.antt =====
-- Where the live blocks of a heap in order lie.
use native.Mathlib.Nat.{div-add-mod', mul-mod_left, mul_assoc}
use parallel_memory_allocato.Base.{
  ℕ, zero, suc, ◌+◌, ◌-◌, ◌*◌, ◌/◌, ◌%◌, ◌≤◌, ◌<◌, ◌≡◌, refl, sym, ap, ◌∙◌, inl, inr, ◌⊎◌, some,
  true, arith,
}
use parallel_memory_allocato.A2alloc.Sizes.{superblock_page_size, sizeof_pageref, page_of, size_of}
use parallel_memory_allocato.A2alloc.Sizes.Layout.{block_inside, capacity_bounds}
use parallel_memory_allocato.A2alloc.State.{State}
use parallel_memory_allocato.A2alloc.Heap.{View, IsHeap, live, room}
use parallel_memory_allocato.A2alloc.Heap.Frame.{room_small}
use parallel_memory_allocato.A2alloc.Heap.Apart.{IsSmall, IsLarge, live-IsLive}

multiple_of_8 : (i n : ℕ) → n % 8 ≡ 0 → (i * n) % 8 ≡ 0
multiple_of_8 i n e =
    let k : n / 8 * 8 ≡ n = omega (arith, div-add-mod' n 8) in
    let z : i * (n / 8) * 8 ≡ i * n = mul_assoc i (n / 8) 8 ∙ ap (λ (z : ℕ). i * z) k in
    ap (λ (z : ℕ). z % 8) (sym z) ∙ mul-mod_left (i * (n / 8)) 8

-- The pages of a large block end inside the segment.
pages_inside :
    (s : State) (w : View)
    → IsHeap s w
    → (page n : ℕ) → page % superblock_page_size ≡ 0
    → page < s.dseg.dseg_end
    → ((i : ℕ) → 0 < i → i < n → w.within (page + i * superblock_page_size) ≡ some page)
    → page + n * superblock_page_size ≤ s.dseg.dseg_end
pages_inside s w v page zero aligned below inner = omega arith
pages_inside s w v page (suc zero) aligned below inner = omega (arith, v.ended)
pages_inside s w v page (suc (suc m)) aligned below inner =
    let last = page + suc m * superblock_page_size in
    let (unplaced, lt, whole, nn) =
      v.inside last page (inner (suc m) (omega arith) (omega arith)) in
    omega (arith, v.ended)

-- In a heap in order a live block lies in the segment, behind the header of its page, and has an
-- address that is a multiple of 8.
pub live_bounds :
    (s : State) (w : View)
    → IsHeap s w
    → (p : ℕ) → live s w p ≡ true
    → (page_of p + sizeof_pageref ≤ p)
      × (s.dseg.dseg_lo ≤ p)
      × (p + room s p ≤ s.dseg.dseg_end)
      × (p % 8 ≡ 0)
live_bounds s w v p alive =
    let l = live-IsLive s w v p alive in
    let i = v.item (page_of p) l.home l.placed in go i.aligned i.above i.below l.shape
  where
    go :
        page_of p % superblock_page_size ≡ 0
        → s.dseg.dseg_lo ≤ page_of p
        → page_of p < s.dseg.dseg_end
        → IsSmall s p ⊎ IsLarge s w p
        → (page_of p + sizeof_pageref ≤ p)
          × (s.dseg.dseg_lo ≤ p)
          × (p + room s p ≤ s.dseg.dseg_end)
          × (p % 8 ≡ 0)
    go aligned low below (inl (i, class, index, at)) =
        let t = (s.pages (page_of p)).block_type in
        let (above, within) = block_inside (page_of p) t i class index in
        let r = room_small s (page_of p) t p class refl refl in
        let e = v.ended in
        (
          omega (arith, at, above),
          omega (arith, at, above),
          omega (arith, at, within, r),
          omega (arith, at, multiple_of_8 i (size_of t) (capacity_bounds t class).2),
        )
    go aligned low below (inr (class, at, inner)) =
        let r : room s p ≡ (s.pages (page_of p)).count * superblock_page_size - sizeof_pageref =
          rw class refl in
        (
          omega (arith, at),
          omega (arith, at),
          omega (arith, at, r, pages_inside s w v (page_of p) _ aligned below inner),
          omega (arith, at),
        )
