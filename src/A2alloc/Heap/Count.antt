-- ===== src/A2alloc/Heap/Count.antt =====
-- The blocks of a page counted: as many free blocks as a page has are all its blocks.
use parallel_memory_allocato.Base.{
  ℕ, zero, suc, ◌+◌, ◌*◌, ◌%◌, ◌≤◌, ◌<◌, ◌≡◌, refl, true, false, Bool-cases, inl, inr, List, [],
  ◌∷◌, ◌==◌, has, length, IsDistinct, arith,
}
use parallel_memory_allocato.A2alloc.Sizes.{
  n_sizes, superblock_page_size, sizeof_pageref, size_of, capacity, page_of,
}
use parallel_memory_allocato.A2alloc.Sizes.Layout.{page_of-block}
use parallel_memory_allocato.A2alloc.Blocks.{blocks_down}
use parallel_memory_allocato.A2alloc.Blocks.Carve.{fresh_blocks}
use parallel_memory_allocato.A2alloc.Links.Segment.{ne_of_has}
use parallel_memory_allocato.A2alloc.Links.Unlink.{
  remove, has_of_remove, remove_self, remove-IsDistinct,
}

-- A block of a page has an index.
pub block_index :
    (base size n a : ℕ)
    → has a (blocks_down base size n) ≡ true
    → (i : ℕ) × (i < n) × (a ≡ base + i * size)
unfolding blocks_down
block_index base size zero a m = cc
block_index base size (suc n) a m = elim (Bool-cases (a == base + n * size)) [
  | inl t ↦ (n, omega arith, ground arith)
  | inr f ↦ let (i, lt, e) = block_index base size n a (ground arith) in (i, omega arith, e)
]

-- A block of an aligned page has that page.
pub page_of_fresh :
    (page t a : ℕ)
    → page % superblock_page_size ≡ 0
    → t < n_sizes
    → has a (fresh_blocks page t) ≡ true
    → page_of a ≡ page
page_of_fresh page t a aligned lt m =
    let (i, below, e) = block_index (page + sizeof_pageref) (size_of t) (capacity t) a m in
    rw e (page_of-block page t i aligned lt below)

length-remove : (x : ℕ) (xs : List ℕ) → has x xs ≡ true → suc (length (remove x xs)) ≡ length xs
unfolding remove
length-remove x [] m = cc
length-remove x (y ∷ ys) m = ground (arith, length-remove x ys)

module _ (base size : ℕ) where
  -- What is left of some of the first `n + 1` blocks without the last.
  lower :
      (n : ℕ) (xs : List ℕ)
      → ((a : ℕ) → has a xs ≡ true → has a (blocks_down base size (suc n)) ≡ true)
      → IsDistinct xs
      → (a : ℕ) → has a (remove (base + n * size) xs) ≡ true
      → has a (blocks_down base size n) ≡ true
  unfolding blocks_down
  lower n xs sub d a m =
      let ne = ne_of_has a (base + n * size) _ (remove_self (base + n * size) xs d) m in
      ground (arith, sub a (has_of_remove a (base + n * size) xs m))

  remove_absent : (x : ℕ) (xs : List ℕ) → has x xs ≡ false → remove x xs ≡ xs
  unfolding remove
  remove_absent x [] o = refl
  remove_absent x (y ∷ ys) o = ground (arith, remove_absent x ys)

  none_down : (a : ℕ) → has a (blocks_down base size 0) ≡ false
  unfolding blocks_down
  none_down a = refl

  pub length_bound :
      (n : ℕ) (xs : List ℕ)
      → ((a : ℕ) → has a xs ≡ true → has a (blocks_down base size n) ≡ true)
      → IsDistinct xs
      → length xs ≤ n
  length_bound zero [] sub d = omega arith
  length_bound zero (x ∷ xs) sub d = let m = sub x (ground arith) in let o = none_down x in cc
  length_bound (suc n) xs sub d =
      let rest =
        length_bound n (remove (base + n * size) xs) (lower n xs sub d)
          (remove-IsDistinct _ xs d) in
      elim (Bool-cases (has (base + n * size) xs)) [
        | inl t ↦ omega (arith, length-remove (base + n * size) xs t)
        | inr f ↦
            let e = remove_absent (base + n * size) xs f in let r = rw e at rest in omega arith
      ]

  -- `n` different blocks among the first `n` are all of them.
  pub has_all :
      (n : ℕ) (xs : List ℕ)
      → ((a : ℕ) → has a xs ≡ true → has a (blocks_down base size n) ≡ true)
      → IsDistinct xs
      → n ≤ length xs
      → (a : ℕ) → has a (blocks_down base size n) ≡ true
      → has a xs ≡ true
  unfolding blocks_down
  has_all zero xs sub d le a m = cc
  has_all (suc n) xs sub d le a m = elim (Bool-cases (has (base + n * size) xs)) [
    | inl t ↦ elim (Bool-cases (a == base + n * size)) [
      | inl q ↦ let e : a ≡ base + n * size = ground arith in rw e t
      | inr f ↦ has_of_remove a (base + n * size) xs (
          has_all n (remove (base + n * size) xs) (lower n xs sub d) (remove-IsDistinct _ xs d)
            (omega (arith, length-remove (base + n * size) xs t)) a (ground arith))
    ]
    | inr f ↦
        let r = rw (remove_absent (base + n * size) xs f) at (lower n xs sub d) in
        absurd (omega (arith, length_bound n xs r d))
  ]
