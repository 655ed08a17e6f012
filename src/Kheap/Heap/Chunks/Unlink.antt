-- ===== src/Kheap/Heap/Chunks/Unlink.antt =====
-- The list of free chunks without the one that `take_chunk` takes.
use parallel_memory_allocato.Base.{
  ℕ, ◌≤◌, ◌≡◌, refl, sym, ◌∙◌, true, false, Bool-cases, inl, inr, ◌⊎◌, some, List, [], ◌∷◌, ◌==◌,
  has, IsDistinct, arith, if◌then◌else◌, ltb,
}
use parallel_memory_allocato.A2alloc.Blocks.{Chain, Chain-frame}
use parallel_memory_allocato.A2alloc.Links.Segment.{ne_of_has}
use parallel_memory_allocato.A2alloc.Links.Unlink.{remove}
use parallel_memory_allocato.Kheap.Big.Search.{first_fit}

module _ (next size : ℕ → ℕ) (n : ℕ) where
  -- The link of the node `b` skips the node `x`.
  abbrev pub skip : ℕ → ℕ → ℕ → ℕ
  skip b x a = if a == b then next x else next a

  -- `x` is large enough. Either it is the first of the list, or the list from `p` on skips it.
  abbrev pub Skips : ℕ → ℕ → List ℕ → ℕ → ℕ → Type 0
  Skips before p xs b x =
      (has x xs ≡ true)
      × (n ≤ size x)
      × ((b ≡ before) × (p ≡ x) × Chain (skip b x) (next x) (remove x xs)
          ⊎ (has b xs ≡ true) × Chain (skip b x) p (remove x xs))

  pub first_fit-Skips :
      (before p : ℕ) (xs : List ℕ) (b x : ℕ)
      → Chain next p xs
      → IsDistinct xs
      → has before xs ≡ false
      → first_fit size n before xs ≡ some (b, x)
      → Skips before p xs b x
  unfolding remove
  first_fit-Skips before p [] b x c d out e = absurd (cc)
  first_fit-Skips before p (y ∷ ys) b x (h, nn, tail) d out e = elim (Bool-cases (ltb (size y) n)) [
    | inr large ↦
        let q = rw large at e in
        let q1 : before ≡ b = cc in
        let q2 : y ≡ x = cc in
        let self : (x == y) ≡ true = ground arith in
        let apart : has b ys ≡ false = ground arith in
        rw self (
          refl,
          let le : n ≤ size y = ground arith in rw (← q2) le,
          inl (
            sym q1,
            h ∙ q2,
            rw (← q2) (
                Chain-frame next (skip b y) (next y) ys tail (λ a m.
                  let f : (a == b) ≡ false = (let z = ne_of_has a b ys apart m in ground arith) in
                  rw f refl)),
          ),
        )
    | inl small ↦
        let (m, le, r) = first_fit-Skips y (next y) ys b x tail d.1 d.0 (rw small at e) in
        let other : (x == y) ≡ false = (let z = ne_of_has x y ys d.0 m in ground arith) in
        rw other (
          m,
          le,
          elim r [
            | inl (q, to, c) ↦
                let self : (b == y) ≡ true = ground arith in
                let self2 : (y == b) ≡ true = ground arith in
                inr (rw self refl, (h, nn, rw self2 c))
            | inr (mb, c) ↦
                let f : (y == b) ≡ false = (let z = ne_of_has b y ys d.0 mb in ground arith) in
                inr (ground arith, (h, nn, rw f c))
          ],
        )
  ]
