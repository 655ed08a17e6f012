-- ===== src/Avl/Find.antt =====
-- `find_node` finds the page that holds an address.
use parallel_memory_allocato.Base.{
  ℕ, ◌+◌, ◌≤◌, ◌<◌, ◌≡◌, true, List, [], ◌∷◌, ◌++◌, has, has-append, arith, ltb, leb, ◌&&◌,
  Bool-cases, inl, inr,
}
use parallel_memory_allocato.Avl.{Tree, leaf, node, find_node, page_size}
use parallel_memory_allocato.Avl.Keys.{keys}

-- No page of the list begins inside the one from `a`, on either side.
abbrev AllApart : ℕ → List ℕ → Type 0
AllApart a [] = Unit
AllApart a (x ∷ xs) = (a + page_size ≤ x) × AllApart a xs

-- Pages in order that do not overlap.
abbrev pub IsSpaced : List ℕ → Type 0
IsSpaced [] = Unit
IsSpaced (x ∷ xs) = AllApart x xs × IsSpaced xs

-- The address `p` lies in the page at `a`.
abbrev pub InPage : ℕ → ℕ → Type 0
InPage p a = (a ≤ p) × (p < a + page_size)

-- The node found: none of the list holds `p`, or its page does and is on the list.
abbrev pub Found : ℕ → List ℕ → Tree → Type 0
Found p xs leaf = (a : ℕ) → has a xs ≡ true → ¬ InPage p a
Found p xs (node l i k h r) = InPage p k × (has k xs ≡ true)

AllApart-append :
    (a : ℕ) (xs : List ℕ) (y : ℕ) (ys : List ℕ)
    → AllApart a (xs ++ (y ∷ ys))
    → (a + page_size ≤ y) × AllApart a xs
AllApart-append a [] y ys h = (h.0, tt)
AllApart-append a (x ∷ xs) y ys h = let (p, q) = AllApart-append a xs y ys h.1 in (p, (h.0, q))

abbrev AllBefore : ℕ → List ℕ → Type 0
AllBefore b [] = Unit
AllBefore b (x ∷ xs) = (x + page_size ≤ b) × AllBefore b xs

IsSpaced-append :
    (xs : List ℕ) (y : ℕ) (ys : List ℕ)
    → IsSpaced (xs ++ (y ∷ ys))
    → AllBefore y xs × AllApart y ys × IsSpaced xs × IsSpaced ys
IsSpaced-append [] y ys h = (tt, h.0, tt, h.1)
IsSpaced-append (x ∷ xs) y ys h =
    let (b, a, s, s') = IsSpaced-append xs y ys h.1 in
    let (p, q) = AllApart-append x xs y ys h.0 in ((p, b), a, (q, s), s')

AllBefore-has : (b a : ℕ) (xs : List ℕ) → AllBefore b xs → has a xs ≡ true → a + page_size ≤ b
AllBefore-has b a [] h m = cc
AllBefore-has b a (x ∷ xs) h m = ground (arith, AllBefore-has b a xs h.1)

AllApart-has : (b a : ℕ) (xs : List ℕ) → AllApart b xs → has a xs ≡ true → b + page_size ≤ a
AllApart-has b a [] h m = cc
AllApart-has b a (x ∷ xs) h m = ground (arith, AllApart-has b a xs h.1)

-- What was found among the pages on one side is what is found among all, if `p` is in no other.
Found-widen :
    (p : ℕ) (xs ys : List ℕ) (t : Tree)
    → Found p xs t
    → ((a : ℕ) → has a xs ≡ true → has a ys ≡ true)
    → ((a : ℕ) → has a ys ≡ true → InPage p a → has a xs ≡ true)
    → Found p ys t
Found-widen p xs ys leaf f up down = λ a m i. f a (down a m i) i
Found-widen p xs ys (node l i k h r) (inside, m) up down = (inside, up k m)

-- In a tree of pages in order that do not overlap, `find_node` returns the node of the page that
-- holds the address, and NULL exactly if no page of the tree holds it.
pub find_node-Found : (t : Tree) (p : ℕ) → IsSpaced (keys t) → Found p (keys t) (find_node t p)
unfolding find_node keys
find_node-Found leaf p s = λ a m. absurd (ground arith)
find_node-Found (node l i k h r) p s =
    let (before, apart, sl, sr) = IsSpaced-append (keys l) k (keys r) s in
    elim (Bool-cases (leb k p && ltb p (k + page_size))) [
      | inl here ↦
          rw (here, find_node) (ground arith, ground (arith, has-append k (keys l) (k ∷ keys r)))
      | inr other ↦ elim (Bool-cases (ltb p k)) [
        | inl below ↦
            rw (other, below, find_node)
              (Found-widen p (keys l) _ _ (find_node-Found l p sl)
                (λ a m. ground (arith, has-append a (keys l) (k ∷ keys r)))
                (λ a m inside.
                  ground
                    (arith, has-append a (keys l) (k ∷ keys r), AllApart-has k a (keys r) apart)))
        | inr above ↦
            rw (other, above, find_node)
              (Found-widen p (keys r) _ _ (find_node-Found r p sr)
                (λ a m. ground (arith, has-append a (keys l) (k ∷ keys r)))
                (λ a m inside.
                  ground
                    (arith, has-append a (keys l) (k ∷ keys r), AllBefore-has k a (keys l) before)))
      ]
    ]
