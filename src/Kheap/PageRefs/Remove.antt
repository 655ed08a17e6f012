-- ===== src/Kheap/PageRefs/Remove.antt =====
-- `remove_lists` of kheap.c.
use parallel_memory_allocato.Base.{
  ℕ, zero, suc, ◌<◌, ◌≡◌, ◌≢◌, refl, ap, ◌∙◌, Bool-cases, inl, inr, ◌⊎◌, List, [], ◌∷◌, ok, ltb,
  ◌==◌, true, false, if◌then◌else◌, has, length, IsDistinct, arith,
}
use parallel_memory_allocato.Memlib.{null}
use parallel_memory_allocato.A2alloc.Blocks.{Chain, Chain-frame}
use parallel_memory_allocato.A2alloc.Links.Segment.{ne_of_has}
use parallel_memory_allocato.A2alloc.Links.Unlink.{remove}
use parallel_memory_allocato.Kheap.Sizes.{n_sizes}
use parallel_memory_allocato.Kheap.State.{State, put_ref, set_sizebase}
use parallel_memory_allocato.Kheap.PageRefs.{set_link, remove_lists_from, remove_lists}

-- The page reference after one.
abbrev pub next : State → ℕ → ℕ
next s pr = (s.refs pr).next

module _ (s : State) (t pr : ℕ) where
  -- The node before gets a new successor.
  set_link-next :
      (before after a : ℕ)
      → before ≢ null
      → next (set_link s t before after) a ≡ (if a == before then after else next s a)
  unfolding set_link put_ref set_sizebase
  set_link-next before after a nn =
      let f : (before == null) ≡ false = ground arith in rw f (ground arith)

  set_link-sizebases :
      (before after : ℕ) → before ≢ null → (set_link s t before after).sizebases ≡ s.sizebases
  unfolding set_link put_ref set_sizebase
  set_link-sizebases before after nn = let f : (before == null) ≡ false = ground arith in rw f refl

  -- The loop from `p` on finds the node at once, and writes through the link that led to it.
  abbrev Finds : ℕ → ℕ → State → Type 0
  Finds before p s' = (p ≡ pr) × (s' ≡ set_link s t before (next s pr))

  -- The node leaves the nodes `xs` from `p` on, and the others keep their links.
  abbrev Leaves : ℕ → List ℕ → State → Type 0
  Leaves p xs s' =
      Chain (next s') p (remove pr xs)
      × (s'.sizebases ≡ s.sizebases)
      × ((a : ℕ) → has a xs ≡ false → next s' a ≡ next s a)

  Finds-Leaves :
      (x : ℕ) (xs : List ℕ) (s' : State)
      → x ≢ null
      → (pr == x) ≡ false
      → has x xs ≡ false
      → Chain (next s) (next s x) xs
      → has pr xs ≡ true
      → Finds x (next s x) s' ⊎ Leaves (next s x) xs s'
      → Leaves x (x ∷ xs) s'
  unfolding remove
  Finds-Leaves x [] s' nn other out c m z = absurd (cc)
  Finds-Leaves x (y ∷ ys) s' nn other out (e, ny, tail) m (inl (q, w)) =
      let yes : (pr == y) ≡ true = ground arith in
      let eq : pr ≡ y = ground arith in
      let self : (x == x) ≡ true = ground arith in
      let upd : (a : ℕ) → next s' a ≡ (if a == x then next s pr else next s a) =
        (λ a. rw w (set_link-next x (next s pr) a nn)) in
      let apart : (a : ℕ) → (a == x) ≡ false → next s' a ≡ next s a = (λ a f. upd a ∙ rw f refl) in
      let here : next s' x ≡ next s y = upd x ∙ rw (self, eq) refl in
      rw (other, yes)
        (
          (
            refl,
            nn,
            rw here (
                Chain-frame (next s) (next s') (next s y) ys tail (λ a h.
                  let ne = ne_of_has a x (y ∷ ys) out (ground arith) in apart a (ground arith))),
          ),
          ap (λ (z : State). z.sizebases) w ∙ set_link-sizebases x (next s pr) nn,
          λ a o. apart a (ground arith),
        )
  Finds-Leaves x xs s' nn other out c m (inr (chain, bases, same)) =
      rw other ((refl, nn, rw (same x out) chain), bases, λ a o. same a (ground arith))

  remove_lists_from-Leaves :
      (fuel before p : ℕ) (xs : List ℕ)
      → Chain (next s) p xs
      → IsDistinct xs
      → has pr xs ≡ true
      → length xs < fuel
      → (s' : State) × (remove_lists_from fuel s t pr before p ≡ ok s')
        × (Finds before p s' ⊎ Leaves p xs s')
  unfolding remove_lists_from
  remove_lists_from-Leaves zero before p xs c d m lt = absurd (omega (arith, lt))
  remove_lists_from-Leaves (suc fuel) before p [] c d m lt = absurd (cc)
  remove_lists_from-Leaves (suc fuel) before p (x ∷ xs) (e, nn, tail) d m lt =
      let ne : (x == null) ≡ false = ground arith in
      elim (Bool-cases (x == pr)) [
        | inl y ↦
            let q : x ≡ pr = ground arith in
            (set_link s t before (next s pr), rw (e, ne, y) refl, inl (e ∙ q, refl))
        | inr f ↦
            let other : (pr == x) ≡ false = ground arith in
            let later : has pr xs ≡ true = ground arith in
            let (s', run, r) =
              remove_lists_from-Leaves fuel x (next s x) xs tail d.1 later (omega (arith, lt)) in
            (s', rw (e, ne, f) run, inr (rw e (Finds-Leaves x xs s' nn other d.0 tail later r)))
      ]

-- The list of the size class is `prs` without the node. The heads of the other lists, and the links
-- of what is not in `prs`, are as before.
abbrev pub IsWithout : State → ℕ → ℕ → List ℕ → State → Type 0
IsWithout s t pr prs s' =
    Chain (next s') (s'.sizebases t) (remove pr prs)
    × ((u : ℕ) → u ≢ t → s'.sizebases u ≡ s.sizebases u)
    × ((a : ℕ) → has a prs ≡ false → next s' a ≡ next s a)

first-IsWithout :
    (s : State) (t pr p : ℕ) (prs : List ℕ)
    → Chain (next s) p prs
    → has pr prs ≡ true
    → p ≡ pr
    → IsWithout s t pr prs (set_link s t null (next s pr))
unfolding remove set_link set_sizebase
first-IsWithout s t pr p [] c m q = absurd (cc)
first-IsWithout s t pr p (y ∷ ys) (e, nn, tail) m q =
    let same : y ≡ pr = ground arith in
    let yes : (pr == y) ≡ true = ground arith in
    let self : (t == t) ≡ true = ground arith in
    (rw (yes, self, ← same) tail, (λ u ne. ground arith), λ a o. refl)

later-IsWithout :
    (s : State) (t pr : ℕ) (prs : List ℕ) (s' : State)
    → Leaves s t pr (s.sizebases t) prs s'
    → IsWithout s t pr prs s'
later-IsWithout s t pr prs s' (chain, bases, same) = (rw bases chain, (λ u ne. rw bases refl), same)

-- With more fuel than the list of the size class has nodes, `remove_lists` of one of them returns.
-- The list is then the old one without it, and the heads of the other lists and the links of what was
-- not in the list are as before.
pub remove_lists-remove :
    (fuel : ℕ) (s : State) (pr t : ℕ) (prs : List ℕ)
    → t < n_sizes
    → Chain (next s) (s.sizebases t) prs
    → IsDistinct prs
    → has pr prs ≡ true
    → length prs < fuel
    → (s' : State) × (remove_lists fuel s pr t ≡ ok s') × IsWithout s t pr prs s'
unfolding remove_lists
remove_lists-remove fuel s pr t prs lt c d m enough =
    let below : ltb t n_sizes ≡ true = ground arith in
    let (s', run, r) = remove_lists_from-Leaves s t pr fuel null (s.sizebases t) prs c d m enough in
    (
      s',
      rw below run,
      elim r [
        | inl (q, w) ↦ rw w (first-IsWithout s t pr (s.sizebases t) prs c m q)
        | inr z ↦ later-IsWithout s t pr prs s' z
      ],
    )
