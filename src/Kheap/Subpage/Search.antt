-- ===== src/Kheap/Subpage/Search.antt =====
-- The searches of `subpage_kmalloc` and `subpage_kfree` on the lists of page references.
use parallel_memory_allocato.Base.{
  ℕ, zero, suc, ◌+◌, ◌<◌, ◌≡◌, refl, Bool, Bool-cases, inl, inr, List, [], ◌∷◌, ◌++◌, ok, ltb, leb,
  ◌==◌, ◌&&◌, true, false, if◌then◌else◌, has, length, arith,
}
use parallel_memory_allocato.Memlib.{null}
use parallel_memory_allocato.A2alloc.Blocks.{Chain}
use parallel_memory_allocato.Kheap.Sizes.{n_sizes, page_size}
use parallel_memory_allocato.Kheap.State.{State, pr_pageaddr, pr_blocktype}
use parallel_memory_allocato.Kheap.PageRefs.Remove.{next}
use parallel_memory_allocato.Kheap.Subpage.{find_page, find_owner_in, find_owner}

-- The first page reference of a list that the test is true of, or NULL.
abbrev pub first_of : (ℕ → Bool) → List ℕ → ℕ
first_of test [] = null
first_of test (x ∷ xs) = let rest = first_of test xs in if test x then x else rest

-- The page has a free block.
abbrev pub is_ready : State → ℕ → Bool
is_ready s pr = ltb 0 (s.refs pr).nfree

-- The page holds the address.
abbrev pub owns : State → ℕ → ℕ → Bool
owns s ptr pr = let page = pr_pageaddr (s.refs pr) in leb page ptr && ltb ptr (page + page_size)

-- The page references of the `n` lists from list `i` on.
abbrev pub all_refs : (ℕ → List ℕ) → ℕ → ℕ → List ℕ
all_refs lists zero i = []
all_refs lists (suc n) i = lists i ++ all_refs lists n (i + 1)

-- With more fuel than there are pages of the size class, the search of `subpage_kmalloc` finds the
-- first page with a free block, or NULL if there is none.
pub find_page-first_of :
    (fuel : ℕ) (s : State) (t p : ℕ) (prs : List ℕ)
    → Chain (next s) p prs
    → ((pr : ℕ) → has pr prs ≡ true → pr_blocktype (s.refs pr) ≡ t)
    → length prs < fuel
    → find_page fuel s t p ≡ ok (first_of (is_ready s) prs)
unfolding find_page
find_page-first_of zero s t p prs c class lt = absurd (omega (arith, lt))
find_page-first_of (suc fuel) s t p [] c class lt =
    let e : (p == null) ≡ true = ground arith in rw e refl
find_page-first_of (suc fuel) s t p (x ∷ xs) (e, nn, tail) class lt =
    let ne : (x == null) ≡ false = ground arith in
    let same : (pr_blocktype (s.refs x) == t) ≡ true =
      let z = class x (ground arith) in ground arith in
    elim (Bool-cases (is_ready s x)) [
      | inl y ↦ rw (e, ne, same, y) refl
      | inr f ↦
          rw (e, ne, same, f)
            (find_page-first_of fuel s t (next s x) xs tail (λ pr m. class pr (ground arith))
              (omega (arith, lt)))
    ]

module _ (s : State) (ptr : ℕ) where
  find_owner_in-first_of :
      (fuel p : ℕ) (prs : List ℕ)
      → Chain (next s) p prs
      → ((pr : ℕ) → has pr prs ≡ true → pr_blocktype (s.refs pr) < n_sizes)
      → length prs < fuel
      → find_owner_in fuel s ptr p ≡ ok (first_of (owns s ptr) prs)
  unfolding find_owner_in
  find_owner_in-first_of zero p prs c class lt = absurd (omega (arith, lt))
  find_owner_in-first_of (suc fuel) p [] c class lt =
      let e : (p == null) ≡ true = ground arith in rw e refl
  find_owner_in-first_of (suc fuel) p (x ∷ xs) (e, nn, tail) class lt =
      let ne : (x == null) ≡ false = ground arith in
      let small : ltb (pr_blocktype (s.refs x)) n_sizes ≡ true =
        let z = class x (ground arith) in ground arith in
      elim (Bool-cases (owns s ptr x)) [
        | inl y ↦ rw (e, ne, small, y) refl
        | inr f ↦
            rw (e, ne, small, f)
              (find_owner_in-first_of fuel (next s x) xs tail (λ pr m. class pr (ground arith))
                (omega (arith, lt)))
      ]

  first_of_append :
      (test : ℕ → Bool) (step : ℕ → ℕ) (p : ℕ) (xs ys : List ℕ)
      → Chain step p xs
      → first_of test (xs ++ ys)
        ≡ (if first_of test xs == null then first_of test ys else first_of test xs)
  first_of_append test step p [] ys c = refl
  first_of_append test step p (x ∷ xs) ys (e, nn, tail) =
      let ne : (x == null) ≡ false = ground arith in
      elim (Bool-cases (test x)) [
        | inl y ↦ rw (y, ne) refl
        | inr f ↦ rw f (first_of_append test step (step x) xs ys tail)
      ]

  find_owner-all :
      (fuel : ℕ) (lists : ℕ → List ℕ) (n i : ℕ)
      → ((t : ℕ) → Chain (next s) (s.sizebases t) (lists t))
      → ((t pr : ℕ) → has pr (lists t) ≡ true → pr_blocktype (s.refs pr) < n_sizes)
      → ((t : ℕ) → length (lists t) < fuel)
      → find_owner fuel n i s ptr ≡ ok (first_of (owns s ptr) (all_refs lists n i))
  unfolding find_owner
  find_owner-all fuel lists zero i c class lt = refl
  find_owner-all fuel lists (suc n) i c class lt =
      rw
        (
          find_owner_in-first_of fuel (s.sizebases i) (lists i) (c i) (class i) (lt i),
          find_owner-all fuel lists n (i + 1) c class lt,
          first_of_append (owns s ptr) (next s) (s.sizebases i) (lists i) (all_refs lists n (i + 1))
              (c i),
        )
        (either (first_of (owns s ptr) (lists i) == null) _ _)
    where
      either : (b : Bool) (x y : ℕ) → (if b then ok x else ok y) ≡ ok (if b then x else y)
      either true x y = refl
      either false x y = refl

  -- With more fuel than there are pages of any size class, the search of `subpage_kfree` finds the
  -- first page, in the order of the classes, that holds the address, or NULL if no page does.
  pub find_owner-first_of :
      (fuel : ℕ) (lists : ℕ → List ℕ)
      → ((t : ℕ) → Chain (next s) (s.sizebases t) (lists t))
      → ((t pr : ℕ) → has pr (lists t) ≡ true → pr_blocktype (s.refs pr) < n_sizes)
      → ((t : ℕ) → length (lists t) < fuel)
      → find_owner fuel n_sizes 0 s ptr ≡ ok (first_of (owns s ptr) (all_refs lists n_sizes 0))
  find_owner-first_of fuel lists = find_owner-all fuel lists n_sizes 0
