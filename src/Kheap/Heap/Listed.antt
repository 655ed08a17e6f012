-- ===== src/Kheap/Heap/Listed.antt =====
-- The lists of page references under pushes, pops and removals.
use parallel_memory_allocato.Base.{
  ℕ, ◌≡◌, ◌≢◌, refl, sym, ◌∙◌, true, false, Bool-cases, inl, inr, ◌⊎◌, Option, none, some, List, [],
  ◌∷◌, ◌==◌, if◌then◌else◌, has, IsDistinct, arith,
}
use parallel_memory_allocato.Memlib.{null}
use parallel_memory_allocato.A2alloc.Blocks.{Chain, Chain-frame}
use parallel_memory_allocato.A2alloc.Links.Segment.{ne_of_has}
use parallel_memory_allocato.A2alloc.Links.Unlink.{
  remove, has_of_remove, has-remove, remove_self, remove-IsDistinct,
}
use parallel_memory_allocato.Kheap.Heap.{Loc, fresh, recycled, sized, loc_eq, IsListed}

pub eq_of_loc_eq : (l k : Loc) → loc_eq l k ≡ true → l ≡ k
eq_of_loc_eq fresh k e = ground arith
eq_of_loc_eq recycled k e = ground arith
eq_of_loc_eq (sized t) k e = ground arith

pub loc_eq_refl : (l : Loc) → loc_eq l l ≡ true
loc_eq_refl fresh = refl
loc_eq_refl recycled = refl
loc_eq_refl (sized t) = ground arith

abbrev pub set_list : (Loc → List ℕ) → Loc → List ℕ → Loc → List ℕ
set_list lists l xs k = if loc_eq l k then xs else lists k

abbrev pub set_place : (ℕ → Option Loc) → ℕ → Option Loc → ℕ → Option Loc
set_place place x o a = if a == x then o else place a

pub has_same : (a x : ℕ) (xs : List ℕ) → a ≢ x → has a (remove x xs) ≡ has a xs
has_same a x xs ne = elim (Bool-cases (has a xs)) [
  | inl m ↦ has-remove a x xs ne m ∙ sym m
  | inr o ↦ elim (Bool-cases (has a (remove x xs))) [
    | inl y ↦ absurd (let z = has_of_remove a x xs y in cc)
    | inr n ↦ n ∙ sym o
  ]
]

pub Chain-ne_null :
    (next : ℕ → ℕ) (p a : ℕ) (xs : List ℕ) → Chain next p xs → has a xs ≡ true → a ≢ null
Chain-ne_null next p a [] c m = cc
Chain-ne_null next p a (x ∷ xs) (e, nn, tail) m =
    ground (arith, Chain-ne_null next (next x) a xs tail)

module _ {next : ℕ → ℕ} {head : Loc → ℕ} {lists : Loc → List ℕ} {place : ℕ → Option Loc}
    (v : IsListed next head lists place) where
  -- A page reference that has no list is on none.
  pub not_on : (x : ℕ) → place x ≡ none → (l : Loc) → has x (lists l) ≡ false
  not_on x e l = elim (Bool-cases (has x (lists l))) [
    | inl m ↦ let p = v.placed l x m in absurd (let q = sym e ∙ p in cc)
    | inr out ↦ out
  ]

  -- A change of the list `l` to `xs`, which has what was on it but perhaps `x`.
  relist :
      (next' : ℕ → ℕ) (head' : Loc → ℕ) (l : Loc) (x : ℕ) (xs : List ℕ) (o : Option Loc)
      → Chain next' (head' l) xs
      → IsDistinct xs
      → ((k : Loc) → loc_eq l k ≡ false → head' k ≡ head k)
      → ((k : Loc) (a : ℕ) → loc_eq l k ≡ false → has a (lists k) ≡ true → next' a ≡ next a)
      → ((k : Loc) → loc_eq l k ≡ false → has x (lists k) ≡ false)
      → ((a : ℕ) → a ≢ x → has a xs ≡ has a (lists l))
      → ((o ≡ some l) × (has x xs ≡ true) ⊎ (o ≡ none) × (has x xs ≡ false))
      → IsListed next' head' (set_list lists l xs) (set_place place x o)
  relist next' head' l x xs o c d heads nexts away same own = record {
    chain = λ k. elim (Bool-cases (loc_eq l k)) [
      | inl y ↦ rw (y, ← eq_of_loc_eq l k y) c
      | inr n ↦
          rw (n, heads k n)
            (Chain-frame next next' (head k) (lists k) (v.chain k) (λ a m. nexts k a n m))
    ];
    distinct = λ k. elim (Bool-cases (loc_eq l k)) [ inl y ↦ rw y d | inr n ↦ rw n (v.distinct k) ];
    placed = λ k a m. elim (Bool-cases (loc_eq l k)) [
      | inl y ↦ placed_here k a y (rw y at m)
      | inr n ↦
          let m' = rw n at m in
          let ne = ne_of_has a x (lists k) (away k n) m' in
          let f : (a == x) ≡ false = ground arith in rw f (v.placed k a m')
    ];
    listed = λ k a e. elim (Bool-cases (a == x)) [
      | inl y ↦ let q : a ≡ x = ground arith in rw q (listed_own k (rw y at e))
      | inr n ↦
          let e' = rw n at e in
          let m = v.listed k a e' in
          elim (Bool-cases (loc_eq l k)) [
            | inl y ↦ let q = eq_of_loc_eq l k y in rw y (same a (ground arith) ∙ rw (sym q) at m)
            | inr z ↦ rw z m
          ]
    ];
  }
    where
      placed_here :
          (k : Loc) (a : ℕ) → loc_eq l k ≡ true → has a xs ≡ true → set_place place x o a ≡ some k
      placed_here k a y m = elim (Bool-cases (a == x)) [
        | inl t ↦ elim own [
          | inl z ↦ rw (t, z.0, eq_of_loc_eq l k y) refl
          | inr z ↦ let q : a ≡ x = ground arith in absurd (let m' = rw q at m in let n = z.1 in cc)
        ]
        | inr n ↦ rw (n, ← eq_of_loc_eq l k y) (v.placed l a (sym (same a (ground arith)) ∙ m))
      ]

      listed_own : (k : Loc) → o ≡ some k → has x (set_list lists l xs k) ≡ true
      listed_own k e = elim own [
        | inl z ↦ let q : l ≡ k = (let w = sym z.0 ∙ e in cc) in rw (← q, loc_eq_refl l) z.1
        | inr z ↦ absurd (let w = sym z.0 ∙ e in cc)
      ]

  -- The first of a list leaves it.
  pub pop-IsListed :
      (head' : Loc → ℕ) (l : Loc) (x : ℕ) (xs : List ℕ)
      → lists l ≡ x ∷ xs
      → head' l ≡ next x
      → ((k : Loc) → loc_eq l k ≡ false → head' k ≡ head k)
      → IsListed next head' (set_list lists l xs) (set_place place x none)
  pop-IsListed head' l x xs e h heads =
      let (first, nn, tail) = rw e at (v.chain l) in
      let (out, d) = rw e at (v.distinct l) in
      let p = v.placed l x (rw e (ground arith)) in
      relist next head' l x xs none (rw h tail) d heads (λ k a n m. refl) (λ k n. other_list k p n)
        (λ a ne. rw e (ground arith)) (inr (refl, out))
    where
      other_list : (k : Loc) → place x ≡ some l → loc_eq l k ≡ false → has x (lists k) ≡ false
      other_list k p n = elim (Bool-cases (has x (lists k))) [
        | inl m ↦
            let q = sym p ∙ v.placed k x m in
            let w : l ≡ k = cc in absurd (let z = rw (← w) at n in let y = loc_eq_refl l in cc)
        | inr o ↦ o
      ]

  -- A page reference that is on no list comes to the front of one.
  pub push-IsListed :
      (next' : ℕ → ℕ) (head' : Loc → ℕ) (l : Loc) (x : ℕ)
      → place x ≡ none
      → x ≢ null
      → head' l ≡ x
      → next' x ≡ head l
      → ((k : Loc) → loc_eq l k ≡ false → head' k ≡ head k)
      → ((a : ℕ) → a ≢ x → next' a ≡ next a)
      → IsListed next' head' (set_list lists l (x ∷ lists l)) (set_place place x (some l))
  push-IsListed next' head' l x out nn h n heads same =
      relist next' head' l x (x ∷ lists l) (some l)
        (
          h,
          nn,
          rw n (
              Chain-frame next next' (head l) (lists l) (v.chain l)
                (λ a m. same a (ne_of_has a x (lists l) (not_on x out l) m))),
        )
        (not_on x out l, v.distinct l) heads
        (λ k a z m. same a (ne_of_has a x (lists k) (not_on x out k) m)) (λ k z. not_on x out k)
        (λ a ne. ground arith) (inl (refl, ground arith))

  pub remove-IsListed :
      (next' : ℕ → ℕ) (head' : Loc → ℕ) (l : Loc) (x : ℕ)
      → place x ≡ some l
      → Chain next' (head' l) (remove x (lists l))
      → ((k : Loc) → loc_eq l k ≡ false → head' k ≡ head k)
      → ((a : ℕ) → has a (lists l) ≡ false → next' a ≡ next a)
      → IsListed next' head' (set_list lists l (remove x (lists l))) (set_place place x none)
  remove-IsListed next' head' l x here c heads same =
      relist next' head' l x (remove x (lists l)) none c
        (remove-IsDistinct x (lists l) (v.distinct l)) heads
        (λ k a n m. same a (other_place k a n m)) (λ k n. other_list k n)
        (λ a ne. has_same a x (lists l) ne) (inr (refl, remove_self x (lists l) (v.distinct l)))
    where
      other_place :
          (k : Loc) (a : ℕ) → loc_eq l k ≡ false → has a (lists k) ≡ true → has a (lists l) ≡ false
      other_place k a n m = elim (Bool-cases (has a (lists l))) [
        | inl y ↦
            let q = sym (v.placed l a y) ∙ v.placed k a m in
            let w : l ≡ k = cc in absurd (let z = rw (← w) at n in let y = loc_eq_refl l in cc)
        | inr o ↦ o
      ]

      other_list : (k : Loc) → loc_eq l k ≡ false → has x (lists k) ≡ false
      other_list k n = elim (Bool-cases (has x (lists k))) [
        | inl m ↦ absurd (let y = v.listed l x here in let z = other_place k x n m in cc)
        | inr o ↦ o
      ]

  -- A change that spares the links and the heads.
  pub same-IsListed :
      (next' : ℕ → ℕ) (head' : Loc → ℕ)
      → ((a : ℕ) → next' a ≡ next a)
      → ((l : Loc) → head' l ≡ head l)
      → IsListed next' head' lists place
  same-IsListed next' head' n h = record {
    chain = λ l. rw (h l) (Chain-frame next next' (head l) (lists l) (v.chain l) (λ a m. n a));
    distinct = v.distinct;
    placed = v.placed;
    listed = v.listed;
  }
