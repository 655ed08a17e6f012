-- ===== src/A2alloc/Links/Segment.antt =====
-- Segments of pages under changes of the pointers.
use parallel_memory_allocato.Base.{
  Bool-cases, ◌∙◌, ℕ, ◌≡◌, ◌≢◌, refl, Bool, true, false, Option, none, List, [], ◌∷◌, has, arith,
  ◌⊎◌, inl, inr,
}
use parallel_memory_allocato.Memlib.{null}
use parallel_memory_allocato.A2alloc.State.{Loc, free, complete, large, sized}
use parallel_memory_allocato.A2alloc.Links.{Segment, loc_eq, Links, IsLinked}

pub eq_of_loc_eq : (l k : Loc) → loc_eq l k ≡ true → l ≡ k
eq_of_loc_eq (free h) k e = ground arith
eq_of_loc_eq (complete h) k e = ground arith
eq_of_loc_eq (large h) k e = ground arith
eq_of_loc_eq (sized h t) k e = ground arith

pub loc_eq_refl : (l : Loc) → loc_eq l l ≡ true
loc_eq_refl (free h) = ground arith
loc_eq_refl (complete h) = ground arith
loc_eq_refl (large h) = ground arith
loc_eq_refl (sized h t) = ground arith

-- A change that spares the pointers of its pages leaves a segment as it is.
pub Segment-frame :
    (next prev next' prev' : ℕ → ℕ) (both : Bool) (b p : ℕ) (xs : List ℕ)
    → Segment next prev both b p xs
    → ((a : ℕ) → has a xs ≡ true → next' a ≡ next a)
    → ((a : ℕ) → has a xs ≡ true → both ≡ true → prev' a ≡ prev a)
    → Segment next' prev' both b p xs
Segment-frame next prev next' prev' both b p [] s n v = s
Segment-frame next prev next' prev' both b p (x ∷ xs) (e, ne, back, rest) n v =
    let here : has x (x ∷ xs) ≡ true = ground arith in
    (
      e,
      ne,
      λ t. ground (arith, v x, back),
      rw (n x here) (
          Segment-frame next prev next' prev' both x (next x) xs rest (λ a m. n a (ground arith))
            (λ a m. v a (ground arith))),
    )

-- The first page of a segment.
pub Segment-first :
    (next prev : ℕ → ℕ) (both : Bool) (b p : ℕ) (xs : List ℕ)
    → Segment next prev both b p xs
    → (p ≡ null) ⊎ (has p xs ≡ true)
Segment-first next prev both b p [] s = inl s
Segment-first next prev both b p (x ∷ xs) s = inr (ground arith)

pub Segment-ne_null :
    (next prev : ℕ → ℕ) (both : Bool) (b p a : ℕ) (xs : List ℕ)
    → Segment next prev both b p xs
    → has a xs ≡ true
    → a ≢ null
Segment-ne_null next prev both b p a [] s m = cc
Segment-ne_null next prev both b p a (x ∷ xs) (e, ne, back, rest) m =
    ground (arith, Segment-ne_null next prev both x (next x) a xs rest)

-- Two addresses that a list tells apart.
pub ne_of_has : (a x : ℕ) (xs : List ℕ) → has x xs ≡ false → has a xs ≡ true → a ≢ x
ne_of_has a x xs o m e = let t : has x xs ≡ true = rw (← e) m in cc

module _ {k : Links} {lists : Loc → List ℕ} {place : ℕ → Option Loc}
    (v : IsLinked k lists place) where
  -- A page that has no list is on none.
  pub not_on : (x : ℕ) → place x ≡ none → (j : Loc) → has x (lists j) ≡ false
  not_on x e j = elim (Bool-cases (has x (lists j))) [
    | inl m ↦ let p = v.placed j x m in cc
    | inr out ↦ out
  ]

  -- The first page of another list is not on this one.
  pub first_apart : (l j : Loc) (a : ℕ) → loc_eq l j ≡ false → has a (lists j) ≡ true → a ≢ k.head l
  first_apart l j a ne m e = elim (Segment-first _ _ _ _ _ (lists l) (v.segment l)) [
    | inl z ↦ Segment-ne_null _ _ _ _ _ a (lists j) (v.segment j) m (e ∙ z)
    | inr first ↦
        let p = v.placed j a m in
        let q = v.placed l (k.head l) first in
        let same : l ≡ j = cc in let t : loc_eq l j ≡ true = rw (← same) (loc_eq_refl l) in cc
  ]

  -- A page of a list is on no other.
  pub elsewhere :
      (l j : Loc) (a : ℕ) → has a (lists l) ≡ true → loc_eq l j ≡ false → has a (lists j) ≡ false
  elsewhere l j a m ne = elim (Bool-cases (has a (lists j))) [
    | inl m' ↦
        let p = v.placed l a m in
        let q = v.placed j a m' in
        let same : l ≡ j = cc in let t : loc_eq l j ≡ true = rw (← same) (loc_eq_refl l) in cc
    | inr out ↦ out
  ]

  -- NULL is on no list.
  pub not_null : (j : Loc) → has null (lists j) ≡ false
  not_null j = elim (Bool-cases (has null (lists j))) [
    | inl m ↦ absurd (Segment-ne_null _ _ _ _ _ null (lists j) (v.segment j) m refl)
    | inr out ↦ out
  ]
