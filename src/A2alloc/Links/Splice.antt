-- ===== src/A2alloc/Links/Splice.antt =====
-- A run of pages put in front of a list of free pages.
use parallel_memory_allocato.Base.{
  ℕ, ◌≡◌, ◌≢◌, refl, true, false, ◌||◌, Option, none, some, List, [], ◌∷◌, ◌++◌, has, has-append,
  IsDistinct, arith, Bool-cases, inl, inr, if◌then◌else◌, sym, ◌∙◌,
}
use parallel_memory_allocato.Memlib.{null}
use parallel_memory_allocato.A2alloc.State.{Loc, free}
use parallel_memory_allocato.A2alloc.Links.{Segment, Links, IsLinked, both_ways, loc_eq, set_list}
use parallel_memory_allocato.A2alloc.Links.Segment.{
  eq_of_loc_eq, loc_eq_refl, Segment-frame, not_on, first_apart,
}
use parallel_memory_allocato.A2alloc.Links.Push.{some_inj}

-- `next` leads from `p` through `xs` to `q`.
abbrev pub Run : (ℕ → ℕ) → ℕ → List ℕ → ℕ → Type 0
Run next p [] q = p ≡ q
Run next p (x ∷ xs) q = (p ≡ x) × (x ≢ null) × Run next (next x) xs q

-- What the splice of the pages `fs` in front of the list of free pages does to the pointers.
pub record Splices (k k' : Links) (h p : ℕ) (fs : List ℕ) : Type 0 where
  pub run : Run k'.next p fs (k.head (free h))
  pub distinct : IsDistinct fs
  pub next_other : (a : ℕ) → has a fs ≡ false → k'.next a ≡ k.next a
  pub prev_other : (a : ℕ) → has a fs ≡ false → a ≢ k.head (free h) → k'.prev a ≡ k.prev a
  pub head_eq : (j : Loc) → k'.head j ≡ (if loc_eq (free h) j then p else k.head j)

-- The pages placed on the list.
abbrev pub spliced : (ℕ → Option Loc) → ℕ → List ℕ → ℕ → Option Loc
spliced place h fs a = if has a fs then some (free h) else place a

Segment-run :
    (next prev : ℕ → ℕ) (b b' p q : ℕ) (xs ys : List ℕ)
    → Run next p xs q
    → Segment next prev false b' q ys
    → Segment next prev false b p (xs ++ ys)
Segment-run next prev b b' p q [] [] r s = r ∙ s
Segment-run next prev b b' p q [] (y ∷ ys) r (e, nn, back, rest) = (r ∙ e, nn, (λ t. cc), rest)
Segment-run next prev b b' p q (x ∷ xs) ys (e, nn, rest) s =
    (e, nn, (λ t. cc), Segment-run next prev x b' (next x) q xs ys rest s)

append-IsDistinct :
    (xs ys : List ℕ)
    → IsDistinct xs
    → IsDistinct ys
    → ((a : ℕ) → has a xs ≡ true → has a ys ≡ false)
    → IsDistinct (xs ++ ys)
append-IsDistinct [] ys d e apart = e
append-IsDistinct (x ∷ xs) ys d e apart = (
  rw (has-append x xs ys, d.0) (apart x (ground arith)),
  append-IsDistinct xs ys d.1 e (λ a m. apart a (ground arith)),
)

module _ {k : Links} {lists : Loc → List ℕ} {place : ℕ → Option Loc} (v : IsLinked k lists place)
    (k' : Links) (h p : ℕ) (fs : List ℕ) (w : Splices k k' h p fs)
    (out : (a : ℕ) → has a fs ≡ true → place a ≡ none) where
  -- A page of a list is not one of the new pages.
  old_page : (j : Loc) (a : ℕ) → has a (lists j) ≡ true → has a fs ≡ false
  old_page j a m = elim (Bool-cases (has a fs)) [
    | inl t ↦ let e = out a t in let e' = v.placed j a m in cc
    | inr f ↦ f
  ]

  new_page : (j : Loc) (a : ℕ) → has a fs ≡ true → has a (lists j) ≡ false
  new_page j a m = not_on v a (out a m) j

  free_segment : Segment k'.next k'.prev false null p (fs ++ lists (free h))
  free_segment =
      Segment-run k'.next k'.prev null null p (k.head (free h)) fs (lists (free h)) w.run (
        Segment-frame _ _ _ _ false null (k.head (free h)) (lists (free h)) (v.segment (free h))
          (λ a m. w.next_other a (old_page (free h) a m)) (λ a m t. cc))

  other_segment :
      (j : Loc)
      → loc_eq (free h) j ≡ false
      → Segment k'.next k'.prev (both_ways j) null (k.head j) (lists j)
  other_segment j f =
      Segment-frame _ _ _ _ (both_ways j) null (k.head j) (lists j) (v.segment j)
        (λ a m. w.next_other a (old_page j a m))
        (λ a m t. w.prev_other a (old_page j a m) (first_apart v (free h) j a f m))

  spliced_listed :
      (j : Loc) (a : ℕ)
      → spliced place h fs a ≡ some j
      → has a (set_list lists (free h) (fs ++ lists (free h)) j) ≡ true
  spliced_listed j a e = elim (Bool-cases (has a fs)) [
    | inl t ↦
        let q : free h ≡ j = some_inj (rw t at e) in
        rw (← q, loc_eq_refl (free h), has-append a fs (lists (free h)), t) refl
    | inr f ↦
        let m = v.listed j a (rw f at e) in
        elim (Bool-cases (loc_eq (free h) j)) [
          | inl t ↦
              let q = eq_of_loc_eq (free h) j t in
              rw (t, has-append a fs (lists (free h)), f) (rw (← q) at m)
          | inr g ↦ rw g m
        ]
  ]

  spliced_placed :
      (j : Loc) (a : ℕ)
      → has a (set_list lists (free h) (fs ++ lists (free h)) j) ≡ true
      → spliced place h fs a ≡ some j
  spliced_placed j a m = elim (Bool-cases (loc_eq (free h) j)) [
    | inl t ↦
        let q = eq_of_loc_eq (free h) j t in
        let m' : (has a fs || has a (lists (free h))) ≡ true =
          sym (has-append a fs (lists (free h))) ∙ (rw t at m) in
        elim (Bool-cases (has a fs)) [
          | inl y ↦ rw (y, q) refl
          | inr n ↦ rw n (v.placed (free h) a (rw n at m') ∙ rw q refl)
        ]
    | inr f ↦ let m' : has a (lists j) ≡ true = rw f at m in rw (old_page j a m') (v.placed j a m')
  ]

  -- The lists are linked again.
  pub Splices-IsLinked :
      IsLinked k' (set_list lists (free h) (fs ++ lists (free h))) (spliced place h fs)
  Splices-IsLinked = record {
    segment = λ j. elim (Bool-cases (loc_eq (free h) j)) [
      | inl t ↦
          rw (← eq_of_loc_eq (free h) j t, w.head_eq (free h), loc_eq_refl (free h)) free_segment
      | inr f ↦ rw (w.head_eq j, f) (other_segment j f)
    ];
    distinct = λ j. elim (Bool-cases (loc_eq (free h) j)) [
      | inl t ↦ rw t (
          append-IsDistinct fs (lists (free h)) w.distinct (v.distinct (free h))
            (new_page (free h)))
      | inr f ↦ rw f (v.distinct j)
    ];
    placed = spliced_placed;
    listed = spliced_listed;
  }
