-- ===== src/A2alloc/Links/FreePages.antt =====
-- The lists of free pages, whose `prev` pointers are not kept.
use parallel_memory_allocato.Base.{
  ℕ, ◌≡◌, ◌≢◌, refl, Bool, true, false, Option, none, some, List, [], ◌∷◌, ◌==◌, has, IsDistinct,
  arith, Bool-cases, inl, inr, if◌then◌else◌, ap,
}
use parallel_memory_allocato.Memlib.{null}
use parallel_memory_allocato.A2alloc.State.{
  State, PageRef, Loc, free, complete, large, sized, head, put_page, put_heap,
}
use parallel_memory_allocato.A2alloc.Relocate.{pop_free, push_free}
use parallel_memory_allocato.A2alloc.Links.{Segment, links, IsLinked, loc_eq, set_list, set_place}
use parallel_memory_allocato.A2alloc.Links.Segment.{
  Segment-frame, ne_of_has, eq_of_loc_eq, loc_eq_refl, elsewhere,
}
use parallel_memory_allocato.A2alloc.Links.Push.{Pushes, Pushes-IsLinked}

-- Without `prev` pointers a segment has no page before it.
Segment-start :
    (next prev : ℕ → ℕ) (b b' p : ℕ) (xs : List ℕ)
    → Segment next prev false b p xs
    → Segment next prev false b' p xs
Segment-start next prev b b' p [] g = g
Segment-start next prev b b' p (y ∷ ys) (e, ne, back, rest) = (e, ne, λ t. cc, rest)

pop_free-pages : (s : State) (h : ℕ) → (pop_free s h).pages ≡ s.pages
unfolding pop_free put_heap
pop_free-pages s h = refl

head-pop_free :
    (s : State) (h : ℕ) (j : Loc)
    → head (pop_free s h) j
      ≡ (if loc_eq (free h) j then (s.pages (head s (free h))).next else head s j)
unfolding pop_free put_heap head
head-pop_free s h (free k) = ground arith
head-pop_free s h (complete k) = ground arith
head-pop_free s h (large k) = ground arith
head-pop_free s h (sized k u) = ground arith

push_free-next :
    (s : State) (h x a : ℕ)
    → ((push_free s h x).pages a).next ≡ (if a == x then head s (free h) else (s.pages a).next)
unfolding push_free put_page put_heap head
push_free-next s h x a = ground arith

push_free-prev : (s : State) (h x a : ℕ) → ((push_free s h x).pages a).prev ≡ (s.pages a).prev
unfolding push_free put_page put_heap
push_free-prev s h x a = ground arith

head-push_free :
    (s : State) (h x : ℕ) (j : Loc)
    → head (push_free s h x) j ≡ (if loc_eq (free h) j then x else head s j)
unfolding push_free put_page put_heap head
head-push_free s h x (free k) = ground arith
head-push_free s h x (complete k) = ground arith
head-push_free s h x (large k) = ground arith
head-push_free s h x (sized k u) = ground arith

push_free-Pushes : (s : State) (h x : ℕ) → Pushes (links s) (links (push_free s h x)) (free h) x
push_free-Pushes s h x = record {
  next_eq = push_free-next s h x;
  head_eq = head-push_free s h x;
  prev_new = λ t. cc;
  prev_first = λ t nn. cc;
  prev_other = λ a n m. push_free-prev s h x a;
}

module _ (s : State) {lists : Loc → List ℕ} {place : ℕ → Option Loc}
    (v : IsLinked (links s) lists place) where
  -- The first page taken from a list of free pages.
  pub pop_free-IsLinked :
      (h x : ℕ) (xs : List ℕ)
      → lists (free h) ≡ x ∷ xs
      → IsLinked (links (pop_free s h)) (set_list lists (free h) xs) (set_place place x none)
  pop_free-IsLinked h x xs e = record {
    segment = λ j. elim (Bool-cases (loc_eq (free h) j)) [
      | inl t ↦ rw (← eq_of_loc_eq (free h) j t, loc_eq_refl (free h)) rest_segment
      | inr f ↦ rw (head-pop_free s h j, f) (kept _ _ _ (lists j) (v.segment j))
    ];
    distinct = λ j. elim (Bool-cases (loc_eq (free h) j)) [
      | inl t ↦ rw t (all_distinct.1)
      | inr f ↦ rw f (v.distinct j)
    ];
    placed = λ j a m. elim (Bool-cases (loc_eq (free h) j)) [
      | inl t ↦ rest_place j a t (rw t at m)
      | inr f ↦ other_place j a f (rw f at m)
    ];
    listed = λ j a q. elim (Bool-cases (loc_eq (free h) j)) [
      | inl t ↦ rw t (rest_listed j a t q)
      | inr f ↦ rw f (v.listed j a (still j a q).1)
    ];
  }
    where
      still : (j : Loc) (a : ℕ) → set_place place x none a ≡ some j → (a ≢ x) × (place a ≡ some j)
      still j a q = ground arith

      rest_listed :
          (j : Loc) (a : ℕ)
          → loc_eq (free h) j ≡ true
          → set_place place x none a ≡ some j
          → has a xs ≡ true
      rest_listed j a t q =
          let l = eq_of_loc_eq (free h) j t in
          let (ne, q') = still j a q in
          let m : has a (x ∷ xs) ≡ true = rw e at (v.listed (free h) a (rw (← l) at q')) in
          ground arith

      all_distinct : IsDistinct (x ∷ xs)
      all_distinct = rw e at (v.distinct (free h))

      here : has x (lists (free h)) ≡ true
      here = rw e (ground arith)

      kept :
          (both : Bool) (b p : ℕ) (ys : List ℕ)
          → Segment (links s).next (links s).prev both b p ys
          → Segment (links (pop_free s h)).next (links (pop_free s h)).prev both b p ys
      kept both b p ys g =
          Segment-frame _ _ _ _ _ _ _ ys g
            (λ a m. ap (λ (f : ℕ → PageRef). (f a).next) (pop_free-pages s h))
            (λ a m t. ap (λ (f : ℕ → PageRef). (f a).prev) (pop_free-pages s h))

      whole : Segment (links s).next (links s).prev false null (head s (free h)) (x ∷ xs)
      whole = rw e at (v.segment (free h))

      rest_segment :
          Segment
            (links (pop_free s h)).next
            (links (pop_free s h)).prev
            false
            null
            (head (pop_free s h) (free h))
            xs
      rest_segment =
          let (first, ne, back, rest) = whole in
          rw (head-pop_free s h (free h), loc_eq_refl (free h), first)
            (kept _ _ _ xs (Segment-start _ _ x null (s.pages x).next xs rest))

      rest_place :
          (j : Loc) (a : ℕ)
          → loc_eq (free h) j ≡ true
          → has a xs ≡ true
          → set_place place x none a ≡ some j
      rest_place j a t m =
          let l = eq_of_loc_eq (free h) j t in
          let m' : has a (lists (free h)) ≡ true = rw e (ground arith) in
          let ne = ne_of_has a x xs (all_distinct.0) m in ground (arith, v.placed (free h) a m', l)

      other_place :
          (j : Loc) (a : ℕ)
          → loc_eq (free h) j ≡ false
          → has a (lists j) ≡ true
          → set_place place x none a ≡ some j
      other_place j a f m =
          let ne = ne_of_has a x (lists j) (elsewhere v (free h) j x here f) m in
          ground (arith, v.placed j a m)

  -- A page that is on no list put in front of a list of free pages.
  pub push_free-IsLinked :
      (h x : ℕ)
      → place x ≡ none
      → x ≢ null
      → IsLinked
          (links (push_free s h x))
          (set_list lists (free h) (x ∷ lists (free h)))
          (set_place place x (some (free h)))
  push_free-IsLinked h x out nn =
      Pushes-IsLinked v (links (push_free s h x)) (free h) x (push_free-Pushes s h x) out nn
