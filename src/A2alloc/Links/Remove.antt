-- ===== src/A2alloc/Links/Remove.antt =====
-- A page taken out of a list.
use parallel_memory_allocato.Base.{
  ℕ, ◌≡◌, ◌≢◌, true, false, ◌&&◌, Option, none, some, List, ◌==◌, has, arith, Bool-cases, inl, inr,
  if◌then◌else◌,
}
use parallel_memory_allocato.Memlib.{null}
use parallel_memory_allocato.A2alloc.State.{Loc}
use parallel_memory_allocato.A2alloc.Links.{Links, IsLinked, both_ways, loc_eq, set_list, set_place}
use parallel_memory_allocato.A2alloc.Links.Segment.{
  eq_of_loc_eq, loc_eq_refl, Segment-ne_null, ne_of_has, elsewhere, not_null,
}
use parallel_memory_allocato.A2alloc.Links.Unlink.{
  Unlinks, remove, has_of_remove, remove_self, has-remove, remove-IsDistinct, next_in, prev_in,
  Unlinks-same, Unlinks-Segment,
}

-- What an unlinking of the page `x` of the list `l` does to the pointers.
pub record Removes (k k' : Links) (l : Loc) (x : ℕ) : Type 0 where
  pub pages : Unlinks k.next k.prev k'.next k'.prev x
  pub head_eq :
      (j : Loc) → k'.head j ≡ (if loc_eq l j && (k.head l == x) then k.next x else k.head j)

module _ {k : Links} {lists : Loc → List ℕ} {place : ℕ → Option Loc}
    (v : IsLinked k lists place) where
  -- Where the pointers of a page of a list lead, seen from another list.
  next_apart :
      (l j : Loc) (x : ℕ)
      → has x (lists l) ≡ true
      → loc_eq l j ≡ false
      → has (k.next x) (lists j) ≡ false
  next_apart l j x m ne =
      elim (next_in k.next k.prev (both_ways l) null (k.head l) x (lists l) (v.segment l) m) [
        | inl z ↦ rw z (not_null v j)
        | inr g ↦ elsewhere v l j (k.next x) g ne
      ]

  prev_apart :
      (l j : Loc) (x : ℕ)
      → both_ways l ≡ true
      → has x (lists l) ≡ true
      → loc_eq l j ≡ false
      → has (k.prev x) (lists j) ≡ false
  prev_apart l j x both m ne =
      elim (prev_in k.next k.prev null (k.head l) x (lists l) (rw both at (v.segment l)) m) [
        | inl z ↦ rw z.1 (not_null v j)
        | inr g ↦ elsewhere v l j (k.prev x) g.1 ne
      ]

  -- The first page of a list is the one with no page before it.
  pub first_iff :
      (l : Loc) (x : ℕ)
      → both_ways l ≡ true
      → has x (lists l) ≡ true
      → (k.prev x == null) ≡ (k.head l == x)
  first_iff l x both m =
      elim (prev_in k.next k.prev null (k.head l) x (lists l) (rw both at (v.segment l)) m) [
        | inl z ↦ let e = z.0 in let e' = z.1 in ground arith
        | inr g ↦
            let n = Segment-ne_null _ _ _ _ _ (k.prev x) (lists l) (v.segment l) g.1 in
            let ne = g.0 in ground arith
      ]

  -- The page is then on no list.
  pub Removes-IsLinked :
      (k' : Links) (l : Loc) (x : ℕ)
      → Removes k k' l x
      → both_ways l ≡ true
      → has x (lists l) ≡ true
      → IsLinked k' (set_list lists l (remove x (lists l))) (set_place place x none)
  Removes-IsLinked k' l x w both m = record {
    segment = λ j. elim (Bool-cases (loc_eq l j)) [
      | inl t ↦
          rw (← eq_of_loc_eq l j t, w.head_eq l, loc_eq_refl l, both)
            (Unlinks-Segment x w.pages null (k.head l) (lists l) (rw both at (v.segment l)) m
              (v.distinct l) (not_null v l))
      | inr f ↦
          rw (w.head_eq j, f)
            (Unlinks-same x w.pages (both_ways j) null (k.head j) (lists j) (elsewhere v l j x m f)
              (prev_apart l j x both m f) (next_apart l j x m f) (v.segment j))
    ];
    distinct = λ j. elim (Bool-cases (loc_eq l j)) [
      | inl t ↦ rw t (remove-IsDistinct x (lists l) (v.distinct l))
      | inr f ↦ rw f (v.distinct j)
    ];
    placed = λ j a m'. elim (Bool-cases (loc_eq l j)) [
      | inl t ↦ left_place j a t (rw t at m')
      | inr f ↦ other_place j a f (rw f at m')
    ];
    listed = λ j a e. elim (Bool-cases (loc_eq l j)) [
      | inl t ↦ rw t (left_listed j a t e)
      | inr f ↦ rw f (v.listed j a (still j a e).1)
    ];
  }
    where
      still : (j : Loc) (a : ℕ) → set_place place x none a ≡ some j → (a ≢ x) × (place a ≡ some j)
      still j a e = ground arith

      left_listed :
          (j : Loc) (a : ℕ)
          → loc_eq l j ≡ true
          → set_place place x none a ≡ some j
          → has a (remove x (lists l)) ≡ true
      left_listed j a t e =
          let q = eq_of_loc_eq l j t in
          let (ne, e') = still j a e in has-remove a x (lists l) ne (v.listed l a (rw (← q) at e'))

      left_place :
          (j : Loc) (a : ℕ)
          → loc_eq l j ≡ true
          → has a (remove x (lists l)) ≡ true
          → set_place place x none a ≡ some j
      left_place j a t m' =
          let e = eq_of_loc_eq l j t in
          let ne = ne_of_has a x _ (remove_self x (lists l) (v.distinct l)) m' in
          ground (arith, v.placed l a (has_of_remove a x (lists l) m'))

      other_place :
          (j : Loc) (a : ℕ)
          → loc_eq l j ≡ false
          → has a (lists j) ≡ true
          → set_place place x none a ≡ some j
      other_place j a f m' =
          let ne = ne_of_has a x _ (elsewhere v l j x m f) m' in ground (arith, v.placed j a m')
