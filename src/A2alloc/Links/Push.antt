-- ===== src/A2alloc/Links/Push.antt =====
-- A page put at the front of a list.
use parallel_memory_allocato.Base.{
  ℕ, ◌≡◌, ◌≢◌, true, false, Option, none, some, List, [], ◌∷◌, ◌==◌, has, IsDistinct, arith,
  Bool-cases, inl, inr, if◌then◌else◌, ◌∙◌,
}
use parallel_memory_allocato.Memlib.{null}
use parallel_memory_allocato.A2alloc.State.{Loc}
use parallel_memory_allocato.A2alloc.Links.{
  Segment, Links, IsLinked, both_ways, loc_eq, set_list, set_place,
}
use parallel_memory_allocato.A2alloc.Links.Segment.{
  eq_of_loc_eq, loc_eq_refl, Segment-frame, ne_of_has, not_on, first_apart,
}

-- What a push of the page `x` on the list `l` does to the pointers. Other `prev` pointers than
-- those of the page and of the old first page stay.
pub record Pushes (k k' : Links) (l : Loc) (x : ℕ) : Type 0 where
  pub next_eq : (a : ℕ) → k'.next a ≡ (if a == x then k.head l else k.next a)
  pub head_eq : (j : Loc) → k'.head j ≡ (if loc_eq l j then x else k.head j)
  pub prev_new : both_ways l ≡ true → k'.prev x ≡ null
  pub prev_first : both_ways l ≡ true → k.head l ≢ null → k'.prev (k.head l) ≡ x
  pub prev_other : (a : ℕ) → a ≢ x → a ≢ k.head l → k'.prev a ≡ k.prev a

pub some_inj : {l j : Loc} → some l ≡ some j → l ≡ j
some_inj e = cc

module _ {k : Links} {lists : Loc → List ℕ} {place : ℕ → Option Loc}
    (v : IsLinked k lists place) where
  Push-segment :
      (k' : Links) (l : Loc) (x : ℕ)
      → Pushes k k' l x
      → place x ≡ none
      → x ≢ null
      → Segment k'.next k'.prev (both_ways l) null (k'.head l) (x ∷ lists l)
  Push-segment k' l x w out nn = (
    rw (w.head_eq l, loc_eq_refl l),
    nn,
    w.prev_new,
    rw (w.next_eq x, refl_test)
        (old_first (lists l) (not_on v x out l) (v.distinct l) (v.segment l)),
  )
    where
      refl_test : (x == x) ≡ true
      refl_test = ground arith

      old_first :
          (xs : List ℕ)
          → has x xs ≡ false
          → IsDistinct xs
          → Segment k.next k.prev (both_ways l) null (k.head l) xs
          → Segment k'.next k'.prev (both_ways l) x (k.head l) xs
      old_first [] o d s = s
      old_first (y ∷ ys) o d (e, ne, back, rest) =
          let not_x : (a : ℕ) → has a (y ∷ ys) ≡ true → (a == x) ≡ false =
            λ a m. ground (arith, ne_of_has a x (y ∷ ys) o m) in
          (
            e,
            ne,
            λ t. rw (← e) (w.prev_first t (ground arith)),
            rw (w.next_eq y, not_x y (ground arith))
                (Segment-frame _ _ _ _ (both_ways l) y (k.next y) ys rest
                  (λ a m. rw (w.next_eq a, not_x a (ground arith)))
                  (λ a m t.
                    w.prev_other a (ne_of_has a x (y ∷ ys) o (ground arith))
                      (λ e'. ne_of_has a y ys d.0 m (e' ∙ e)))),
          )

  Push-other :
      (k' : Links) (l j : Loc) (x : ℕ)
      → Pushes k k' l x
      → place x ≡ none
      → loc_eq l j ≡ false
      → Segment k'.next k'.prev (both_ways j) null (k'.head j) (lists j)
  Push-other k' l j x w out ne =
      rw (w.head_eq j, ne)
        (Segment-frame _ _ _ _ (both_ways j) null (k.head j) (lists j) (v.segment j)
          (λ a m.
            let n = ne_of_has a x (lists j) (not_on v x out j) m in
            let f : (a == x) ≡ false = ground arith in rw (w.next_eq a, f))
          (λ a m t.
            w.prev_other a (ne_of_has a x (lists j) (not_on v x out j) m)
              (first_apart v l j a ne m)))

  -- The page is then the first of its list, and on no other.
  pub Pushes-IsLinked :
      (k' : Links) (l : Loc) (x : ℕ)
      → Pushes k k' l x
      → place x ≡ none
      → x ≢ null
      → IsLinked k' (set_list lists l (x ∷ lists l)) (set_place place x (some l))
  Pushes-IsLinked k' l x w out nn = record {
    segment = λ j. elim (Bool-cases (loc_eq l j)) [
      | inl t ↦ rw (← eq_of_loc_eq l j t, loc_eq_refl l) (Push-segment k' l x w out nn)
      | inr f ↦ rw f (Push-other k' l j x w out f)
    ];
    distinct = λ j. elim (Bool-cases (loc_eq l j)) [
      | inl t ↦ rw t (not_on v x out l, v.distinct l)
      | inr f ↦ rw f (v.distinct j)
    ];
    placed = λ j a m. elim (Bool-cases (loc_eq l j)) [
      | inl t ↦ push_place j a t (rw t at m)
      | inr f ↦ other_place j a (rw f at m)
    ];
    listed = λ j a e. elim (Bool-cases (loc_eq l j)) [
      | inl t ↦ rw t (push_listed j a t e)
      | inr f ↦ rw f (other_listed j a f e)
    ];
  }
    where
      push_place :
          (j : Loc) (a : ℕ)
          → loc_eq l j ≡ true
          → has a (x ∷ lists l) ≡ true
          → set_place place x (some l) a ≡ some j
      push_place j a t m = let e = eq_of_loc_eq l j t in ground (arith, v.placed l a, e)

      push_listed :
          (j : Loc) (a : ℕ)
          → loc_eq l j ≡ true
          → set_place place x (some l) a ≡ some j
          → has a (x ∷ lists l) ≡ true
      push_listed j a t e = let q = eq_of_loc_eq l j t in ground (arith, v.listed l a)

      other_listed :
          (j : Loc) (a : ℕ)
          → loc_eq l j ≡ false
          → set_place place x (some l) a ≡ some j
          → has a (lists j) ≡ true
      other_listed j a f e = elim (Bool-cases (a == x)) [
        | inl t ↦
            let q : l ≡ j = some_inj (rw t at e) in
            let t' : loc_eq l j ≡ true = rw (← q) (loc_eq_refl l) in cc
        | inr g ↦ v.listed j a (rw g at e)
      ]

      other_place :
          (j : Loc) (a : ℕ) → has a (lists j) ≡ true → set_place place x (some l) a ≡ some j
      other_place j a m =
          ground (arith, v.placed j a m, ne_of_has a x (lists j) (not_on v x out j) m)
