-- ===== src/A2alloc/Links/Unlink.antt =====
-- A page taken out of a segment of pages.
use parallel_memory_allocato.Base.{
  ℕ, ◌≡◌, ◌≢◌, refl, Bool, true, false, List, [], ◌∷◌, ◌==◌, has, IsDistinct, arith, Bool-cases,
  inl, inr, if◌then◌else◌, ◌⊎◌, sym, ◌∙◌,
}
use mathlib.Core.Path.{subst}
use parallel_memory_allocato.Memlib.{null}
use parallel_memory_allocato.A2alloc.Links.{Segment}
use parallel_memory_allocato.A2alloc.Links.Segment.{
  Segment-frame, Segment-first, Segment-ne_null, ne_of_has,
}

-- The list without the page.
unfoldable pub remove : ℕ → List ℕ → List ℕ
remove x [] = []
remove x (y ∷ ys) = if x == y then ys else y ∷ remove x ys

pub has_of_remove : (a x : ℕ) (xs : List ℕ) → has a (remove x xs) ≡ true → has a xs ≡ true
unfolding remove
has_of_remove a x [] m = m
has_of_remove a x (y ∷ ys) m = ground (arith, has_of_remove a x ys)

pub has-remove : (a x : ℕ) (xs : List ℕ) → a ≢ x → has a xs ≡ true → has a (remove x xs) ≡ true
unfolding remove
has-remove a x [] ne m = m
has-remove a x (y ∷ ys) ne m = ground (arith, has-remove a x ys)

pub remove_self : (x : ℕ) (xs : List ℕ) → IsDistinct xs → has x (remove x xs) ≡ false
unfolding remove
remove_self x [] d = refl
remove_self x (y ∷ ys) d = ground (arith, remove_self x ys d.1)

remove_out : (a x : ℕ) (xs : List ℕ) → has a xs ≡ false → has a (remove x xs) ≡ false
unfolding remove
remove_out a x [] o = refl
remove_out a x (y ∷ ys) o = ground (arith, remove_out a x ys)

pub remove-IsDistinct : (x : ℕ) (xs : List ℕ) → IsDistinct xs → IsDistinct (remove x xs)
unfolding remove
remove-IsDistinct x [] d = tt
remove-IsDistinct x (y ∷ ys) d = ground (arith, remove-IsDistinct x ys d.1, remove_out y x ys d.0)

has-cons : (a y : ℕ) (ys : List ℕ) → has a ys ≡ true → has a (y ∷ ys) ≡ true
has-cons a y ys m = ground arith

module _ (next prev : ℕ → ℕ) where
  -- The page behind a page of the segment is its end or on it.
  pub next_in :
      (both : Bool) (b p x : ℕ) (xs : List ℕ)
      → Segment next prev both b p xs
      → has x xs ≡ true
      → (next x ≡ null) ⊎ (has (next x) xs ≡ true)
  next_in both b p x [] s m = cc
  next_in both b p x (y ∷ ys) (e, ne, back, rest) m = elim (Bool-cases (x == y)) [
    | inl t ↦ elim (Segment-first next prev both y (next y) ys rest) [
      | inl z ↦ let q : x ≡ y = ground arith in inl (rw q z)
      | inr f ↦ let q : x ≡ y = ground arith in inr (has-cons (next x) y ys (rw q f))
    ]
    | inr f ↦ elim (next_in both y (next y) x ys rest (ground arith)) [
      | inl z ↦ inl z
      | inr g ↦ inr (ground arith)
    ]
  ]

  -- The page before a page of the segment is its start or on it.
  pub prev_in :
      (b p x : ℕ) (xs : List ℕ)
      → Segment next prev true b p xs
      → has x xs ≡ true
      → (p ≡ x) × (prev x ≡ b) ⊎ (p ≢ x) × (has (prev x) xs ≡ true)
  prev_in b p x [] s m = cc
  prev_in b p x (y ∷ ys) (e, ne, back, rest) m = elim (Bool-cases (x == y)) [
    | inl t ↦ let q : x ≡ y = ground arith in inl (e ∙ sym q, rw q (back refl))
    | inr f ↦ inr (
      ground arith,
      elim (prev_in y (next y) x ys rest (ground arith)) [
        | inl z ↦ rw z.1 (ground arith)
        | inr g ↦ let h = g.1 in ground arith
      ],
    )
  ]

  -- No page of the segment is the next of itself.
  pub next_ne :
      (both : Bool) (b p x : ℕ) (xs : List ℕ)
      → Segment next prev both b p xs
      → IsDistinct xs
      → has x xs ≡ true
      → next x ≢ x
  next_ne both b p x [] s d m = cc
  next_ne both b p x (y ∷ ys) (e, ne, back, rest) d m = elim (Bool-cases (x == y)) [
    | inl t ↦ λ z.
        let q : x ≡ y = ground arith in
        elim (Segment-first next prev both y (next y) ys rest) [
          | inl n ↦ let o : next y ≡ y = rw (← q) z in ne (sym o ∙ n)
          | inr f ↦ let g = d.0 in let o : next y ≡ y = rw (← q) z in cc
        ]
    | inr f ↦ next_ne both y (next y) x ys rest d.1 (ground arith)
  ]

-- What taking the page `x` out does to the pointers of the other pages.
pub record Unlinks (next prev next' prev' : ℕ → ℕ) (x : ℕ) : Type 0 where
  pub next_eq : (a : ℕ) → a ≢ x → a ≢ null → next' a ≡ (if a == prev x then next x else next a)
  pub prev_eq : (a : ℕ) → a ≢ x → a ≢ null → prev' a ≡ (if a == next x then prev x else prev a)

module _ {next prev next' prev' : ℕ → ℕ} (x : ℕ) (u : Unlinks next prev next' prev' x) where
  pub Unlinks-same :
      (both : Bool) (b p : ℕ) (xs : List ℕ)
      → has x xs ≡ false
      → has (prev x) xs ≡ false
      → has (next x) xs ≡ false
      → Segment next prev both b p xs
      → Segment next' prev' both b p xs
  Unlinks-same both b p xs o op on s =
      Segment-frame next prev next' prev' both b p xs s
        (λ a m. ground (
          arith,
          u.next_eq a (ne_of_has a x xs o m) (Segment-ne_null next prev both b p a xs s m),
          ne_of_has a (prev x) xs op m,
        ))
        (λ a m t. ground (
          arith,
          u.prev_eq a (ne_of_has a x xs o m) (Segment-ne_null next prev both b p a xs s m),
          ne_of_has a (next x) xs on m,
        ))

  -- The pointers of a page that is not taken out.
  before_eq :
      (b y : ℕ) (ys : List ℕ)
      → y ≢ null
      → y ≢ x
      → has y ys ≡ false
      → prev y ≡ b
      → (next x ≡ null) ⊎ (has (next x) ys ≡ true)
      → prev' y ≡ b
  before_eq b y ys ne yx o e (inl z) = ground (arith, u.prev_eq y)
  before_eq b y ys ne yx o e (inr m) = ground (arith, u.prev_eq y, ne_of_has (next x) y ys o m)

  after_eq :
      (y : ℕ) (ys : List ℕ)
      → y ≢ null
      → y ≢ x
      → has y ys ≡ false
      → (next y ≡ x) × (prev x ≡ y) ⊎ (next y ≢ x) × (has (prev x) ys ≡ true)
      → next' y ≡ (if next y == x then next x else next y)
  after_eq y ys ne yx o (inl (e, e')) = ground (arith, u.next_eq y)
  after_eq y ys ne yx o (inr (ne', m)) = ground (arith, u.next_eq y, ne_of_has (prev x) y ys o m)

  -- The segment without the page. Its start is not on it.
  pub Unlinks-Segment :
      (b p : ℕ) (xs : List ℕ)
      → Segment next prev true b p xs
      → has x xs ≡ true
      → IsDistinct xs
      → has b xs ≡ false
      → Segment next' prev' true b (if p == x then next x else p) (remove x xs)
  unfolding remove
  Unlinks-Segment b p [] s m d o = cc
  Unlinks-Segment b p (y ∷ ys) (e, ne, back, rest) m d o = elim (Bool-cases (x == y)) [
    | inl t ↦
        let q : y ≡ x = ground arith in
        let pq : (p == x) ≡ true = ground arith in
        rw (t, pq)
          (at_head b ys (rw (← q) (back refl)) (rw (← q) d.0) d.1 (ground arith)
            (subst (λ z. Segment next prev true z (next z) ys) q rest))
    | inr f ↦
        let pq : (p == x) ≡ false = ground arith in
        let mx : has x ys ≡ true = ground arith in
        rw (f, pq)
          (
            e,
            ne,
            λ t.
                before_eq b y ys ne (ground arith) d.0 (back refl)
                  (next_in next prev true y (next y) x ys rest mx),
            rw (after_eq y ys ne (ground arith) d.0 (prev_in next prev y (next y) x ys rest mx))
                (Unlinks-Segment y (next y) ys rest mx d.1 d.0),
          )
  ]
    where
      at_head :
          (b : ℕ) (ys : List ℕ)
          → prev x ≡ b
          → has x ys ≡ false
          → IsDistinct ys
          → has b ys ≡ false
          → Segment next prev true x (next x) ys
          → Segment next' prev' true b (next x) ys
      at_head b [] bx ox d o s = s
      at_head b (z ∷ zs) bx ox d o (e, ne, back, rest) = (
        e,
        ne,
        λ t. ground (arith, u.prev_eq z),
        (let n : next' z ≡ next z = ground (arith, u.next_eq z) in
            rw n (
              Unlinks-same true z (next z) zs (ground arith) (rw bx (ground arith)) (rw e d.0)
                rest)),
      )
