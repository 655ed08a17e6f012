-- ===== src/A2alloc/Heap/Frame.antt =====
-- Which headers and words a change of the state leaves as they are.
use parallel_memory_allocato.Base.{
  ℕ, ◌<◌, ◌%◌, ◌≤◌, ◌≡◌, refl, ap, ◌∙◌, Bool, true, false, Bool-cases, inl, inr, ◌==◌,
  if◌then◌else◌, arith,
}
use parallel_memory_allocato.Memlib.{Dseg, null}
use parallel_memory_allocato.A2alloc.Sizes.{
  superblock_page_size, page_of, n_sizes, blocktype_large, size_of,
}
use parallel_memory_allocato.A2alloc.State.{
  State, PageRef, Loc, free, complete, large, sized, head, set_head, put_page, put_cell, put_heap,
  push_front, unlink,
}
use parallel_memory_allocato.A2alloc.Relocate.{pop_free, push_free}
use parallel_memory_allocato.A2alloc.Heap.{page_data, room_of, room}

-- The change leaves the data of the pages that `f` does not name, and the words in them, and the
-- segment's start stays, and its end does not fall and stays at a page.
pub record Touches (f : ℕ → Bool) (s s' : State) : Type 0 where
  pub data_eq : (a : ℕ) → f a ≡ false → page_data (s'.pages a) ≡ page_data (s.pages a)
  pub cells_eq : (b : ℕ) → f (page_of b) ≡ false → s'.cells b ≡ s.cells b
  pub lo_eq : s'.dseg.dseg_lo ≡ s.dseg.dseg_lo
  pub grows : s.dseg.dseg_end ≤ s'.dseg.dseg_end
  pub ended :
      s.dseg.dseg_end % superblock_page_size ≡ 0 → s'.dseg.dseg_end % superblock_page_size ≡ 0

abbrev pub nothing : ℕ → Bool
nothing a = false

abbrev pub only : ℕ → ℕ → Bool
only x a = a == x

pub Touches-room :
    (f : ℕ → Bool) (s s' : State)
    → Touches f s s'
    → (a : ℕ) → f (page_of a) ≡ false
    → room s' a ≡ room s a
Touches-room f s s' t a o = ap room_of (t.data_eq (page_of a) o)

-- The blocks that `alive` names have the room that they had.
abbrev pub KeepsRoom : (ℕ → Bool) → State → State → Type 0
KeepsRoom alive s s' = (a : ℕ) → alive a ≡ true → room s' a ≡ room s a

-- In a page of a size class each block has the size of the class.
pub room_small :
    (s : State) (page t a : ℕ)
    → t < n_sizes
    → (s.pages page).block_type ≡ t
    → page_of a ≡ page
    → room s a ≡ size_of t
room_small s page t a lt e q =
    let f : (t == blocktype_large) ≡ false = ground arith in rw (q, e, f) refl

pub Touches-refl : (f : ℕ → Bool) (s : State) → Touches f s s
Touches-refl f s = record {
  data_eq = λ a o. refl;
  cells_eq = λ b o. refl;
  lo_eq = refl;
  grows = omega arith;
  ended = λ e. e;
}

pub Touches-trans :
    (f : ℕ → Bool) (s s' s2 : State) → Touches f s s' → Touches f s' s2 → Touches f s s2
Touches-trans f s s' s2 t u = record {
  data_eq = λ a o. u.data_eq a o ∙ t.data_eq a o;
  cells_eq = λ b o. u.cells_eq b o ∙ t.cells_eq b o;
  lo_eq = u.lo_eq ∙ t.lo_eq;
  grows = omega (arith, t.grows, u.grows);
  ended = λ e. u.ended (t.ended e);
}

pub Touches-any : (f : ℕ → Bool) (s s' : State) → Touches nothing s s' → Touches f s s'
Touches-any f s s' t = record {
  data_eq = λ a o. t.data_eq a refl;
  cells_eq = λ b o. t.cells_eq b refl;
  lo_eq = t.lo_eq;
  grows = t.grows;
  ended = t.ended;
}

pub Touches-weaken :
    (f g : ℕ → Bool) (s s' : State)
    → ((a : ℕ) → g a ≡ false → f a ≡ false)
    → Touches f s s'
    → Touches g s s'
Touches-weaken f g s s' sub t = record {
  data_eq = λ a o. t.data_eq a (sub a o);
  cells_eq = λ b o. t.cells_eq b (sub (page_of b) o);
  lo_eq = t.lo_eq;
  grows = t.grows;
  ended = t.ended;
}

-- Every change but `mem_sbrk` leaves the segment.
pub Touches-intro :
    (f : ℕ → Bool) (s s' : State)
    → ((a : ℕ) → f a ≡ false → page_data (s'.pages a) ≡ page_data (s.pages a))
    → ((b : ℕ) → f (page_of b) ≡ false → s'.cells b ≡ s.cells b)
    → s'.dseg ≡ s.dseg
    → Touches f s s'
Touches-intro f s s' d c e = record {
  data_eq = d;
  cells_eq = c;
  lo_eq = ap (λ (d : Dseg). d.dseg_lo) e;
  grows = rw e (omega arith);
  ended = λ h. rw e h;
}

pub put_page-Touches : (s : State) (x : ℕ) (r : PageRef) → Touches (only x) s (put_page s x r)
unfolding put_page
put_page-Touches s x r =
    Touches-intro (only x) s (put_page s x r) (λ a o. rw o refl) (λ b o. refl) refl

-- A write to the links of a page.
pub put_page-same :
    (s : State) (x : ℕ) (r : PageRef)
    → page_data r ≡ page_data (s.pages x)
    → Touches nothing s (put_page s x r)
unfolding put_page
put_page-same s x r e =
    Touches-intro nothing s (put_page s x r)
      (λ a o. elim (Bool-cases (a == x)) [
        | inl t ↦ let q : a ≡ x = ground arith in rw (t, q) e
        | inr g ↦ rw g refl
      ])
      (λ b o. refl) refl

pub put_cell-Touches : (s : State) (x b v : ℕ) → page_of b ≡ x → Touches (only x) s (put_cell s b v)
unfolding put_cell
put_cell-Touches s x b v e =
    Touches-intro (only x) s (put_cell s b v) (λ a o. refl)
      (λ c o. elim (Bool-cases (c == b)) [
        | inl t ↦
            let q : c ≡ b = ground arith in let h : page_of c ≡ x = rw q e in absurd (ground arith)
        | inr g ↦ rw g refl
      ])
      refl

pub set_head-Touches : (s : State) (l : Loc) (p : ℕ) → Touches nothing s (set_head s l p)
unfolding set_head put_heap
set_head-Touches s (free h) p = Touches-intro nothing s _ (λ a o. refl) (λ b o. refl) refl
set_head-Touches s (complete h) p = Touches-intro nothing s _ (λ a o. refl) (λ b o. refl) refl
set_head-Touches s (large h) p = Touches-intro nothing s _ (λ a o. refl) (λ b o. refl) refl
set_head-Touches s (sized h t) p = Touches-intro nothing s _ (λ a o. refl) (λ b o. refl) refl

pub set_next-Touches :
    (s : State) (x v : ℕ) → Touches nothing s (put_page s x (record (s.pages x) { next = v }))
set_next-Touches s x v = put_page-same s x _ refl

pub set_prev-Touches :
    (s : State) (x v : ℕ) → Touches nothing s (put_page s x (record (s.pages x) { prev = v }))
set_prev-Touches s x v = put_page-same s x _ refl

-- A write to the page at `x`, if that is not NULL.
pub set_prev_if-Touches :
    (s : State) (x v : ℕ)
    → Touches nothing s (if x == null then s else put_page s x (record (s.pages x) { prev = v }))
set_prev_if-Touches s x v = elim (Bool-cases (x == null)) [
  | inl t ↦ rw t (Touches-refl nothing s)
  | inr f ↦ rw f (set_prev-Touches s x v)
]

pub push_front-Touches : (s : State) (l : Loc) (x : ℕ) → Touches nothing s (push_front s l x)
unfolding push_front
push_front-Touches s l x =
    let s1 =
      if head s l == null
      then s
      else put_page s (head s l) (record (s.pages (head s l)) { prev = x }) in
    let s2 = put_page s1 x (record (s1.pages x) { next = head s l }) in
    Touches-trans nothing s s2 _
      (Touches-trans nothing s s1 s2 (set_prev_if-Touches s (head s l) x)
        (set_next-Touches s1 x (head s l)))
      (set_head-Touches s2 l x)

pub unlink-Touches : (s : State) (l : Loc) (x : ℕ) → Touches nothing s (unlink s l x)
unfolding unlink
unlink-Touches s l x =
    let s1 =
      if (s.pages x).next == null
      then s
      else put_page s (s.pages x).next
          (record (s.pages (s.pages x).next) { prev = (s.pages x).prev }) in
    let p = (s1.pages x).prev in
    Touches-trans nothing s s1 _ (set_prev_if-Touches s (s.pages x).next (s.pages x).prev)
      (elim (Bool-cases (p == null)) [
        | inl t ↦ rw t (set_head-Touches s1 l (s1.pages x).next)
        | inr f ↦ rw f (set_next-Touches s1 p (s1.pages x).next)
      ])

pub pop_free-Touches : (s : State) (h : ℕ) → Touches nothing s (pop_free s h)
unfolding pop_free put_heap
pop_free-Touches s h = Touches-intro nothing s _ (λ a o. refl) (λ b o. refl) refl

pub push_free-Touches : (s : State) (h x : ℕ) → Touches nothing s (push_free s h x)
unfolding push_free put_page put_heap
push_free-Touches s h x =
    Touches-intro nothing s _
      (λ a o. elim (Bool-cases (a == x)) [
        | inl t ↦ let q : a ≡ x = ground arith in rw (t, q) refl
        | inr g ↦ rw g refl
      ])
      (λ b o. refl) refl

pub push_front-dseg : (s : State) (l : Loc) (x : ℕ) → (push_front s l x).dseg ≡ s.dseg
unfolding push_front put_page set_head put_heap
push_front-dseg s (free h) x = ground arith
push_front-dseg s (complete h) x = ground arith
push_front-dseg s (large h) x = ground arith
push_front-dseg s (sized h t) x = ground arith
