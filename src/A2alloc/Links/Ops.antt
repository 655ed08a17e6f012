-- ===== src/A2alloc/Links/Ops.antt =====
-- `push_front` and `unlink` of the state, as changes to the pointers between pages.
use parallel_memory_allocato.Base.{
  ℕ, ◌≡◌, ◌≢◌, refl, true, false, ◌&&◌, Option, none, some, List, ◌∷◌, ◌==◌, has, arith, Bool-cases,
  inl, inr, if◌then◌else◌, sym, ◌∙◌,
}
use parallel_memory_allocato.Memlib.{null}
use parallel_memory_allocato.A2alloc.State.{
  State, PageRef, Loc, free, complete, large, sized, head, set_head, put_page, push_front, unlink,
}
use parallel_memory_allocato.A2alloc.Links.{links, IsLinked, both_ways, loc_eq, set_list, set_place}
use parallel_memory_allocato.A2alloc.Links.Segment.{
  Segment-first, Segment-ne_null, not_on, ne_of_has,
}
use parallel_memory_allocato.A2alloc.Links.Push.{Pushes, Pushes-IsLinked}
use parallel_memory_allocato.A2alloc.Links.Unlink.{remove, next_ne}
use parallel_memory_allocato.A2alloc.Links.Remove.{Removes, Removes-IsLinked, first_iff}

pub set_head-pages : (s : State) (l : Loc) (p : ℕ) → (set_head s l p).pages ≡ s.pages
unfolding set_head
set_head-pages s (free h) p = refl
set_head-pages s (complete h) p = refl
set_head-pages s (large h) p = refl
set_head-pages s (sized h t) p = refl

pub head-set_head :
    (s : State) (l : Loc) (p : ℕ) (j : Loc)
    → head (set_head s l p) j ≡ (if loc_eq l j then p else head s j)
unfolding set_head head
head-set_head s (free h) p (free k) = ground arith
head-set_head s (free h) p (complete k) = ground arith
head-set_head s (free h) p (large k) = ground arith
head-set_head s (free h) p (sized k u) = ground arith
head-set_head s (complete h) p (free k) = ground arith
head-set_head s (complete h) p (complete k) = ground arith
head-set_head s (complete h) p (large k) = ground arith
head-set_head s (complete h) p (sized k u) = ground arith
head-set_head s (large h) p (free k) = ground arith
head-set_head s (large h) p (complete k) = ground arith
head-set_head s (large h) p (large k) = ground arith
head-set_head s (large h) p (sized k u) = ground arith
head-set_head s (sized h t) p (free k) = ground arith
head-set_head s (sized h t) p (complete k) = ground arith
head-set_head s (sized h t) p (large k) = ground arith
head-set_head s (sized h t) p (sized k u) = ground arith

pub head-put_page : (s : State) (p : ℕ) (r : PageRef) (j : Loc) → head (put_page s p r) j ≡ head s j
unfolding head put_page
head-put_page s p r (free k) = refl
head-put_page s p r (complete k) = refl
head-put_page s p r (large k) = refl
head-put_page s p r (sized k u) = refl

-- The two writes of `push_front` to pages.
back_written : State → ℕ → ℕ → State
back_written s first x =
    if first == null then s else put_page s first (record (s.pages first) { prev = x })

front_written : State → ℕ → ℕ → State
unfolding back_written
front_written s first x =
    let s1 = back_written s first x in put_page s1 x (record (s1.pages x) { next = first })

push_front-eq :
    (s : State) (l : Loc) (x : ℕ) → push_front s l x ≡ set_head (front_written s (head s l) x) l x
unfolding push_front front_written
push_front-eq s l x = refl

head-front_written :
    (s : State) (first x : ℕ) (j : Loc) → head (front_written s first x) j ≡ head s j
unfolding front_written
head-front_written s first x j = elim (Bool-cases (first == null)) [
  | inl t ↦ rw t (head-put_page s x _ j)
  | inr f ↦ rw f (head-put_page (put_page s first _) x _ j ∙ head-put_page s first _ j)
]

front_written-next :
    (s : State) (first x a : ℕ)
    → ((front_written s first x).pages a).next ≡ (if a == x then first else (s.pages a).next)
unfolding front_written back_written put_page
front_written-next s first x a = ground arith

front_written-prev_self :
    (s : State) (first x : ℕ)
    → x ≢ first
    → ((front_written s first x).pages x).prev ≡ (s.pages x).prev
unfolding front_written back_written put_page
front_written-prev_self s first x ne = ground arith

front_written-prev_first :
    (s : State) (first x : ℕ)
    → x ≢ first
    → first ≢ null
    → ((front_written s first x).pages first).prev ≡ x
unfolding front_written back_written put_page
front_written-prev_first s first x ne nn = ground arith

front_written-prev_other :
    (s : State) (first x a : ℕ)
    → a ≢ x
    → a ≢ first
    → ((front_written s first x).pages a).prev ≡ (s.pages a).prev
unfolding front_written back_written put_page
front_written-prev_other s first x a n m = ground arith

push_front-Pushes :
    (s : State) (l : Loc) (x : ℕ)
    → (both_ways l ≡ true → (s.pages x).prev ≡ null)
    → x ≢ head s l
    → Pushes (links s) (links (push_front s l x)) l x
push_front-Pushes s l x fresh ne =
    let w = front_written s (head s l) x in
    rw (push_front-eq s l x) (record {
      next_eq = λ a. rw (set_head-pages w l x) (front_written-next s (head s l) x a);
      head_eq = λ j. rw (head-set_head w l x j, head-front_written s (head s l) x j) refl;
      prev_new =
          λ t. rw (set_head-pages w l x) (front_written-prev_self s (head s l) x ne ∙ fresh t);
      prev_first =
          λ t nn. rw (set_head-pages w l x) (front_written-prev_first s (head s l) x ne nn);
      prev_other =
          λ a n m. rw (set_head-pages w l x) (front_written-prev_other s (head s l) x a n m);
    })

-- The write of `unlink` to the page behind.
after_written : State → ℕ → State
after_written s x =
    let after = (s.pages x).next in
    if after == null
    then s
    else put_page s after (record (s.pages after) { prev = (s.pages x).prev })

after_written-next : (s : State) (x a : ℕ) → ((after_written s x).pages a).next ≡ (s.pages a).next
unfolding after_written put_page
after_written-next s x a = ground arith

after_written-prev :
    (s : State) (x a : ℕ)
    → a ≢ null
    → ((after_written s x).pages a).prev
      ≡ (if a == (s.pages x).next then (s.pages x).prev else (s.pages a).prev)
unfolding after_written put_page
after_written-prev s x a nn = ground arith

head-after_written : (s : State) (x : ℕ) (j : Loc) → head (after_written s x) j ≡ head s j
unfolding after_written
head-after_written s x j = elim (Bool-cases ((s.pages x).next == null)) [
  | inl t ↦ rw t refl
  | inr f ↦ rw f (head-put_page s (s.pages x).next _ j)
]

-- The last write of `unlink`, to the head of the list or to the page before.
before_written : State → Loc → ℕ → State
before_written s l x =
    let before = (s.pages x).prev in
    if before == null
    then set_head s l (s.pages x).next
    else put_page s before (record (s.pages before) { next = (s.pages x).next })

unlink-eq : (s : State) (l : Loc) (x : ℕ) → unlink s l x ≡ before_written (after_written s x) l x
unfolding unlink after_written before_written
unlink-eq s l x = refl

before_written-next :
    (s : State) (l : Loc) (x a : ℕ)
    → a ≢ null
    → ((before_written s l x).pages a).next
      ≡ (if a == (s.pages x).prev then (s.pages x).next else (s.pages a).next)
unfolding before_written put_page
before_written-next s l x a nn = ground (arith, set_head-pages s l (s.pages x).next)

before_written-prev :
    (s : State) (l : Loc) (x a : ℕ) → ((before_written s l x).pages a).prev ≡ (s.pages a).prev
unfolding before_written put_page
before_written-prev s l x a = ground (arith, set_head-pages s l (s.pages x).next)

head-before_written :
    (s : State) (l : Loc) (x : ℕ) (j : Loc)
    → head (before_written s l x) j
      ≡ (if loc_eq l j && ((s.pages x).prev == null) then (s.pages x).next else head s j)
unfolding before_written
head-before_written s l x j = elim (Bool-cases ((s.pages x).prev == null)) [
  | inl t ↦ rw t (head-set_head s l (s.pages x).next j ∙ ground arith)
  | inr f ↦ rw f (head-put_page s (s.pages x).prev _ j ∙ ground arith)
]

unlink-Removes :
    (s : State) (l : Loc) (x : ℕ)
    → x ≢ null
    → (s.pages x).next ≢ x
    → ((s.pages x).prev == null) ≡ (head s l == x)
    → Removes (links s) (links (unlink s l x)) l x
unlink-Removes s l x nn ne first =
    let w = after_written s x in
    let nf : (x == (s.pages x).next) ≡ false = ground arith in
    let pw : (w.pages x).prev ≡ (s.pages x).prev = after_written-prev s x x nn ∙ rw nf refl in
    let nw : (w.pages x).next ≡ (s.pages x).next = after_written-next s x x in
    rw (unlink-eq s l x) (record {
      pages = record {
        next_eq =
            λ a n m. before_written-next w l x a m ∙ rw (pw, nw, after_written-next s x a) refl;
        prev_eq = λ a n m. before_written-prev w l x a ∙ after_written-prev s x a m;
      };
      head_eq =
          λ j. head-before_written w l x j ∙ rw (pw, nw, head-after_written s x j, first) refl;
    })

module _ (s : State) {lists : Loc → List ℕ} {place : ℕ → Option Loc}
    (v : IsLinked (links s) lists place) where
  -- In a state whose lists of pages are linked, `push_front` of a page that is on no list, whose
  -- `prev` is NULL if the list keeps `prev`, links the lists again, with the page the first of its
  -- list.
  pub push_front-IsLinked :
      (l : Loc) (x : ℕ)
      → place x ≡ none
      → x ≢ null
      → (both_ways l ≡ true → (s.pages x).prev ≡ null)
      → IsLinked
          (links (push_front s l x))
          (set_list lists l (x ∷ lists l))
          (set_place place x (some l))
  push_front-IsLinked l x out nn fresh =
      Pushes-IsLinked v (links (push_front s l x)) l x (push_front-Pushes s l x fresh ne) out nn
    where
      ne : x ≢ head s l
      ne e = elim (Segment-first _ _ _ _ _ (lists l) (v.segment l)) [
        | inl z ↦ nn (e ∙ z)
        | inr m ↦ ne_of_has (head s l) x (lists l) (not_on v x out l) m (sym e)
      ]

  -- In a state whose lists of pages are linked, `unlink` of a page from its list, which keeps
  -- `prev`, links the lists again, with that page on none of them.
  pub unlink-IsLinked :
      (l : Loc) (x : ℕ)
      → both_ways l ≡ true
      → has x (lists l) ≡ true
      → IsLinked
          (links (unlink s l x))
          (set_list lists l (remove x (lists l)))
          (set_place place x none)
  unlink-IsLinked l x both m =
      Removes-IsLinked v (links (unlink s l x)) l x
        (unlink-Removes s l x (Segment-ne_null _ _ _ _ _ x (lists l) (v.segment l) m)
          (next_ne _ _ _ _ _ x (lists l) (v.segment l) (v.distinct l) m) (first_iff v l x both m))
        both m
