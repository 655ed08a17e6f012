-- ===== src/A2alloc/Links/Retire.antt =====
-- `move_page_free` and the branch of `small_free` for a page whose blocks are all free: which list the
-- page ends up on.
use mathlib.Core.Path.{subst}
use parallel_memory_allocato.Base.{
  ℕ, ◌+◌, ◌≡◌, ◌≢◌, refl, ◌∙◌, ap, true, ◌&&◌, Bool, false, sym, Returns-map, Option, none, some,
  List, ◌∷◌, ◌==◌, has, arith, Bool-cases, inl, inr, if◌then◌else◌, Returns, ltb,
}
use parallel_memory_allocato.Memlib.{null}
use parallel_memory_allocato.A2alloc.Sizes.{global_heap_id, blocktype_free, free_page_threshold}
use parallel_memory_allocato.A2alloc.State.{
  State, Loc, free, sized, put_page, put_heap, set_head, unlink,
}
use parallel_memory_allocato.A2alloc.Relocate.{push_free, move_page_global, move_page_free}
use parallel_memory_allocato.A2alloc.Free.{retire_page}
use parallel_memory_allocato.A2alloc.Links.{Links, links, IsLinked, loc_eq, set_list, set_place}
use parallel_memory_allocato.A2alloc.Links.Segment.{Segment-ne_null, eq_of_loc_eq, loc_eq_refl}
use parallel_memory_allocato.A2alloc.Links.Unlink.{remove}
use parallel_memory_allocato.A2alloc.Links.Ops.{unlink-IsLinked}
use parallel_memory_allocato.A2alloc.Links.Moves.{put_page-IsLinked, taken_place}
use parallel_memory_allocato.A2alloc.Links.FreePages.{push_free-IsLinked}
use parallel_memory_allocato.A2alloc.Links.Relocate.{sent, send_page_global-eq, sent-IsLinked}

-- The heap that keeps a page that became free in the heap `h`, which then has `n` free pages: the
-- global heap, if there are two processors and more free pages than the threshold.
unfoldable pub keeper : (procs n h : ℕ) → ℕ
keeper procs n h = if ltb 1 procs && ltb free_page_threshold n then global_heap_id else h

-- The lists with the page `x` in front of the free pages of the heap `k`.
abbrev pub with_free : (Loc → List ℕ) → ℕ → ℕ → Loc → List ℕ
with_free lists k x = set_list lists (free k) (x ∷ lists (free k))

IsLinked-cong :
    {k : Links} {lists lists' : Loc → List ℕ} {place place' : ℕ → Option Loc}
    → ((l : Loc) → lists' l ≡ lists l)
    → ((x : ℕ) → place' x ≡ place x)
    → IsLinked k lists place
    → IsLinked k lists' place'
IsLinked-cong same_list same_place v = record {
  segment = λ l. rw (same_list l) (v.segment l);
  distinct = λ l. rw (same_list l) (v.distinct l);
  placed = λ l x m. same_place x ∙ v.placed l x (rw (same_list l) at m);
  listed = λ l x e. rw (same_list l) (v.listed l x (rw (same_place x) at e));
}

-- A list changed, and put back.
set_list_back :
    (lists : Loc → List ℕ) (l : Loc) (xs ys : List ℕ)
    → ys ≡ lists l
    → (j : Loc) → set_list (set_list lists l xs) l ys j ≡ lists j
set_list_back lists l xs ys e j = go (loc_eq l j) refl
  where
    go : (b : Bool) → loc_eq l j ≡ b → (if b then ys else if b then xs else lists j) ≡ lists j
    go true t = e ∙ ap lists (eq_of_loc_eq l j t)
    go false t = refl

set_place_same :
    (place : ℕ → Option Loc) (x : ℕ) (l : Loc)
    → place x ≡ some l
    → (a : ℕ) → set_place place x (some l) a ≡ place a
set_place_same place x l e a = elim (Bool-cases (a == x)) [
  | inl t ↦ let q : a ≡ x = ground arith in rw (q, e) (ground arith)
  | inr f ↦ rw f refl
]

with_free-cong :
    {lists lists' : Loc → List ℕ} (k x : ℕ)
    → ((l : Loc) → lists' l ≡ lists l)
    → (j : Loc) → with_free lists' k x j ≡ with_free lists k x j
with_free-cong k x same j = rw (same (free k), same j) refl

module _ (s : State) {lists : Loc → List ℕ} {place : ℕ → Option Loc}
    (v : IsLinked (links s) lists place) where
  -- The first free page of the heap `h` goes to the heap that keeps it.
  move_page_global-IsLinked :
      (h k x : ℕ) (xs : List ℕ)
      → keeper s.number_of_processors (s.heaps h).n_free_pages h ≡ k
      → lists (free h) ≡ x ∷ xs
      → Returns
          (λ s'.
            IsLinked
              (links s')
              (with_free (set_list lists (free h) xs) k x)
              (set_place place x (some (free k))))
          (move_page_global s h)
  unfolding move_page_global keeper
  move_page_global-IsLinked h k x xs kept e =
      let (first, nn, back, others) = rw e at (v.segment (free h)) in
      elim (Bool-cases
        (ltb 1 s.number_of_processors && ltb free_page_threshold (s.heaps h).n_free_pages)) [
          | inl t ↦
              rw (t, send_page_global-eq s h x first nn, ← kept)
                (rw t (
                  IsLinked-cong (λ l. refl) (λ a. ground arith)
                    (push_free-IsLinked (sent s h) (sent-IsLinked s v h x xs first e) global_heap_id
                      x (taken_place place x) nn)))
          | inr f ↦
              rw (f, ← kept)
                (rw f (
                  IsLinked-cong
                    (set_list_back lists (free h) xs _ (rw (loc_eq_refl (free h)) (sym e)))
                    (set_place_same place x (free h) (v.placed (free h) x (rw e (ground arith))))
                    v))
        ]

push_free-procs :
    (s : State) (h x : ℕ) → (push_free s h x).number_of_processors ≡ s.number_of_processors
unfolding push_free put_page put_heap
push_free-procs s h x = refl

push_free-count :
    (s : State) (h x : ℕ) → ((push_free s h x).heaps h).n_free_pages ≡ (s.heaps h).n_free_pages + 1
unfolding push_free put_page put_heap
push_free-count s h x = ground arith

-- Where the list of free pages of a heap gets one more page.
abbrev pub keeper_of : State → ℕ → ℕ
keeper_of s h = keeper s.number_of_processors ((s.heaps h).n_free_pages + 1) h

module _ (s : State) {lists : Loc → List ℕ} {place : ℕ → Option Loc}
    (v : IsLinked (links s) lists place) where
  push_free-moves :
      (h x : ℕ)
      → place x ≡ none
      → x ≢ null
      → Returns
          (λ s'.
            IsLinked
              (links s')
              (with_free lists (keeper_of s h) x)
              (set_place place x (some (free (keeper_of s h)))))
          (move_page_global (push_free s h x) h)
  push_free-moves h x out nn =
      let s2 = push_free s h x in
      Returns-map _ _ (move_page_global s2 h)
        (move_page_global-IsLinked s2 (push_free-IsLinked s v h x out nn) h (keeper_of s h) x
          (lists (free h)) (rw (push_free-procs s h x, push_free-count s h x) refl)
          (rw (loc_eq_refl (free h)) refl))
        (λ s' w.
          IsLinked-cong
            (λ j. sym (with_free-cong (keeper_of s h) x (set_list_back lists (free h) _ _ refl) j))
            (λ a. ground arith) w)

module _ (s : State) {lists : Loc → List ℕ} {place : ℕ → Option Loc}
    (v : IsLinked (links s) lists place) where
  -- A page that is on no list becomes the first free page of the heap that keeps it.
  move_page_free-IsLinked :
      (h x : ℕ)
      → place x ≡ none
      → x ≢ null
      → Returns
          (λ s'.
            IsLinked
              (links s')
              (with_free lists (keeper_of s h) x)
              (set_place place x (some (free (keeper_of s h)))))
          (move_page_free s x h)
  unfolding move_page_free put_page
  move_page_free-IsLinked h x out nn =
      let r = record (s.pages x) { prev = null; block_type = blocktype_free } in
      push_free-moves (put_page s x r) (put_page-IsLinked s v x r out) h x out nn

-- The changes of links leave the number of processors and the counts of free pages.
Counts : State → State → Type 0
Counts s s' =
    (s'.number_of_processors ≡ s.number_of_processors)
    × ((k : ℕ) → (s'.heaps k).n_free_pages ≡ (s.heaps k).n_free_pages)

set_head_sized-Counts : (s : State) (h t p : ℕ) → Counts s (set_head s (sized h t) p)
unfolding Counts set_head put_heap
set_head_sized-Counts s h t p = (refl, λ k. ground arith)

before-Counts :
    (s : State) (x v : ℕ)
    → Counts s (if x == null then s else put_page s x (record (s.pages x) { prev = v }))
unfolding Counts put_page
before-Counts s x v = elim (Bool-cases (x == null)) [
  | inl t ↦ rw t (refl, λ k. refl)
  | inr f ↦ rw f (refl, λ k. refl)
]

unlink_sized-Counts : (s : State) (h t page : ℕ) → Counts s (unlink s (sized h t) page)
unfolding Counts unlink
unlink_sized-Counts s h t page =
    let s1 =
      if (s.pages page).next == null
      then s
      else put_page s (s.pages page).next
          (record (s.pages (s.pages page).next) { prev = (s.pages page).prev }) in
    let p = (s1.pages page).prev in
    let (a, b) = before-Counts s (s.pages page).next (s.pages page).prev in
    let (a', b') = set_head_sized-Counts s1 h t (s1.pages page).next in
    elim (Bool-cases (p == null)) [
      | inl y ↦ rw y (a' ∙ a, λ k. b' k ∙ b k)
      | inr n ↦ rw n (unfold put_page in (a, b))
    ]

unlink_sized-keeper :
    (s : State) (h t page k : ℕ) → keeper_of (unlink s (sized h t) page) k ≡ keeper_of s k
unfolding Counts
unlink_sized-keeper s h t page k = let (a, b) = unlink_sized-Counts s h t page in rw (a, b k) refl

module _ (s : State) {lists : Loc → List ℕ} {place : ℕ → Option Loc}
    (v : IsLinked (links s) lists place) where
  -- In a state whose lists of pages are linked, `retire_page` of a page on the list of its size class
  -- returns. The page is then off that list and the first free page of its heap, or of the global
  -- heap if there are at least two processors and the heap's count of free pages, plus this page, is
  -- above the threshold. The other lists are as before, and all are linked.
  pub retire_page-IsLinked :
      (h t page : ℕ)
      → has page (lists (sized h t)) ≡ true
      → Returns
          (λ s'.
            IsLinked
              (links s')
              (with_free
                (set_list lists (sized h t) (remove page (lists (sized h t))))
                (keeper_of s h)
                page)
              (set_place (set_place place page none) page (some (free (keeper_of s h)))))
          (retire_page s h t page)
  unfolding retire_page put_page
  retire_page-IsLinked h t page m =
      let s1 = unlink s (sized h t) page in
      let r = record (s1.pages page) { block_type = blocktype_free } in
      let out = taken_place place page in
      let w = put_page-IsLinked s1 (unlink-IsLinked s v (sized h t) page refl m) page r out in
      subst
        (λ (k : ℕ).
          Returns
            (λ s'.
              IsLinked (links s')
                (with_free (set_list lists (sized h t) (remove page (lists (sized h t)))) k page)
                (set_place (set_place place page none) page (some (free k))))
            (retire_page s h t page))
        (unlink_sized-keeper s h t page h)
        (move_page_free-IsLinked (put_page s1 page r) w h page out
          (Segment-ne_null _ _ _ _ _ page (lists (sized h t)) (v.segment (sized h t)) m))
