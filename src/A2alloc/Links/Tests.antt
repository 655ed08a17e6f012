-- ===== src/A2alloc/Links/Tests.antt =====
-- The lists of pages at concrete states.
use parallel_memory_allocato.Base.{
  ℕ, Returns, ◌≡◌, refl, arith, Option, none, some, true, ◌||◌, List, [], ◌∷◌, ◌==◌, if◌then◌else◌,
  has, IsDistinct, Bool-cases, inl, inr,
}
use parallel_memory_allocato.Memlib.{null}
use parallel_memory_allocato.A2alloc.State.{
  State, Loc, head, free, complete, large, sized, set_head, put_heap, put_page, push_front, unlink,
}
use parallel_memory_allocato.A2alloc.Links.{
  Segment, IsLinked, links, both_ways, set_list, set_place,
}
use parallel_memory_allocato.A2alloc.Links.Unlink.{remove}
use parallel_memory_allocato.A2alloc.Links.Ops.{push_front-IsLinked, unlink-IsLinked}
use parallel_memory_allocato.A2alloc.Links.FreshPage.{malloc_page-IsLinked}
use parallel_memory_allocato.A2alloc.Links.Retire.{
  keeper, keeper_of, with_free, retire_page-IsLinked,
}
use parallel_memory_allocato.A2alloc.Links.Moves.{move_page_complete-IsLinked, reopen_page-IsLinked}
use parallel_memory_allocato.A2alloc.Malloc.{move_page_complete, malloc_page}
use parallel_memory_allocato.A2alloc.Free.{reopen_page, retire_page}
use parallel_memory_allocato.A2alloc.Tests.{blank}

-- Two pages on the list of large blocks of the first heap.
abbrev pub two_pages : State
two_pages = record blank {
  dseg = record { dseg_lo = 8192; dseg_end = 24576; dseg_size = 1048576; page_size = 4096 };
  heaps = λ i. record (blank.heaps i) { large_pages = if i == 1 then 8192 else 0 };
  pages = λ a. record (blank.pages a) {
    next = if a == 8192 then 16384 else 0;
    prev = if a == 16384 then 8192 else 0;
  };
}

abbrev two_lists : Loc → List ℕ
two_lists (large h) = if h == 1 then 8192 ∷ 16384 ∷ [] else []
two_lists _ = []

abbrev two_places : ℕ → Option Loc
two_places a = if a == 8192 || a == 16384 then some (large 1) else none

two_pages-IsLinked : IsLinked (links two_pages) two_lists two_places
unfolding head
two_pages-IsLinked = record {
  segment = two_segments;
  distinct = two_distinct;
  placed = two_placed;
  listed = two_listed;
}
  where
    two_segments :
        (l : Loc)
        → Segment
            (links two_pages).next
            (links two_pages).prev
            (both_ways l)
            null
            ((links two_pages).head l)
            (two_lists l)
    two_segments (free h) = refl
    two_segments (complete h) = refl
    two_segments (large h) = elim (Bool-cases (h == 1)) [
      | inl t ↦ rw t (refl, omega arith, (λ e. refl), (refl, omega arith, (λ e. refl), refl))
      | inr f ↦ rw f refl
    ]
    two_segments (sized h t) = refl

    two_distinct : (l : Loc) → IsDistinct (two_lists l)
    two_distinct (free h) = tt
    two_distinct (complete h) = tt
    two_distinct (large h) = elim (Bool-cases (h == 1)) [
      | inl t ↦ rw t (refl, (refl, tt))
      | inr f ↦ rw f tt
    ]
    two_distinct (sized h t) = tt

    two_listed : (l : Loc) (x : ℕ) → two_places x ≡ some l → has x (two_lists l) ≡ true
    two_listed (free h) x m = ground arith
    two_listed (complete h) x m = ground arith
    two_listed (large h) x m = ground arith
    two_listed (sized h t) x m = ground arith

    two_placed : (l : Loc) (x : ℕ) → has x (two_lists l) ≡ true → two_places x ≡ some l
    two_placed (free h) x m = cc
    two_placed (complete h) x m = cc
    two_placed (large h) x m = ground arith
    two_placed (sized h t) x m = cc

push_front-IsLinked_example :
    IsLinked
      (links (push_front two_pages (sized 1 2) 24576))
      (set_list two_lists (sized 1 2) (24576 ∷ []))
      (set_place two_places 24576 (some (sized 1 2)))
push_front-IsLinked_example =
    push_front-IsLinked two_pages two_pages-IsLinked (sized 1 2) 24576 refl (omega arith)
      (λ t. refl)

unlink-IsLinked_example :
    IsLinked
      (links (unlink two_pages (large 1) 8192))
      (set_list two_lists (large 1) (remove 8192 (two_lists (large 1))))
      (set_place two_places 8192 none)
unlink-IsLinked_example = unlink-IsLinked two_pages two_pages-IsLinked (large 1) 8192 refl refl

-- A third page on the list of the third size class, and the same page with all blocks in use.
abbrev three_pages : State
three_pages = push_front two_pages (sized 1 2) 24576

abbrev three_lists : Loc → List ℕ
three_lists = set_list two_lists (sized 1 2) (24576 ∷ [])

abbrev three_places : ℕ → Option Loc
three_places = set_place two_places 24576 (some (sized 1 2))

three_pages_first : head three_pages (sized 1 2) ≡ 24576
unfolding push_front head set_head put_heap put_page
three_pages_first = refl

abbrev full_lists : Loc → List ℕ
full_lists =
    set_list (set_list three_lists (sized 1 2) (remove 24576 (three_lists (sized 1 2))))
      (complete 1) (24576 ∷ [])

abbrev full_places : ℕ → Option Loc
full_places = set_place (set_place three_places 24576 none) 24576 (some (complete 1))

move_page_complete-IsLinked_example :
    IsLinked (links (move_page_complete three_pages 1 2 24576)) full_lists full_places
move_page_complete-IsLinked_example =
    move_page_complete-IsLinked three_pages
      (push_front-IsLinked two_pages two_pages-IsLinked (sized 1 2) 24576 refl (omega arith)
        (λ t. refl))
      1 2 24576 three_pages_first refl

full_pages-IsLinked :
    IsLinked
      (links (push_front two_pages (complete 1) 24576))
      (set_list two_lists (complete 1) (24576 ∷ []))
      (set_place two_places 24576 (some (complete 1)))
full_pages-IsLinked =
    push_front-IsLinked two_pages two_pages-IsLinked (complete 1) 24576 refl (omega arith)
      (λ t. refl)

reopen_page-IsLinked_example :
    IsLinked
      (links (reopen_page (push_front two_pages (complete 1) 24576) 1 2 24576))
      (set_list
        (set_list
          (set_list two_lists (complete 1) (24576 ∷ []))
          (complete 1)
          (remove 24576 (24576 ∷ [])))
        (sized 1 2)
        (24576 ∷ []))
      (set_place
        (set_place (set_place two_places 24576 (some (complete 1))) 24576 none)
        24576
        (some (sized 1 2)))
reopen_page-IsLinked_example =
    reopen_page-IsLinked (push_front two_pages (complete 1) 24576) full_pages-IsLinked 1 2 24576
      refl

retire_page-IsLinked_example :
    Returns
      (λ s'.
        IsLinked
          (links s')
          (with_free
            (set_list three_lists (sized 1 2) (remove 24576 (three_lists (sized 1 2))))
            (keeper_of three_pages 1)
            24576)
          (set_place
            (set_place three_places 24576 none)
            24576
            (some (free (keeper_of three_pages 1)))))
      (retire_page three_pages 1 2 24576)
retire_page-IsLinked_example =
    retire_page-IsLinked three_pages
      (push_front-IsLinked two_pages two_pages-IsLinked (sized 1 2) 24576 refl (omega arith)
        (λ t. refl))
      1 2 24576 refl

-- The page of a state with one processor stays with its heap. With two processors and two free
-- pages there, it goes to the global heap.
stays : keeper_of three_pages 1 ≡ 1
unfolding keeper push_front head set_head put_heap put_page
stays = refl

goes : keeper 2 3 1 ≡ 0
unfolding keeper
goes = refl

malloc_page-IsLinked_example :
    Returns
      (λ r.
        IsLinked
          (links r.1)
          (set_list two_lists (sized 1 2) (24576 ∷ []))
          (set_place two_places 24576 (some (sized 1 2))))
      (malloc_page two_pages 1 2 24576)
malloc_page-IsLinked_example =
    malloc_page-IsLinked two_pages two_pages-IsLinked 1 2 24576 (omega arith) refl (omega arith)
