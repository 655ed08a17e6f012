-- ===== src/A2alloc/Links.antt =====
-- The lists of pages that the heaps of a2alloc.c head, as lists of addresses: `next` leads from the
-- head through the pages of a list to NULL, `prev` leads back in all lists but those of free pages,
-- and no page is on two lists.
pub mod Segment
pub mod Push
pub mod Unlink
pub mod Remove
pub mod Ops
pub mod Moves
pub mod FreePages
pub mod Relocate
pub mod Retire
pub mod SmallFree
pub mod FreshPage
pub mod SmallMalloc
pub mod LargeMalloc
pub mod Splice
mod Tests
use parallel_memory_allocato.Base.{
  ℕ, ◌≡◌, ◌≢◌, Bool, true, false, ◌&&◌, Option, none, some, List, [], ◌∷◌, ◌==◌, if◌then◌else◌, has,
  IsDistinct,
}
use parallel_memory_allocato.Memlib.{null}
use parallel_memory_allocato.A2alloc.State.{State, Loc, free, complete, large, sized}
use parallel_memory_allocato.A2alloc.State

-- `next` leads from `p` through `xs` to NULL, and, if `both`, `prev` leads back to `b`.
abbrev pub Segment : (next prev : ℕ → ℕ) → Bool → ℕ → ℕ → List ℕ → Type 0
Segment next prev both b p [] = p ≡ null
Segment next prev both b p (x ∷ xs) =
    (p ≡ x) × (x ≢ null) × (both ≡ true → prev x ≡ b) × Segment next prev both x (next x) xs

-- Every list but that of the free pages keeps its `prev` pointers.
abbrev pub both_ways : Loc → Bool
both_ways (free h) = false
both_ways (complete h) = true
both_ways (large h) = true
both_ways (sized h t) = true

abbrev pub loc_eq : Loc → Loc → Bool
loc_eq (free h) (free k) = h == k
loc_eq (complete h) (complete k) = h == k
loc_eq (large h) (large k) = h == k
loc_eq (sized h t) (sized k u) = h == k && t == u
loc_eq _ _ = false

-- The pointers between pages.
pub record Links : Type 0 where
  pub next : ℕ → ℕ
  pub prev : ℕ → ℕ
  pub head : Loc → ℕ

abbrev pub links : State → Links
links s = record { next = λ a. (s.pages a).next; prev = λ a. (s.pages a).prev; head = State.head s }

-- `lists` has the pages of each list, and `place` the list of each page.
pub record IsLinked (k : Links) (lists : Loc → List ℕ) (place : ℕ → Option Loc) : Type 0 where
  pub segment : (l : Loc) → Segment k.next k.prev (both_ways l) null (k.head l) (lists l)
  pub distinct : (l : Loc) → IsDistinct (lists l)
  pub placed : (l : Loc) (x : ℕ) → has x (lists l) ≡ true → place x ≡ some l
  pub listed : (l : Loc) (x : ℕ) → place x ≡ some l → has x (lists l) ≡ true

-- A list, and a page's list, replaced.
abbrev pub set_list : (Loc → List ℕ) → Loc → List ℕ → Loc → List ℕ
set_list lists l xs k = if loc_eq l k then xs else lists k

abbrev pub set_place : (ℕ → Option Loc) → ℕ → Option Loc → ℕ → Option Loc
set_place place x o a = if a == x then o else place a
