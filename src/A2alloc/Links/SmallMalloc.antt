-- ===== src/A2alloc/Links/SmallMalloc.antt =====
-- The page that `find_page` finds, and the lists of pages after a block is taken off its page.
use parallel_memory_allocato.Base.{ℕ, ◌≡◌, ◌≢◌, refl, true, false, Option, List, ◌==◌, arith, ok}
use parallel_memory_allocato.Memlib.{null}
use parallel_memory_allocato.A2alloc.Sizes.{superblock_page_size, global_heap_id}
use parallel_memory_allocato.A2alloc.State.{State, Loc, free, head, put_page}
use parallel_memory_allocato.A2alloc.Relocate.{pop_free}
use parallel_memory_allocato.A2alloc.Malloc.{take_free, find_page, sbrk}
use parallel_memory_allocato.A2alloc.Links.{links, IsLinked}
use parallel_memory_allocato.A2alloc.Links.Segment.{Segment-frame}
use parallel_memory_allocato.A2alloc.Blocks.Ops.{popped}
use parallel_memory_allocato.A2alloc.Links.FreshPage.{head_of_heaps, popped-heaps}

pub take_free_none : (s : State) (h : ℕ) → head s (free h) ≡ null → take_free s h ≡ (null, s)
unfolding take_free head
take_free_none s h e = let t : ((s.heaps h).free_pages == null) ≡ true = ground arith in rw t refl

pub take_free_some :
    (s : State) (h x : ℕ) → head s (free h) ≡ x → x ≢ null → take_free s h ≡ (x, pop_free s h)
unfolding take_free head
take_free_some s h x e nn =
    let f : ((s.heaps h).free_pages == null) ≡ false = ground arith in rw (f, e) refl

pub find_page_own :
    (s s' : State) (h x : ℕ) → take_free s h ≡ (x, s') → x ≢ null → find_page s h ≡ ok (x, s')
unfolding find_page
find_page_own s s' h x e nn = let f : (x == null) ≡ false = ground arith in rw (e, f) (rw f refl)

pub find_page_global :
    (s s' : State) (h x : ℕ)
    → take_free s h ≡ (null, s)
    → take_free s global_heap_id ≡ (x, s')
    → x ≢ null
    → find_page s h ≡ ok (x, s')
unfolding find_page
find_page_global s s' h x e g nn = let f : (x == null) ≡ false = ground arith in rw (e, g, f) refl

pub find_page_new :
    (s : State) (h : ℕ)
    → take_free s h ≡ (null, s)
    → take_free s global_heap_id ≡ (null, s)
    → find_page s h ≡ sbrk superblock_page_size s
unfolding find_page
find_page_new s h e g = rw (e, g) refl

popped-links :
    (s : State) (page a : ℕ)
    → (((popped s page).pages a).next ≡ (s.pages a).next)
      × (((popped s page).pages a).prev ≡ (s.pages a).prev)
unfolding popped put_page
popped-links s page a = ground arith

module _ (s : State) {lists : Loc → List ℕ} {place : ℕ → Option Loc}
    (v : IsLinked (links s) lists place) where
  pub popped-IsLinked : (page : ℕ) → IsLinked (links (popped s page)) lists place
  popped-IsLinked page = record {
    segment = λ l. rw (head_of_heaps s (popped s page) l (popped-heaps s page)) (
        Segment-frame _ _ _ _ _ null (head s l) (lists l) (v.segment l)
          (λ a m. (popped-links s page a).0) (λ a m t. (popped-links s page a).1));
    distinct = v.distinct;
    placed = v.placed;
    listed = v.listed;
  }
