-- ===== src/A2alloc/Links/SmallFree.antt =====
-- The lists of pages after a block is back on its page.
use parallel_memory_allocato.Base.{ℕ, ◌≡◌, refl, Option, List, ◌==◌, arith, if◌then◌else◌}
use parallel_memory_allocato.Memlib.{null}
use parallel_memory_allocato.A2alloc.State.{
  State, Loc, free, complete, large, sized, head, put_page, put_cell,
}
use parallel_memory_allocato.A2alloc.Free.{push_block}
use parallel_memory_allocato.A2alloc.Links.{links, IsLinked}
use parallel_memory_allocato.A2alloc.Links.Segment.{Segment-frame}

push_block-next :
    (s : State) (page ptr a : ℕ) → ((push_block s page ptr).pages a).next ≡ (s.pages a).next
unfolding push_block put_page put_cell
push_block-next s page ptr a = ground arith

push_block-prev :
    (s : State) (page ptr a : ℕ) → ((push_block s page ptr).pages a).prev ≡ (s.pages a).prev
unfolding push_block put_page put_cell
push_block-prev s page ptr a = ground arith

head-push_block : (s : State) (page ptr : ℕ) (j : Loc) → head (push_block s page ptr) j ≡ head s j
unfolding push_block put_page put_cell head
head-push_block s page ptr (free k) = refl
head-push_block s page ptr (complete k) = refl
head-push_block s page ptr (large k) = refl
head-push_block s page ptr (sized k u) = refl

-- The list that a page of the heap `h` and the size class `t` belongs to if `count` of its blocks
-- are free.
abbrev pub home : ℕ → ℕ → ℕ → Loc
home h t count = if count == 0 then complete h else sized h t

module _ (s : State) {lists : Loc → List ℕ} {place : ℕ → Option Loc}
    (v : IsLinked (links s) lists place) where
  pub push_block-IsLinked : (page ptr : ℕ) → IsLinked (links (push_block s page ptr)) lists place
  push_block-IsLinked page ptr = record {
    segment = λ l. rw (head-push_block s page ptr l) (
        Segment-frame _ _ _ _ _ null (head s l) (lists l) (v.segment l)
          (λ a m. push_block-next s page ptr a) (λ a m t. push_block-prev s page ptr a));
    distinct = v.distinct;
    placed = v.placed;
    listed = v.listed;
  }
