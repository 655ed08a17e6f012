-- ===== src/A2alloc/Blocks.antt =====
-- The list of the free blocks of a page of small blocks: `flist` leads through the words `next` of
-- the free blocks to NULL, and `count` is their number.
pub mod Carve
pub mod Ops
pub mod Page
use parallel_memory_allocato.Base.{
  ℕ, zero, suc, ◌+◌, ◌*◌, ◌≡◌, ◌≢◌, List, [], ◌∷◌, Bool, true, false, has, length, IsDistinct,
  arith,
}
use parallel_memory_allocato.Memlib.{null}
use parallel_memory_allocato.A2alloc.State.{State}

-- `cells` leads from `p` through `bs` to NULL.
abbrev pub Chain : (ℕ → ℕ) → ℕ → List ℕ → Type 0
Chain cells p [] = p ≡ null
Chain cells p (b ∷ bs) = (p ≡ b) × (b ≢ null) × Chain cells (cells b) bs

-- `bs` are the free blocks of the page, in order.
pub record HasBlocks (s : State) (page : ℕ) (bs : List ℕ) : Type 0 where
  pub chain : Chain s.cells (s.pages page).flist bs
  pub counted : (s.pages page).count ≡ length bs
  pub distinct : IsDistinct bs

-- The blocks `i - 1`, …, `0` of a page whose blocks begin at `base`.
unfoldable pub blocks_down : ℕ → ℕ → ℕ → List ℕ
blocks_down base size zero = []
blocks_down base size (suc i) = (base + i * size) ∷ blocks_down base size i

-- A change that spares the blocks of the list leaves it as it is.
pub Chain-frame :
    (cells cells' : ℕ → ℕ) (p : ℕ) (bs : List ℕ)
    → Chain cells p bs
    → ((a : ℕ) → has a bs ≡ true → cells' a ≡ cells a)
    → Chain cells' p bs
Chain-frame cells cells' p [] c same = c
Chain-frame cells cells' p (b ∷ bs) (e, nn, rest) same = (
  e,
  nn,
  rw (same b (ground arith))
      (Chain-frame cells cells' (cells b) bs rest (λ a m. same a (ground arith))),
)
