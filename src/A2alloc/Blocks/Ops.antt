-- ===== src/A2alloc/Blocks/Ops.antt =====
-- Blocks taken from the list of a page and put back.
use parallel_memory_allocato.Base.{
  ℕ, ◌+◌, ◌-◌, ◌≡◌, ◌≢◌, refl, ◌∙◌, List, [], ◌∷◌, false, has, arith, ok, stop, Stop,
}
use parallel_memory_allocato.Memlib.{null}
use parallel_memory_allocato.A2alloc.State.{State, put_cell, put_page}
use parallel_memory_allocato.A2alloc.Malloc.{pop_block}
use parallel_memory_allocato.A2alloc.Free.{push_block}
use parallel_memory_allocato.A2alloc.Links.Segment.{ne_of_has}
use parallel_memory_allocato.A2alloc.Blocks.{Chain-frame, HasBlocks}
use parallel_memory_allocato.A2alloc.Blocks.Carve.{put_cell-same, put_cell-other}

-- The page after its first free block is taken.
unfoldable pub popped : State → ℕ → State
popped s page =
    let r = s.pages page in
    put_page s page (record r { flist = s.cells r.flist; count = r.count - 1 })

popped-flist :
    (s : State) (page : ℕ) → ((popped s page).pages page).flist ≡ s.cells (s.pages page).flist
unfolding popped put_page
popped-flist s page = ground arith

popped-count :
    (s : State) (page : ℕ) → ((popped s page).pages page).count ≡ (s.pages page).count - 1
unfolding popped put_page
popped-count s page = ground arith

popped-cells : (s : State) (page : ℕ) → (popped s page).cells ≡ s.cells
unfolding popped put_page
popped-cells s page = refl

pub pop_block-popped :
    (s : State) (page : ℕ)
    → (s.pages page).flist ≢ null
    → pop_block s page ≡ ok ((s.pages page).flist, popped s page)
unfolding pop_block popped
pop_block-popped s page nn = ground arith

pub popped-HasBlocks :
    (s : State) (page b : ℕ) (rest : List ℕ)
    → HasBlocks s page (b ∷ rest)
    → HasBlocks (popped s page) page rest
popped-HasBlocks s page b rest v =
    let (e, nn, tail) = v.chain in
    let n = v.counted in
    record {
      chain = rw (popped-cells s page, popped-flist s page, e) tail;
      counted = popped-count s page ∙ omega (arith, n);
      distinct = v.distinct.1;
    }

-- What `pop_block` of a page with the free blocks `bs` does.
abbrev pub Pops : State → ℕ → List ℕ → Type 0
Pops s page [] = pop_block s page ≡ stop Stop.null_read
Pops s page (b ∷ rest) = (s' : State) × (pop_block s page ≡ ok (b, s')) × HasBlocks s' page rest

-- On a page that has free blocks `pop_block` returns the first one and leaves the others free; on
-- a page that has none it reads through NULL.
pub pop_block-Pops : (s : State) (page : ℕ) (bs : List ℕ) → HasBlocks s page bs → Pops s page bs
unfolding pop_block
pop_block-Pops s page [] v = let e = v.chain in ground arith
pop_block-Pops s page (b ∷ rest) v =
    let (e, nn, tail) = v.chain in
    (popped s page, rw (← e) (pop_block-popped s page (rw e nn)), popped-HasBlocks s page b rest v)

push_block-flist : (s : State) (page ptr : ℕ) → ((push_block s page ptr).pages page).flist ≡ ptr
unfolding push_block put_page
push_block-flist s page ptr = ground arith

push_block-count :
    (s : State) (page ptr : ℕ)
    → ((push_block s page ptr).pages page).count ≡ (s.pages page).count + 1
unfolding push_block put_page
push_block-count s page ptr = ground arith

push_block-cells :
    (s : State) (page ptr a : ℕ)
    → (push_block s page ptr).cells a ≡ (put_cell s ptr (s.pages page).flist).cells a
unfolding push_block put_page
push_block-cells s page ptr a = refl

-- `push_block` of a block that is not free makes it the first free block of the page.
pub push_block-HasBlocks :
    (s : State) (page ptr : ℕ) (bs : List ℕ)
    → HasBlocks s page bs
    → ptr ≢ null
    → has ptr bs ≡ false
    → HasBlocks (push_block s page ptr) page (ptr ∷ bs)
push_block-HasBlocks s page ptr bs v nn out =
    let first = (s.pages page).flist in
    let n = v.counted in
    record {
      chain = rw (push_block-flist s page ptr) (
        refl,
        nn,
        rw (push_block-cells s page ptr ptr, put_cell-same s ptr first)
            (Chain-frame s.cells _ first bs v.chain (λ a m.
              push_block-cells s page ptr a
              ∙ put_cell-other s ptr first a (ne_of_has a ptr bs out m))),
      );
      counted = push_block-count s page ptr ∙ omega (arith, n);
      distinct = (out, v.distinct);
    }
