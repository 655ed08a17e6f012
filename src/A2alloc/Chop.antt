-- ===== src/A2alloc/Chop.antt =====
-- The loop of `large_free` that cuts a large block into pages.
use parallel_memory_allocato.Base.{ℕ, zero, suc, ◌+◌, ◌*◌, ◌≡◌, ◌≢◌, ◌≤◌, refl, ◌∙◌, arith}
use parallel_memory_allocato.Memlib.{null}
use parallel_memory_allocato.A2alloc.Sizes.{superblock_page_size, blocktype_free}
use parallel_memory_allocato.A2alloc.State.{State, put_page}
use parallel_memory_allocato.A2alloc.Free.{chop}

-- One round of the loop.
unfoldable pub chop_round : ℕ → ℕ → ℕ → State → State
chop_round page tail prpage s =
    let s1 = put_page s prpage (record (s.pages prpage) {
      prev = null;
      block_type = blocktype_free;
      heap_id = (s.pages page).heap_id;
    }) in
    put_page s1 tail (record (s1.pages tail) { next = prpage })

pub chop_round-pages :
    (page tail prpage a : ℕ) (s : State)
    → a ≢ tail
    → a ≢ prpage
    → (chop_round page tail prpage s).pages a ≡ s.pages a
unfolding chop_round put_page
chop_round-pages page tail prpage a s n m = ground arith

pub chop-suc :
    (n page tail prpage : ℕ) (s : State)
    → chop (suc n) page tail prpage s
      ≡ chop n page prpage (prpage + superblock_page_size) (chop_round page tail prpage s)
unfolding chop chop_round
chop-suc n page tail prpage s = refl

pub chop-zero : (page tail prpage : ℕ) (s : State) → chop 0 page tail prpage s ≡ (tail, s)
unfolding chop
chop-zero page tail prpage s = refl

-- The headers that the loop does not write, and the tail that it ends with.
chop_from :
    (n page tail prpage : ℕ) (s : State)
    → ((chop (suc n) page tail prpage s).0 ≡ prpage + n * superblock_page_size)
      × ((a : ℕ)
          → prpage + suc n * superblock_page_size ≤ a
          → a ≢ tail
          → (chop (suc n) page tail prpage s).1.pages a ≡ s.pages a)
chop_from zero page tail prpage s =
    rw
      (
        chop-suc 0 page tail prpage s,
        chop-zero page prpage (prpage + superblock_page_size) (chop_round page tail prpage s),
      )
      (omega arith, λ a h ne. chop_round-pages page tail prpage a s ne (omega arith))
chop_from (suc n) page tail prpage s =
    let (end, kept) =
      chop_from n page prpage (prpage + superblock_page_size) (chop_round page tail prpage s) in
    rw (chop-suc (suc n) page tail prpage s) (
      end ∙ omega arith,
      λ a h ne.
          kept a (omega arith) (omega arith)
          ∙ chop_round-pages page tail prpage a s ne (omega arith),
    )

-- The loop for a block of `n + 2` pages ends with the page before the block's last one as the tail
-- of the pages that it links, and leaves the header of the last page as it was.
pub chop_misses_last :
    (n page : ℕ) (s : State)
    → ((chop (suc n) page page page s).0 ≡ page + n * superblock_page_size)
      × ((chop (suc n) page page page s).1.pages (page + suc n * superblock_page_size)
          ≡ s.pages (page + suc n * superblock_page_size))
chop_misses_last n page s =
    let (tail, kept) = chop_from n page page page s in
    (tail, kept (page + suc n * superblock_page_size) (omega arith) (omega arith))
