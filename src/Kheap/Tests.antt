-- ===== src/Kheap/Tests.antt =====
-- Runs of the allocator on small inputs.
use parallel_memory_allocato.Base.{
  ℕ, suc, ◌+◌, ◌*◌, ◌%◌, ◌^◌, ◌<◌, ◌≡◌, refl, Outcome, ok, ◌>>=◌, none, some, List, [], ◌∷◌, ◌==◌,
  if◌then◌else◌, arith, Bool-cases, inl, inr, length,
}
use parallel_memory_allocato.Memlib.{null}
use parallel_memory_allocato.A2alloc.Blocks.{Chain}
use parallel_memory_allocato.Kheap.Sizes.{page_size, n_sizes}
use parallel_memory_allocato.Kheap.State.{State, PageRef, pr_blocktype}
use parallel_memory_allocato.Kheap.Big.{big_pages, big_kmalloc, big_kfree}
use parallel_memory_allocato.Kheap.Big.Search.{
  pages, first_fit, kmalloc_by, big_kmalloc-first_fit, big_kmalloc-big_kfree,
}
use parallel_memory_allocato.Kheap.PageRefs.{remove_lists}
use parallel_memory_allocato.Kheap.PageRefs.Remove.{next, IsWithout, remove_lists-remove}
use parallel_memory_allocato.Kheap.Subpage.{find_page, find_owner}
use parallel_memory_allocato.Kheap.Subpage.Search.{
  first_of, is_ready, owns, all_refs, find_page-first_of, find_owner-first_of,
}
use parallel_memory_allocato.Kheap.Api.Wrap.{mm_malloc_wraps_kheap}
use parallel_memory_allocato.Kheap.Api.{mm_init, mm_malloc, mm_free}

abbrev pub blank : State
blank = record {
  dseg = record { dseg_lo = 0; dseg_end = 1; dseg_size = 0; page_size = 0 };
  fresh_refs = 0;
  recycled_refs = 0;
  sizebases = λ _. 0;
  bigchunks = 0;
  refs = λ _. record { next = 0; flist = 0; pageaddr_and_blocktype = 0; nfree = 0 };
  cells = λ _. 0;
  chunks = λ _. record { npages = 0; next = 0 };
}

abbrev start : State
start = elim (mm_init 4096 20000 blank) [ none ↦ blank | some s ↦ s ]

runs : Outcome (ℕ × ℕ × ℕ × ℕ × ℕ)
unfolding mm_init mm_malloc mm_free
runs = do
  (p, s) ← mm_malloc 9 1000 start
  (q, s) ← mm_malloc 9 1000 s
  s ← mm_free 9 p s
  s ← mm_free 9 q s
  (r, s) ← mm_malloc 9 10 s
  (b, s) ← mm_malloc 9 9000 s
  s ← mm_free 9 b s
  (b', s) ← mm_malloc 9 4000 s
  ok (p, q, r, b, b')

runs_lem : runs ≡ ok (27648, 26624, 28656, 28680, 36872)
unfolding runs
runs_lem = refl

no_ref : PageRef
no_ref = record { next = 0; flist = 0; pageaddr_and_blocktype = 0; nfree = 0 }

-- A free chunk of one page before one of three.
abbrev two_chunks : State
two_chunks = record blank {
  bigchunks = 4096;
  chunks = λ a.
      if a == 4096 then record { npages = 1; next = 12288 } else record { npages = 3; next = 0 };
}

big_kmalloc-first_fit_example :
    big_kmalloc 3 5000 two_chunks
    ≡ kmalloc_by two_chunks
        (big_pages 5000)
        (first_fit (pages two_chunks) (big_pages 5000) null (4096 ∷ 12288 ∷ []))
big_kmalloc-first_fit_example =
    big_kmalloc-first_fit 3 two_chunks 5000 (4096 ∷ 12288 ∷ [])
      (refl, (λ z. omega arith), (refl, (λ z. omega arith), refl)) (omega arith)

one_page : pages two_chunks 4096 ≡ big_pages 100
unfolding big_pages
one_page = refl

big_kmalloc-big_kfree_example :
    (s' : State) × (big_kmalloc 1 100 (big_kfree 4104 two_chunks) ≡ ok (4104, s'))
    × (s'.bigchunks ≡ two_chunks.bigchunks)
    × ((c : ℕ) → pages s' c ≡ pages two_chunks c)
big_kmalloc-big_kfree_example = big_kmalloc-big_kfree 4104 two_chunks 0 100 (omega arith) one_page

-- Two pages of blocks of 32 bytes, the first without a free block.
abbrev two_pages : State
two_pages = record blank {
  sizebases = λ t. if t == 2 then 32 else 0;
  refs = λ a.
      if a == 32
      then record { next = 64; flist = 0; pageaddr_and_blocktype = 8194; nfree = 0 }
      else record { next = 0; flist = 12288; pageaddr_and_blocktype = 12290; nfree = 5 };
}

abbrev refs_of : ℕ → List ℕ
refs_of t = if t == 2 then 32 ∷ 64 ∷ [] else []

refs_of-Chain : (t : ℕ) → Chain (next two_pages) (two_pages.sizebases t) (refs_of t)
refs_of-Chain t = elim (Bool-cases (t == 2)) [
  | inl y ↦ rw y (refl, (λ z. omega arith), (refl, (λ z. omega arith), refl))
  | inr n ↦ rw n refl
]

refs_of-length : (t : ℕ) → length (refs_of t) < 3
refs_of-length t = elim (Bool-cases (t == 2)) [
  | inl y ↦ rw y (omega arith)
  | inr n ↦ rw n (omega arith)
]

two_pages_class : (pr : ℕ) → pr_blocktype (two_pages.refs pr) ≡ 2
unfolding pr_blocktype
two_pages_class pr = ground arith

remove_lists-remove_example :
    (s' : State) × (remove_lists 3 two_pages 64 2 ≡ ok s')
    × IsWithout two_pages 2 64 (32 ∷ 64 ∷ []) s'
remove_lists-remove_example =
    remove_lists-remove 3 two_pages 64 2 (32 ∷ 64 ∷ []) (omega arith) (refs_of-Chain 2)
      (refl, (refl, tt)) refl (omega arith)

find_page-first_of_example :
    find_page 3 two_pages 2 32 ≡ ok (first_of (is_ready two_pages) (32 ∷ 64 ∷ []))
find_page-first_of_example =
    find_page-first_of 3 two_pages 2 32 (32 ∷ 64 ∷ []) (refs_of-Chain 2)
      (λ pr m. two_pages_class pr) (omega arith)

find_owner-first_of_example :
    find_owner 3 n_sizes 0 two_pages 12320
    ≡ ok (first_of (owns two_pages 12320) (all_refs refs_of n_sizes 0))
find_owner-first_of_example =
    find_owner-first_of two_pages 12320 3 refs_of refs_of-Chain
      (λ t pr m. let z = two_pages_class pr in omega arith) refs_of-length

mm_malloc_wraps_kheap_example :
    (mm_malloc 9 (3000 + suc 0 * 2 ^ 32) blank ≡ mm_malloc 9 3000 blank)
    × (big_pages ((3000 + suc 0 * 2 ^ 32) % 2 ^ 32) * page_size < 3000 + suc 0 * 2 ^ 32)
mm_malloc_wraps_kheap_example = mm_malloc_wraps_kheap 9 3000 0 blank (omega arith) (omega arith)
