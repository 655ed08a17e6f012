-- ===== src/Kheap/Checks.antt =====
-- The consistency checks of kheap.c that SLOW and SLOWER compile in. `fuel` bounds the length of the
-- lists that the loops walk.
use parallel_memory_allocato.Base.{
  ℕ, zero, suc, ◌+◌, ◌-◌, ◌%◌, ◌&&◌, Outcome, ok, stop, Stop, ◌>>=◌, ltb, leb, ◌==◌, if◌then◌else◌,
}
use parallel_memory_allocato.Memlib.{null}
use parallel_memory_allocato.Kheap.Sizes.{page_size, n_sizes, size_of}
use parallel_memory_allocato.Kheap.State.{State, pr_pageaddr, pr_blocktype}
use parallel_memory_allocato.Kheap.Subpage.{assert}

-- The loop of `checksubpage` over the free blocks from `fl` on. It returns `nfree`.
unfoldable pub check_blocks : ℕ → State → (prpage blktype fl nfree : ℕ) → Outcome ℕ
check_blocks zero s prpage blktype fl nfree = stop Stop.out_of_fuel
check_blocks (suc n) s prpage blktype fl nfree =
    let rest = check_blocks n s prpage blktype (s.cells fl) (nfree + 1) in
    if fl == null
    then ok nfree
    else assert (leb prpage fl && ltb fl (prpage + page_size))
        (assert ((fl - prpage) % size_of blktype == 0) rest)

-- The result of a C function that returns nothing.
abbrev pub Void : Type 0
Void = Unit

unfoldable pub checksubpage : ℕ → State → ℕ → Outcome Void
unfolding pr_pageaddr pr_blocktype check_blocks
checksubpage fuel s pr =
    let r = s.refs pr in
    if r.flist == null
    then assert (r.nfree == 0) (ok tt)
    else (check_blocks fuel s (pr_pageaddr r) (pr_blocktype r) r.flist 0 >>= λ nfree.
        assert (nfree == r.nfree) (ok tt))

-- The inner loop of `checksubpages`, from the page reference `pr` on. It returns `sc`.
unfoldable pub check_list : ℕ → ℕ → State → (pr sc : ℕ) → Outcome ℕ
unfolding checksubpage
check_list zero fuel s pr sc = stop Stop.out_of_fuel
check_list (suc n) fuel s pr sc =
    let rest = check_list n fuel s (s.refs pr).next (sc + 1) in
    if pr == null then ok sc else (checksubpage fuel s pr >>= λ u. rest)

-- The outer loop, for the `n` lists left from list `i` on.
unfoldable pub check_lists : ℕ → ℕ → ℕ → State → ℕ → Outcome ℕ
unfolding check_list
check_lists fuel zero i s sc = ok sc
check_lists fuel (suc n) i s sc = do
  sc ← check_list fuel fuel s (s.sizebases i) sc
  check_lists fuel n (i + 1) s sc

-- `checksubpages`, with the count `sc` as its result.
unfoldable pub checksubpages : ℕ → State → Outcome ℕ
unfolding check_lists
checksubpages fuel s = check_lists fuel n_sizes 0 s 0
