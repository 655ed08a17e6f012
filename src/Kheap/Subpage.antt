-- ===== src/Kheap/Subpage.antt =====
-- `subpage_kmalloc` and `subpage_kfree` of kheap.c, with SLOW and SLOWER undefined. `fuel` bounds the
-- length of the lists of page references that the loops walk.
pub mod Blocks
pub mod Search
use parallel_memory_allocato.Base.{
  ℕ, zero, suc, ◌+◌, ◌-◌, ◌*◌, ◌/◌, ◌%◌, Bool, not, ◌&&◌, ◌||◌, Option, none, some, Outcome, ok,
  stop, Stop, ◌>>=◌, ltb, leb, ◌==◌, if◌then◌else◌,
}
use parallel_memory_allocato.Memlib.{null}
use parallel_memory_allocato.Kheap.Sizes.{page_size, n_sizes, size_of, mkpab, blocktype}
use parallel_memory_allocato.Kheap.State.{
  State, PageRef, pr_pageaddr, pr_blocktype, put_ref, put_cell, set_sizebase,
}
use parallel_memory_allocato.Kheap.PageRefs.{allocpageref, freepageref, remove_lists, sbrk}

-- An assertion before a result.
abbrev pub assert {ℓ} : {A : Type ℓ} → Bool → Outcome A → Outcome A
assert b m = if b then m else stop Stop.assert_failure

-- The asserts at the end of `doalloc`, for the counter and the block as they are then.
unfoldable pub doalloc_check : PageRef → ℕ → Bool
unfolding pr_pageaddr
doalloc_check r fla =
    if r.flist == null then r.nfree == 0 else ltb 0 r.nfree && ltb (fla - pr_pageaddr r) page_size

-- `doalloc`: the first free block of the page. The counter is read only where it is positive.
unfoldable pub doalloc : State → ℕ → Outcome (ℕ × State)
unfolding doalloc_check put_ref
doalloc s pr =
    let r = s.refs pr in
    let r' = record r { flist = s.cells r.flist; nfree = r.nfree - 1 } in
    if r.flist == null
    then stop Stop.null_read
    else assert (doalloc_check r' r.flist) (ok (r.flist, put_ref s pr r'))

-- The loop of `subpage_kmalloc` over the pages of the size class: the first with a free block, or
-- NULL.
unfoldable pub find_page : ℕ → State → ℕ → ℕ → Outcome ℕ
unfolding pr_blocktype
find_page zero s t pr = stop Stop.out_of_fuel
find_page (suc n) s t pr =
    let rest = find_page n s t (s.refs pr).next in
    if pr == null
    then ok null
    else assert (pr_blocktype (s.refs pr) == t) (if ltb 0 (s.refs pr).nfree then ok pr else rest)

-- The loop that links the blocks of a page, for the rounds left from block `i` on.
unfoldable pub link_blocks : ℕ → ℕ → ℕ → ℕ → State → State
unfolding put_cell
link_blocks zero i base size s = s
link_blocks (suc n) i base size s =
    link_blocks n (i + 1) base size (put_cell s (base + i * size) (base + (i - 1) * size))

-- From `pr->pageaddr_and_blocktype = …` to `sizebases[blktype] = pr;`.
unfoldable pub new_page : State → ℕ → ℕ → ℕ → State
unfolding mkpab put_ref put_cell link_blocks set_sizebase
new_page s t pr prpage =
    let n = page_size / size_of t in
    let r = s.refs pr in
    let r' = record r { pageaddr_and_blocktype = mkpab prpage t; nfree = n } in
    let s1 = put_cell (put_ref s pr r') prpage null in
    let s2 = link_blocks (n - 1) 1 prpage (size_of t) s1 in
    let r'' = record (s2.refs pr) { flist = prpage + (n - 1) * size_of t; next = s2.sizebases t } in
    set_sizebase (put_ref s2 pr r'') t pr

-- The address of the page of `pr`, from `mem_sbrk` if it has none; NULL if there is none left.
unfoldable pub page_address : State → ℕ → Outcome (ℕ × State)
unfolding pr_pageaddr sbrk
page_address s pr =
    let prpage = pr_pageaddr (s.refs pr) in if prpage == 0 then sbrk page_size s else ok (prpage, s)

-- The part of `subpage_kmalloc` for no page of the right size available.
unfoldable pub kmalloc_new : State → ℕ → Outcome (ℕ × State)
unfolding allocpageref page_address freepageref new_page doalloc
kmalloc_new s t = do
  (pr, s1) ← allocpageref s
  if pr == null then ok (null, s1) else (do
    (prpage, s2) ← page_address s1 pr
    if prpage == 0 then ok (null, freepageref s2 pr) else doalloc (new_page s2 t pr prpage) pr)

unfoldable pub subpage_kmalloc : ℕ → ℕ → State → Outcome (ℕ × State)
unfolding blocktype find_page doalloc kmalloc_new
subpage_kmalloc fuel sz s = do
  t ← blocktype sz
  pr ← find_page fuel s t (s.sizebases t)
  if pr == null then kmalloc_new s t else doalloc s pr

-- The inner search loop of `subpage_kfree`: the page reference of the list whose page holds `ptr`.
unfoldable pub find_owner_in : ℕ → State → ℕ → ℕ → Outcome ℕ
unfolding pr_pageaddr pr_blocktype
find_owner_in zero s ptr pr = stop Stop.out_of_fuel
find_owner_in (suc n) s ptr pr =
    let rest = find_owner_in n s ptr (s.refs pr).next in
    let prpage = pr_pageaddr (s.refs pr) in
    if pr == null
    then ok null
    else assert (ltb (pr_blocktype (s.refs pr)) n_sizes)
        (if leb prpage ptr && ltb ptr (prpage + page_size) then ok pr else rest)

-- The outer loop, for the `n` lists left from list `i` on.
unfoldable pub find_owner : ℕ → ℕ → ℕ → State → ℕ → Outcome ℕ
unfolding find_owner_in
find_owner fuel zero i s ptr = ok null
find_owner fuel (suc n) i s ptr =
    let rest = find_owner fuel n (i + 1) s ptr in
    find_owner_in fuel s ptr (s.sizebases i) >>= λ pr. if pr == null then rest else ok pr

-- `fill_deadbeef` on the words `next` of a block. Blocks and their sizes are multiples of 8, so a word
-- lies in the block or outside of it.
unfoldable pub fill_deadbeef : State → ℕ → ℕ → State
fill_deadbeef s ptr len = record s {
  cells = λ a. if leb ptr a && ltb a (ptr + len) then 16045690984833335023 else s.cells a;
}

-- The block goes back to its page, from `fill_deadbeef` to `pr->nfree++;`.
unfoldable pub put_back : State → ℕ → ℕ → State
unfolding put_cell put_ref fill_deadbeef pr_blocktype
put_back s pr ptr =
    let s1 = fill_deadbeef s ptr (size_of (pr_blocktype (s.refs pr))) in
    let r = s1.refs pr in
    put_ref (put_cell s1 ptr r.flist) pr (record r { flist = ptr; nfree = r.nfree + 1 })

-- The end of `subpage_kfree`: a page whose blocks are all free is recycled.
unfoldable pub recycle : ℕ → State → ℕ → ℕ → Outcome State
unfolding remove_lists freepageref
recycle fuel s pr t =
    let n = (s.refs pr).nfree in
    let full = page_size / size_of t in
    assert (leb n full)
      (if n == full then (remove_lists fuel s pr t >>= λ s1. ok (freepageref s1 pr)) else ok s)

-- `subpage_kfree`; `none` is its result -1.
unfoldable pub subpage_kfree : ℕ → ℕ → State → Outcome (Option State)
unfolding find_owner put_back recycle pr_pageaddr pr_blocktype
subpage_kfree fuel ptr s = do
  pr ← find_owner fuel n_sizes 0 s ptr
  let offset = ptr - pr_pageaddr (s.refs pr)
  let t = pr_blocktype (s.refs pr)
  if pr == null
      then ok none
      else if leb page_size offset || not (offset % size_of t == 0)
      then stop Stop.exit_failure
      else (recycle fuel (put_back s pr ptr) pr t >>= λ s1. ok (some s1))
