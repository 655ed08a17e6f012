-- ===== src/Kheap/Big.antt =====
-- `big_kmalloc` and `big_kfree` of kheap.c, for sizes below 2 ^ 31 - 4103, where the
-- arithmetic on ints does not wrap.
pub mod Search
use parallel_memory_allocato.Base.{
  ℕ, zero, suc, ◌+◌, ◌-◌, ◌*◌, ◌/◌, Option, none, some, Outcome, ok, stop, Stop, ◌>>=◌, ltb, ◌==◌,
  if◌then◌else◌,
}
use parallel_memory_allocato.Memlib.{null}
use parallel_memory_allocato.Kheap.Sizes.{page_size, smallest_subpage_size}
use parallel_memory_allocato.Kheap.State.{State, put_chunk}
use parallel_memory_allocato.Kheap.PageRefs.{sbrk}

-- The pages that a request and its header take.
unfoldable pub big_pages : ℕ → ℕ
big_pages sz = (sz + smallest_subpage_size + page_size - 1) / page_size

-- The branch of a chunk with more pages than needed: its last pages are cut off.
unfoldable pub carve : State → ℕ → ℕ → ℕ × State
unfolding put_chunk
carve s npages tmp =
    let left = (s.chunks tmp).npages - npages in
    let s1 = put_chunk s tmp (record (s.chunks tmp) { npages = left }) in
    let hdr = tmp + left * page_size in
    (hdr + smallest_subpage_size, put_chunk s1 hdr (record (s1.chunks hdr) { npages = npages }))

-- The branch of a chunk of the right size: it leaves the list, whose node before it is `prev`.
unfoldable pub take_chunk : State → ℕ → ℕ → ℕ × State
unfolding put_chunk
take_chunk s prev tmp =
    let after = (s.chunks tmp).next in
    (
      tmp + smallest_subpage_size,
      if prev == null
          then record s { bigchunks = after }
          else put_chunk s prev (record (s.chunks prev) { next = after }),
    )

-- The loop over the free chunks; `none` if nothing on the list is suitable.
unfoldable pub search_chunks : ℕ → State → ℕ → ℕ → ℕ → Outcome (Option (ℕ × State))
unfolding carve take_chunk
search_chunks zero s npages prev tmp = stop Stop.out_of_fuel
search_chunks (suc n) s npages prev tmp =
    let rest = search_chunks n s npages tmp (s.chunks tmp).next in
    if tmp == null
    then ok none
    else if ltb npages (s.chunks tmp).npages
    then ok (some (carve s npages tmp))
    else if (s.chunks tmp).npages == npages
    then ok (some (take_chunk s prev tmp))
    else rest

-- A new chunk from `mem_sbrk`.
unfoldable pub new_chunk : State → ℕ → Outcome (ℕ × State)
unfolding sbrk put_chunk
new_chunk s npages = do
  (hdr, s1) ← sbrk (npages * page_size) s
  ok (
    if hdr == null then null else hdr + smallest_subpage_size,
    if hdr == null then s1 else put_chunk s1 hdr (record (s1.chunks hdr) { npages = npages }),
  )

unfoldable pub big_kmalloc : ℕ → ℕ → State → Outcome (ℕ × State)
unfolding big_pages search_chunks new_chunk
big_kmalloc fuel sz s = do
  found ← search_chunks fuel s (big_pages sz) null s.bigchunks
  elim found [ none ↦ new_chunk s (big_pages sz) | some (p, s1) ↦ ok (p, s1) ]

unfoldable pub big_kfree : ℕ → State → State
unfolding put_chunk
big_kfree ptr s =
    let hdr = ptr - smallest_subpage_size in
    record (put_chunk s hdr (record (s.chunks hdr) { next = s.bigchunks })) { bigchunks = hdr }
