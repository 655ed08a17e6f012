-- ===== src/Kheap/PageRefs.antt =====
-- `allocpageref`, `freepageref` and `remove_lists` of kheap.c.
pub mod Remove
use parallel_memory_allocato.Base.{
  ℕ, zero, suc, ◌+◌, ◌-◌, ◌/◌, ◌&&◌, Outcome, ok, stop, Stop, ◌>>=◌, ltb, leb, ◌==◌, if◌then◌else◌,
}
use parallel_memory_allocato.Memlib.{null, mem_sbrk}
use parallel_memory_allocato.Kheap.Sizes.{page_size, sizeof_pageref, n_sizes}
use parallel_memory_allocato.Kheap.State.{State, put_ref, set_sizebase}

-- `mem_sbrk` on the state.
unfoldable pub sbrk : ℕ → State → Outcome (ℕ × State)
unfolding mem_sbrk
sbrk n s = do (p, d) ← mem_sbrk n s.dseg; ok (p, record s { dseg = d })

-- `bzero` on a page that will hold page references.
unfoldable pub bzero_refs : ℕ → State → State
bzero_refs p s = record s {
  refs = λ a.
      if leb p a && ltb a (p + page_size)
      then record { next = 0; flist = 0; pageaddr_and_blocktype = 0; nfree = 0 }
      else s.refs a;
}

-- `tmp->next = tmp+1; tmp = tmp->next;`, and `tmp->next = NULL` behind the last round.
unfoldable pub link_refs : ℕ → ℕ → State → State
unfolding put_ref
link_refs zero tmp s = put_ref s tmp (record (s.refs tmp) { next = null })
link_refs (suc n) tmp s =
    link_refs n (tmp + sizeof_pageref)
      (put_ref s tmp (record (s.refs tmp) { next = tmp + sizeof_pageref }))

-- A page worth of page references at `ref`, all but the first on `fresh_refs`.
unfoldable pub fill_refs : ℕ → State → State
unfolding bzero_refs link_refs
fill_refs ref s =
    let fresh = ref + sizeof_pageref in
    let nrefs = page_size / sizeof_pageref - 1 in
    link_refs (nrefs - 1) fresh (record (bzero_refs ref s) { fresh_refs = fresh })

-- A new page of page references.
unfoldable pub new_refs : State → Outcome (ℕ × State)
unfolding sbrk fill_refs
new_refs s = do (ref, s1) ← sbrk page_size s; ok (ref, if ref == null then s1 else fill_refs ref s1)

unfoldable pub allocpageref : State → Outcome (ℕ × State)
unfolding new_refs
allocpageref s =
    if s.recycled_refs == null
    then if s.fresh_refs == null
      then new_refs s
      else ok (s.fresh_refs, record s { fresh_refs = (s.refs s.fresh_refs).next })
    else ok (s.recycled_refs, record s { recycled_refs = (s.refs s.recycled_refs).next })

unfoldable pub freepageref : State → ℕ → State
unfolding put_ref
freepageref s p = record (put_ref s p (record (s.refs p) { next = s.recycled_refs })) {
  recycled_refs = p;
}

-- The write through `guy`: to the list's head, or to `next` of the node before.
unfoldable pub set_link : State → ℕ → ℕ → ℕ → State
unfolding put_ref set_sizebase
set_link s t before p =
    if before == null
    then set_sizebase s t p
    else put_ref s before (record (s.refs before) { next = p })

-- The loop of `remove_lists`: `before` is the node that `guy` points into, NULL for the head, and
-- `cur` is `*guy`.
unfoldable pub remove_lists_from : ℕ → State → ℕ → ℕ → ℕ → ℕ → Outcome State
unfolding set_link
remove_lists_from zero s t pr before cur = stop Stop.out_of_fuel
remove_lists_from (suc n) s t pr before cur =
    let rest = remove_lists_from n s t pr cur (s.refs cur).next in
    if cur == null
    then ok s
    else if cur == pr
    then ok (set_link s t before (s.refs pr).next)
    else rest

-- `remove_lists`, with fuel for the length of the list and one more round.
unfoldable pub remove_lists : ℕ → State → ℕ → ℕ → Outcome State
unfolding remove_lists_from
remove_lists fuel s pr t =
    if ltb t n_sizes
    then remove_lists_from fuel s t pr null (s.sizebases t)
    else stop Stop.assert_failure
