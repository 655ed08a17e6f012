-- ===== src/Kheap/Heap/NewPage.antt =====
-- `new_page`: a page for a page reference that is on no list.
pub mod Placed
use parallel_memory_allocato.Base.{
  ℕ, zero, suc, ◌+◌, ◌-◌, ◌*◌, ◌<◌, ◌≡◌, ◌≢◌, refl, sym, ap, ◌∙◌, Bool, true, false, not, ◌&&◌,
  Bool-cases, inl, inr, ◌⊎◌, none, some, ◌∷◌, has, arith, ◌==◌, if◌then◌else◌,
}
use parallel_memory_allocato.Memlib.{null}
use parallel_memory_allocato.Kheap.Sizes.{n_sizes, size_of, frame, mkpab}
use parallel_memory_allocato.Kheap.State.{
  State, PageRef, put_ref, put_cell, set_sizebase, pr_pageaddr, pr_blocktype,
}
use parallel_memory_allocato.Kheap.State.Pack.{mkpab_lem}
use parallel_memory_allocato.Kheap.Subpage.{new_page, link_blocks}
use parallel_memory_allocato.Kheap.PageRefs.Remove.{next}
use parallel_memory_allocato.Kheap.Heap.{
  Loc, fresh, recycled, sized, loc_eq, head, idle, refs, small, ref_data, page_in, class_in,
  capacity, all_blocks, IsClass, IsListed, View, IsPage, IsHeap, live, room,
}
use parallel_memory_allocato.Kheap.Heap.Listed.{set_list, set_place, push-IsListed}
use parallel_memory_allocato.Kheap.Heap.Keep.{
  Changes, Changes-to, KeepsRefs, KeepsRefs-IsSubpages, KeepsRefs-SameBlock, IsChunks-frame,
}
use parallel_memory_allocato.Kheap.Heap.Keep.Blocks.{live_in_class}
use parallel_memory_allocato.Kheap.Heap.Refs.{dead}
use parallel_memory_allocato.Kheap.Heap.Carve.{
  carved, carved-Chain, carved-other, all_blocks-length, all_blocks-IsDistinct, link_blocks-cells,
}

-- The page reference of a new page.
abbrev pub new_ref : State → ℕ → ℕ → ℕ → PageRef
new_ref s t pr page = record {
  next = s.sizebases t;
  flist = page + (capacity t - 1) * size_of t;
  pageaddr_and_blocktype = mkpab page t;
  nfree = capacity t;
}

link_blocks-refs_free :
    (n i base size : ℕ) (s : State) (f : ℕ → PageRef)
    → (link_blocks n i base size (record s { refs = f })).cells
      ≡ (link_blocks n i base size s).cells
unfolding link_blocks put_cell
link_blocks-refs_free zero i base size s f = refl
link_blocks-refs_free (suc n) i base size s f = link_blocks-refs_free n (i + 1) base size _ f

before_loop : State → ℕ → ℕ → ℕ → State
unfolding put_ref put_cell
before_loop s t pr page =
    put_cell
      (put_ref s pr
        (record (s.refs pr) { pageaddr_and_blocktype = mkpab page t; nfree = capacity t }))
      page null

after_loop : State → ℕ → ℕ → ℕ → State
unfolding before_loop
after_loop s t pr page = link_blocks (capacity t - 1) 1 page (size_of t) (before_loop s t pr page)

after_loop-cells :
    (s : State) (t pr page : ℕ)
    → after_loop s t pr page ≡ record (before_loop s t pr page) { cells = (carved s page t).cells }
unfolding after_loop before_loop carved put_ref put_cell
after_loop-cells s t pr page =
    link_blocks-cells (capacity t - 1) 1 page (size_of t) (before_loop s t pr page)
    ∙ ap (λ (f : ℕ → ℕ). record (before_loop s t pr page) { cells = f })
        (link_blocks-refs_free (capacity t - 1) 1 page (size_of t) (put_cell s page null) _)

new_page-eq :
    (s : State) (t pr page : ℕ)
    → new_page s t pr page ≡ (
        let s2 = after_loop s t pr page in
        set_sizebase
          (put_ref s2 pr (record (s2.refs pr) {
            flist = page + (capacity t - 1) * size_of t;
            next = s2.sizebases t;
          }))
          t
          pr)
unfolding new_page after_loop before_loop
new_page-eq s t pr page = refl

-- The state after `new_page`, field by field.
pub record Makes (s : State) (t pr page : ℕ) (s' : State) : Type 0 where
  pub ref_eq : s'.refs pr ≡ new_ref s t pr page
  pub other_ref : (a : ℕ) → a ≢ pr → s'.refs a ≡ s.refs a
  pub cells_eq : s'.cells ≡ (carved s page t).cells
  pub first_eq : s'.sizebases t ≡ pr
  pub other_base : (u : ℕ) → u ≢ t → s'.sizebases u ≡ s.sizebases u
  pub fresh_eq : s'.fresh_refs ≡ s.fresh_refs
  pub recycled_eq : s'.recycled_refs ≡ s.recycled_refs
  pub chunks_eq : s'.chunks ≡ s.chunks
  pub bigchunks_eq : s'.bigchunks ≡ s.bigchunks
  pub dseg_eq : s'.dseg ≡ s.dseg

pub new_page-Makes : (s : State) (t pr page : ℕ) → Makes s t pr page (new_page s t pr page)
unfolding put_ref set_sizebase before_loop put_cell
new_page-Makes s t pr page =
    rw (new_page-eq s t pr page, after_loop-cells s t pr page)
      (record {
        ref_eq = ground arith;
        other_ref = λ a ne. ground arith;
        cells_eq = refl;
        first_eq = ground arith;
        other_base = λ u ne. ground arith;
        fresh_eq = refl;
        recycled_eq = refl;
        chunks_eq = refl;
        bigchunks_eq = refl;
        dseg_eq = refl;
      })
