-- ===== src/Kheap/Heap/Keep/Blocks.antt =====
-- The heap after a change of the free blocks of one page.
use parallel_memory_allocato.Base.{
  ℕ, ◌≡◌, ◌≢◌, refl, sym, ◌∙◌, ap, true, not, ◌&&◌, Bool-cases, inl, inr, some, List, ◌==◌, has,
  arith, if◌then◌else◌,
}
use parallel_memory_allocato.Kheap.Sizes.{frame, size_of}
use parallel_memory_allocato.Kheap.State.{State}
use parallel_memory_allocato.Kheap.PageRefs.Remove.{next}
use parallel_memory_allocato.Kheap.Heap.{
  Loc, sized, head, idle, small, ref_data, page_in, View, IsClass, Content, IsHeap, live, room,
  all_blocks, class_in,
}
use parallel_memory_allocato.Kheap.Heap.Listed.{same-IsListed}
use parallel_memory_allocato.Kheap.Heap.Keep.{
  KeepsRefs, KeepsRefs-IsSubpages, IsChunks-frame, SameBlock, KeepsRefs-SameBlock,
}

pub live_in_class :
    (s : State) (w : View) (pr t page a : ℕ)
    → frame a ≡ page
    → w.use_of page ≡ small pr
    → w.place pr ≡ some (sized t)
    → live s w a ≡ (has a (all_blocks page t) && not (has a (w.free_blocks pr)))
live_in_class s w pr t page a e u p = rw (e, u, p) refl

pub room_in_class :
    (s : State) (w : View) (pr page a : ℕ)
    → frame a ≡ page
    → w.use_of page ≡ small pr
    → room s w a ≡ size_of (class_in (ref_data (s.refs pr)))
room_in_class s w pr page a e u = rw (e, u) refl

-- The free blocks of a page reference replaced.
abbrev pub reblock : View → ℕ → List ℕ → View
reblock w pr bs = record w { free_blocks = λ a. if a == pr then bs else w.free_blocks a }

-- A change of a page reference of a size class and of the words of its page.
pub record Reblocks (s s' : State) (w : View) (pr t : ℕ) (bs : List ℕ) : Type 0 where
  pub valid : IsHeap s w
  pub here : w.place pr ≡ some (sized t)
  pub data_eq : (a : ℕ) → a ≢ pr → ref_data (s'.refs a) ≡ ref_data (s.refs a)
  pub next_eq : (a : ℕ) → next s' a ≡ next s a
  pub head_eq : (l : Loc) → head s' l ≡ head s l
  pub page_eq : page_in (ref_data (s'.refs pr)) ≡ page_in (ref_data (s.refs pr))
  pub cells_eq : (b a : ℕ) → a ≢ pr → w.use_of (frame b) ≡ small a → s'.cells b ≡ s.cells b
  pub class : IsClass s'.cells (ref_data (s'.refs pr)) w.use_of bs pr t
  pub chunks_eq : s'.chunks ≡ s.chunks
  pub bigchunks_eq : s'.bigchunks ≡ s.bigchunks
  pub dseg_eq : s'.dseg ≡ s.dseg

module _ {s s' : State} {w : View} {pr t : ℕ} {bs : List ℕ} (r : Reblocks s s' w pr t bs) where
  Reblocks-KeepsRefs : KeepsRefs s s' w (reblock w pr bs) idle idle pr
  Reblocks-KeepsRefs = record {
    uses = λ q. inl refl;
    old_free = λ a z. absurd (cc);
    old_refs = λ z. absurd (cc);
    new_own = λ a ne z. absurd (cc);
    data_eq = r.data_eq;
    place_eq = λ a ne. refl;
    blocks_eq = λ a ne. ground arith;
    cells_eq = r.cells_eq;
  }

  Reblocks-own :
      (l : Loc) → w.place pr ≡ some l → Content s'.cells (ref_data (s'.refs pr)) w.use_of bs pr l
  Reblocks-own l e = let q : sized t ≡ l = (let z = sym r.here ∙ e in cc) in rw (← q) r.class

  pub Reblocks-IsHeap : IsHeap s' (reblock w pr bs)
  Reblocks-IsHeap = record {
    subpages =
        KeepsRefs-IsSubpages s s' w (reblock w pr bs) idle idle pr Reblocks-KeepsRefs
          r.valid.subpages
          (same-IsListed r.valid.subpages.linked (next s') (head s') r.next_eq r.head_eq)
          (λ l e. (r.valid.subpages.home pr l e, rw (self pr) (Reblocks-own l e)))
          (λ page e. let (at, kept) = r.valid.subpages.owner page pr e in (r.page_eq ∙ at, kept));
    chunks =
        IsChunks-frame s s' w (reblock w pr bs) idle idle (λ q. inl refl) (λ h z. absurd (cc))
          (λ h z. absurd (cc)) r.chunks_eq r.bigchunks_eq refl r.valid.chunks;
    used = λ page. rw r.dseg_eq (r.valid.used page);
    ended = rw r.dseg_eq r.valid.ended;
  }
    where
      self : (x : ℕ) → (x == x) ≡ true
      self x = ground arith

  pub Reblocks-owned : w.use_of (page_in (ref_data (s.refs pr))) ≡ small pr
  Reblocks-owned = rw r.page_eq at r.class.owned

  pub Reblocks-SameBlock :
      (a : ℕ) → frame a ≢ page_in (ref_data (s.refs pr)) → SameBlock s w s' (reblock w pr bs) a
  Reblocks-SameBlock a ne =
      KeepsRefs-SameBlock s s' w (reblock w pr bs) idle idle pr Reblocks-KeepsRefs refl r.chunks_eq
        a refl (λ z. ne (sym (r.valid.subpages.owner (frame a) pr z).0))

  -- The blocks of its page.
  pub Reblocks-live :
      (a : ℕ)
      → frame a ≡ page_in (ref_data (s.refs pr))
      → live s' (reblock w pr bs) a
        ≡ (has a (all_blocks (page_in (ref_data (s.refs pr))) t) && not (has a bs))
  Reblocks-live a e =
      live_in_class s' (reblock w pr bs) pr t (page_in (ref_data (s.refs pr))) a e Reblocks-owned
        r.here
      ∙ rw (self pr) refl
    where
      self : (x : ℕ) → (x == x) ≡ true
      self x = ground arith

  pub Reblocks-live_before :
      (a : ℕ)
      → frame a ≡ page_in (ref_data (s.refs pr))
      → live s w a
        ≡ (has a (all_blocks (page_in (ref_data (s.refs pr))) t) && not (has a (w.free_blocks pr)))
  Reblocks-live_before a e =
      live_in_class s w pr t (page_in (ref_data (s.refs pr))) a e Reblocks-owned r.here

  pub Reblocks-room : (a : ℕ) → room s' (reblock w pr bs) a ≡ room s w a
  Reblocks-room a = elim (Bool-cases (frame a == page_in (ref_data (s.refs pr)))) [
    | inl y ↦
        let e : frame a ≡ page_in (ref_data (s.refs pr)) = ground arith in
        let c = r.valid.subpages.item pr (sized t) r.here in
        room_in_class s' (reblock w pr bs) pr _ a e Reblocks-owned
        ∙ ap size_of (r.class.class ∙ sym c.class)
        ∙ sym (room_in_class s w pr _ a e Reblocks-owned)
    | inr n ↦ (Reblocks-SameBlock a (ground arith)).1
  ]
