-- ===== src/Kheap/Heap/Keep.antt =====
-- The heap after a change of one page reference, or of the use of some pages.
pub mod Blocks
use parallel_memory_allocato.Base.{
  ℕ, ◌+◌, ◌*◌, ◌%◌, ◌≡◌, ◌≢◌, refl, sym, ◌∙◌, ap, true, not, ◌&&◌, Bool-cases, inl, inr, ◌⊎◌, some,
  List, ◌==◌, has, arith, if◌then◌else◌,
}
use parallel_memory_allocato.A2alloc.Blocks.{Chain-frame}
use parallel_memory_allocato.Kheap.Sizes.{page_size, frame, size_of}
use parallel_memory_allocato.Kheap.State.{State}
use parallel_memory_allocato.Kheap.PageRefs.Remove.{next}
use parallel_memory_allocato.Kheap.Heap.{
  Loc, fresh, recycled, sized, head, IsListed, Use, idle, refs, small, part, RefData, ref_data,
  page_in, View, IsClass, Content, IsSubpages, IsChunks, IsHeap, live, live_on, room, room_on,
  all_blocks, class_in,
}
use parallel_memory_allocato.Kheap.Heap.Layout.{frame_of_block}
use parallel_memory_allocato.Kheap.Heap.Listed.{same-IsListed}

-- Some pages change their use from `old` to `new`.
abbrev pub Changes : Use → Use → (ℕ → Use) → (ℕ → Use) → Type 0
Changes old new f g = (q : ℕ) → (g q ≡ f q) ⊎ (f q ≡ old) × (g q ≡ new)

pub Changes-to :
    {old new : Use} {f g : ℕ → Use}
    → Changes old new f g
    → (q : ℕ) (u : Use) → u ≢ old
    → f q ≡ u
    → g q ≡ u
Changes-to c q u ne e = elim (c q) [ inl same ↦ same ∙ e | inr z ↦ absurd (ne (sym e ∙ z.0)) ]

pub Changes-from :
    {old new : Use} {f g : ℕ → Use}
    → Changes old new f g
    → (q : ℕ) (u : Use) → u ≢ new
    → g q ≡ u
    → f q ≡ u
Changes-from c q u ne e = elim (c q) [ inl same ↦ sym same ∙ e | inr z ↦ absurd (ne (sym e ∙ z.1)) ]

pub IsClass-frame :
    (cells cells' : ℕ → ℕ) (r : RefData) (f g : ℕ → Use) (bs : List ℕ) (pr t : ℕ)
    → IsClass cells r f bs pr t
    → ((b : ℕ) → has b bs ≡ true → cells' b ≡ cells b)
    → g (page_in r) ≡ small pr
    → IsClass cells' r g bs pr t
IsClass-frame cells cells' r f g bs pr t c same owned = record {
  below = c.below;
  class = c.class;
  owned = owned;
  chain = Chain-frame cells cells' r.flist bs c.chain same;
  counted = c.counted;
  distinct = c.distinct;
  legit = c.legit;
}

pub Content-frame :
    (cells cells' : ℕ → ℕ) (r : RefData) (f g : ℕ → Use) (bs : List ℕ) (pr : ℕ) (l : Loc)
    → page_in r % page_size ≡ 0
    → (f (page_in r) ≡ small pr → g (page_in r) ≡ small pr)
    → ((b : ℕ) → f (frame b) ≡ small pr → cells' b ≡ cells b)
    → Content cells r f bs pr l
    → Content cells' r g bs pr l
Content-frame cells cells' r f g bs pr fresh aligned keep same (inl z) = inl z
Content-frame cells cells' r f g bs pr fresh aligned keep same (inr z) = inr (keep z)
Content-frame cells cells' r f g bs pr recycled aligned keep same (inl z) = inl z
Content-frame cells cells' r f g bs pr recycled aligned keep same (inr z) = inr (keep z)
Content-frame cells cells' r f g bs pr (sized t) aligned keep same c =
    IsClass-frame cells cells' r f g bs pr t c
      (λ b m. same b (rw (frame_of_block (page_in r) t b aligned c.below (c.legit b m)) c.owned))
      (keep c.owned)

pub page_in_aligned : (r : RefData) → page_in r % page_size ≡ 0
unfolding page_in frame
page_in_aligned r = omega arith

module _ (s s' : State) (w w' : View) (old new : Use) (pr : ℕ) where
  -- A change of the page reference `pr` and of the words of its page.
  pub record KeepsRefs : Type 0 where
    pub uses : Changes old new w.use_of w'.use_of
    pub old_free : (a : ℕ) → small a ≢ old
    pub old_refs : refs ≢ old
    pub new_own : (a : ℕ) → a ≢ pr → small a ≢ new
    pub data_eq : (a : ℕ) → a ≢ pr → ref_data (s'.refs a) ≡ ref_data (s.refs a)
    pub place_eq : (a : ℕ) → a ≢ pr → w'.place a ≡ w.place a
    pub blocks_eq : (a : ℕ) → a ≢ pr → w'.free_blocks a ≡ w.free_blocks a
    pub cells_eq : (b a : ℕ) → a ≢ pr → w.use_of (frame b) ≡ small a → s'.cells b ≡ s.cells b

  pub KeepsRefs-IsSubpages :
      KeepsRefs
      → IsSubpages s w
      → IsListed (next s') (head s') w'.lists w'.place
      → ((l : Loc)
          → w'.place pr ≡ some l
          → (w'.use_of (frame pr) ≡ refs)
            × Content s'.cells (ref_data (s'.refs pr)) w'.use_of (w'.free_blocks pr) pr l)
      → ((page : ℕ)
          → w'.use_of page ≡ small pr
          → (page_in (ref_data (s'.refs pr)) ≡ page) × (w'.use_of (frame pr) ≡ refs))
      → IsSubpages s' w'
  KeepsRefs-IsSubpages k v linked own owner = record {
    linked = linked;
    home = λ a l e. elim (Bool-cases (a == pr)) [
      | inl y ↦ let q : a ≡ pr = ground arith in rw q (own l (rw q at e)).0
      | inr n ↦
          Changes-to k.uses (frame a) refs k.old_refs
            (v.home a l (sym (k.place_eq a (ground arith)) ∙ e))
    ];
    item = λ a l e. elim (Bool-cases (a == pr)) [
      | inl y ↦ let q : a ≡ pr = ground arith in rw q (own l (rw q at e)).1
      | inr n ↦
          let ne : a ≢ pr = ground arith in
          rw (k.data_eq a ne, k.blocks_eq a ne)
            (Content-frame s.cells s'.cells _ w.use_of w'.use_of _ a l (page_in_aligned _)
              (Changes-to k.uses _ (small a) (k.old_free a)) (λ b z. k.cells_eq b a ne z)
              (v.item a l (sym (k.place_eq a ne) ∙ e)))
    ];
    owner = λ page a e. elim (Bool-cases (a == pr)) [
      | inl y ↦ let q : a ≡ pr = ground arith in rw q (owner page (rw q at e))
      | inr n ↦
          let ne : a ≢ pr = ground arith in
          let (at, kept) = v.owner page a (Changes-from k.uses page (small a) (k.new_own a ne) e) in
          (rw (k.data_eq a ne) at, Changes-to k.uses (frame a) refs k.old_refs kept)
    ];
  }

  -- The blocks of a page that keeps its use for other than `pr` are as before.
  pub KeepsRefs-live :
      KeepsRefs
      → w'.free_chunks ≡ w.free_chunks
      → (a : ℕ) → w'.use_of (frame a) ≡ w.use_of (frame a)
      → w.use_of (frame a) ≢ small pr
      → live s' w' a ≡ live s w a
  KeepsRefs-live k chunks a same ne = rw same (go (w.use_of (frame a)) ne)
    where
      go : (u : Use) → u ≢ small pr → live_on s' w' (frame a) a u ≡ live_on s w (frame a) a u
      go idle ne = refl
      go refs ne = refl
      go (part hdr) ne = rw chunks refl
      go (small b) ne =
          let other : b ≢ pr = (λ z. ne (ap small z)) in
          rw (k.data_eq b other, k.place_eq b other, k.blocks_eq b other) refl

-- A change that spares the chunks and their pages.
pub IsChunks-frame :
    (s s' : State) (w w' : View) (old new : Use)
    → Changes old new w.use_of w'.use_of
    → ((h : ℕ) → part h ≢ old)
    → ((h : ℕ) → part h ≢ new)
    → s'.chunks ≡ s.chunks
    → s'.bigchunks ≡ s.bigchunks
    → w'.free_chunks ≡ w.free_chunks
    → IsChunks s w
    → IsChunks s' w'
IsChunks-frame s s' w w' old new u no_old no_new e b f v = record {
  chain = rw (e, b, f) v.chain;
  distinct = rw f v.distinct;
  free = λ h m. Changes-to u h (part h) (no_old h) (v.free h (rw f at m));
  chunk = λ h z.
      let (pos, inner) = v.chunk h (Changes-from u h (part h) (no_new h) z) in
      rw e (pos, λ i lt. Changes-to u (h + i * page_size) (part h) (no_old h) (inner i lt));
}

-- A change that spares the page references and their pages.
pub IsSubpages-frame :
    (s s' : State) (w w' : View) (old new : Use)
    → Changes old new w.use_of w'.use_of
    → refs ≢ old
    → ((a : ℕ) → small a ≢ old)
    → ((a : ℕ) → small a ≢ new)
    → s'.refs ≡ s.refs
    → s'.cells ≡ s.cells
    → ((l : Loc) → head s' l ≡ head s l)
    → w'.lists ≡ w.lists
    → w'.place ≡ w.place
    → w'.free_blocks ≡ w.free_blocks
    → IsSubpages s w
    → IsSubpages s' w'
IsSubpages-frame s s' w w' old new u no_refs no_old no_new r c heads ls pl bs v = record {
  linked = record {
    chain = λ l. rw (r, heads l, ls) (v.linked.chain l);
    distinct = λ l. rw ls (v.linked.distinct l);
    placed = λ l pr m. rw pl (v.linked.placed l pr (rw ls at m));
    listed = λ l pr e. rw ls (v.linked.listed l pr (rw pl at e));
  };
  home = λ pr l e. Changes-to u (frame pr) refs no_refs (v.home pr l (rw pl at e));
  item = λ pr l e.
      rw (r, c, bs)
        (Content-frame s.cells s.cells _ w.use_of w'.use_of _ pr l (page_in_aligned _)
          (Changes-to u _ (small pr) (no_old pr)) (λ b z. refl) (v.item pr l (rw pl at e)));
  owner = λ page pr e.
      let (at, kept) = v.owner page pr (Changes-from u page (small pr) (no_new pr) e) in
      (rw r at, Changes-to u (frame pr) refs no_refs kept);
}

-- The same block, live or not, with the same room.
abbrev pub SameBlock : State → View → State → View → ℕ → Type 0
SameBlock s w s' w' a = (live s' w' a ≡ live s w a) × (room s' w' a ≡ room s w a)

pub KeepsRefs-SameBlock :
    (s s' : State) (w w' : View) (old new : Use) (pr : ℕ)
    → KeepsRefs s s' w w' old new pr
    → w'.free_chunks ≡ w.free_chunks
    → s'.chunks ≡ s.chunks
    → (a : ℕ) → w'.use_of (frame a) ≡ w.use_of (frame a)
    → w.use_of (frame a) ≢ small pr
    → SameBlock s w s' w' a
KeepsRefs-SameBlock s s' w w' old new pr k chunks cs a same ne =
    (KeepsRefs-live s s' w w' old new pr k chunks a same ne, rw same (go (w.use_of (frame a)) ne))
  where
    go : (u : Use) → u ≢ small pr → room_on s' (frame a) u ≡ room_on s (frame a) u
    go idle ne = refl
    go refs ne = refl
    go (part hdr) ne = rw cs refl
    go (small b) ne = let other : b ≢ pr = (λ z. ne (ap small z)) in rw (k.data_eq b other) refl
