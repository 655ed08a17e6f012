-- ===== src/Kheap/Heap/Refs.antt =====
-- `allocpageref`: a page reference from a list, or the first of a new page of them.

pub mod Links
pub mod Fill
pub mod Filled
pub mod Alloc
use parallel_memory_allocato.Base.{
  ℕ, ◌+◌, ◌-◌, ◌*◌, ◌%◌, ◌≤◌, ◌<◌, ◌≡◌, ◌≢◌, refl, sym, ◌∙◌, ap, Bool, true, false, Bool-cases, inl,
  inr, ◌⊎◌, Option, none, some, List, [], ◌∷◌, ◌==◌, has, arith, if◌then◌else◌, Outcome, ok,
  Returns,
}
use parallel_memory_allocato.Memlib.{null}
use parallel_memory_allocato.Kheap.Sizes.{page_size, frame}
use parallel_memory_allocato.Kheap.State.{State}
use parallel_memory_allocato.Kheap.PageRefs.Remove.{next}
use parallel_memory_allocato.Kheap.Heap.{
  Loc, fresh, recycled, sized, head, Use, idle, refs, small, ref_data, page_in, Content, IsSpare,
  IsListed, View, IsHeap, live, live_small, room, room_on, part, loc_eq,
}
use parallel_memory_allocato.Kheap.Heap.Listed.{set_list, set_place, pop-IsListed}
use parallel_memory_allocato.Kheap.Heap.Keep.{
  KeepsRefs, KeepsRefs-IsSubpages, KeepsRefs-SameBlock, IsChunks-frame, SameBlock,
}

-- The heap is in order, the same blocks are live with the same room, and the result is NULL or a page
-- reference that is on no list.
abbrev pub Obtains : State → View → ℕ × State → Type 0
Obtains s w (pr, s') =
    (w' : View) × IsHeap s' w'
    × ((a : ℕ) → SameBlock s w s' w' a)
    × (pr ≢ null
        → (w'.place pr ≡ none)
          × (w'.use_of (frame pr) ≡ refs)
          × IsSpare (ref_data (s'.refs pr)) w'.use_of pr)

-- A change of the lists that takes a page reference without a class off them, or puts it on them.
pub record Moves (s s' : State) (w : View) (lists : Loc → List ℕ) (place : ℕ → Option Loc) (pr : ℕ)
    : Type 0 where
  pub valid : IsHeap s w
  pub data_eq : (a : ℕ) → ref_data (s'.refs a) ≡ ref_data (s.refs a)
  pub place_eq : (a : ℕ) → a ≢ pr → place a ≡ w.place a
  pub linked : IsListed (next s') (head s') lists place
  pub own :
      (l : Loc)
      → place pr ≡ some l
      → (w.use_of (frame pr) ≡ refs)
        × Content s.cells (ref_data (s.refs pr)) w.use_of (w.free_blocks pr) pr l
  pub cells_eq : s'.cells ≡ s.cells
  pub chunks_eq : s'.chunks ≡ s.chunks
  pub bigchunks_eq : s'.bigchunks ≡ s.bigchunks
  pub dseg_eq : s'.dseg ≡ s.dseg

abbrev pub move : View → (Loc → List ℕ) → (ℕ → Option Loc) → View
move w lists place = record w { lists = lists; place = place }

module _ {s s' : State} {w : View} {lists : Loc → List ℕ} {place : ℕ → Option Loc} {pr : ℕ}
    (m : Moves s s' w lists place pr) where
  Moves-KeepsRefs : KeepsRefs s s' w (move w lists place) idle idle pr
  Moves-KeepsRefs = record {
    uses = λ q. inl refl;
    old_free = λ a z. absurd (cc);
    old_refs = λ z. absurd (cc);
    new_own = λ a ne z. absurd (cc);
    data_eq = λ a ne. m.data_eq a;
    place_eq = m.place_eq;
    blocks_eq = λ a ne. refl;
    cells_eq = λ b a ne e. rw m.cells_eq refl;
  }

  pub Moves-IsHeap : IsHeap s' (move w lists place)
  Moves-IsHeap = record {
    subpages =
        KeepsRefs-IsSubpages s s' w (move w lists place) idle idle pr Moves-KeepsRefs
          m.valid.subpages m.linked (λ l e. rw (m.data_eq pr, m.cells_eq) (m.own l e))
          (λ page e. rw (m.data_eq pr) (m.valid.subpages.owner page pr e));
    chunks =
        IsChunks-frame s s' w (move w lists place) idle idle (λ q. inl refl) (λ h z. absurd (cc))
          (λ h z. absurd (cc)) m.chunks_eq m.bigchunks_eq refl m.valid.chunks;
    used = λ page. rw m.dseg_eq (m.valid.used page);
    ended = rw m.dseg_eq m.valid.ended;
  }

  -- The blocks of other page references.
  pub Moves-SameBlock :
      (a : ℕ) → w.use_of (frame a) ≢ small pr → SameBlock s w s' (move w lists place) a
  Moves-SameBlock a ne =
      KeepsRefs-SameBlock s s' w (move w lists place) idle idle pr Moves-KeepsRefs refl m.chunks_eq
        a refl ne

  pub Moves-room : (a : ℕ) → room s' (move w lists place) a ≡ room s w a
  Moves-room a = go (w.use_of (frame a))
    where
      go : (u : Use) → room_on s' (frame a) u ≡ room_on s (frame a) u
      go idle = refl
      go refs = refl
      go (part hdr) = rw m.chunks_eq refl
      go (small b) = rw (m.data_eq b) refl

-- The page reference is on no list of a class, so no block of its page is live.
pub dead :
    (s : State) (w : View) (pr a : ℕ)
    → w.use_of (frame a) ≡ small pr
    → ((t : ℕ) → w.place pr ≢ some (sized t))
    → live s w a ≡ false
dead s w pr a u un = rw u (go (w.place pr) un)
  where
    go :
        (o : Option Loc)
        → ((t : ℕ) → o ≢ some (sized t))
        → live_small (ref_data (s.refs pr)) (w.free_blocks pr) o (frame a) a ≡ false
    go none un = refl
    go (some fresh) un = refl
    go (some recycled) un = refl
    go (some (sized t)) un = absurd (un t refl)

pub eq_use : (u : Use) (pr : ℕ) → (u ≡ small pr) ⊎ (u ≢ small pr)
eq_use idle pr = inr (λ z. absurd (cc))
eq_use refs pr = inr (λ z. absurd (cc))
eq_use (part h) pr = inr (λ z. absurd (cc))
eq_use (small b) pr = elim (Bool-cases (b == pr)) [
  | inl y ↦ inl (let e : b ≡ pr = ground arith in ap small e)
  | inr n ↦ inr (λ z. let e : b ≡ pr = cc in absurd (let f = rw e at n in ground arith))
]

-- A move of a page reference that has no live blocks before or after.
pub Moves-SameBlocks :
    {s s' : State} {w : View} {lists : Loc → List ℕ} {place : ℕ → Option Loc} {pr : ℕ}
    → Moves s s' w lists place pr
    → ((a : ℕ) → w.use_of (frame a) ≡ small pr → live s w a ≡ false)
    → ((t : ℕ) → place pr ≢ some (sized t))
    → (a : ℕ) → SameBlock s w s' (move w lists place) a
Moves-SameBlocks {s} {s'} {w} {lists} {place} {pr} m before after a =
    elim (eq_use (w.use_of (frame a)) pr) [
      | inl u ↦ (dead s' (move w lists place) pr a u after ∙ sym (before a u), Moves-room m a)
      | inr n ↦ Moves-SameBlock m a n
    ]

-- The first of the recycled or of the fresh page references.
pub pop-Obtains :
    (s s' : State) (w : View) (l : Loc) (x : ℕ) (xs : List ℕ)
    → IsHeap s w
    → ((t : ℕ) → l ≢ sized t)
    → w.lists l ≡ x ∷ xs
    → s'.refs ≡ s.refs
    → s'.cells ≡ s.cells
    → s'.chunks ≡ s.chunks
    → s'.bigchunks ≡ s.bigchunks
    → s'.dseg ≡ s.dseg
    → head s' l ≡ next s x
    → ((k : Loc) → loc_eq l k ≡ false → head s' k ≡ head s k)
    → Obtains s w (x, s')
pop-Obtains s s' w l x xs v un e r c ch bc d h heads =
    let out : set_place w.place x none x ≡ none = ground arith in
    let here = v.subpages.linked.placed l x (rw e (ground arith)) in
    let lists = set_list w.lists l xs in
    let place = set_place w.place x none in
    let m : Moves s s' w lists place x = record {
      valid = v;
      data_eq = λ a. rw r refl;
      place_eq = λ a ne. ground arith;
      linked = rw r (pop-IsListed v.subpages.linked (head s') l x xs e h heads);
      own = λ k z. absurd (let y = sym out ∙ z in cc);
      cells_eq = c;
      chunks_eq = ch;
      bigchunks_eq = bc;
      dseg_eq = d;
    } in
    (
      move w lists place,
      Moves-IsHeap m,
      Moves-SameBlocks m (λ a u. dead s w x a u (λ t z. un t (let y = sym here ∙ z in cc)))
          (λ t z. absurd (let y = sym out ∙ z in cc)),
      λ nn. (out, v.subpages.home x l here, rw r (spare l (v.subpages.item x l here) un)),
    )
  where
    spare :
        (l : Loc)
        → Content s.cells (ref_data (s.refs x)) w.use_of (w.free_blocks x) x l
        → ((t : ℕ) → l ≢ sized t)
        → IsSpare (ref_data (s.refs x)) w.use_of x
    spare fresh z un = z
    spare recycled z un = z
    spare (sized t) z un = absurd (un t refl)
