-- ===== src/Kheap/Heap/Chunks.antt =====
-- The chunks of `big_kmalloc` and `big_kfree` in the heap.
pub mod Unlink
pub mod Cut
pub mod Relist
pub mod Freed
pub mod Fresh
use parallel_memory_allocato.Base.{
  ℕ, ◌+◌, ◌-◌, ◌*◌, ◌%◌, ◌≤◌, ◌<◌, ◌≡◌, ◌≢◌, refl, sym, ◌∙◌, ap, Bool, true, false, not, ◌&&◌,
  Bool-cases, inl, inr, ◌⊎◌, List, ◌==◌, has, arith, if◌then◌else◌,
}
use parallel_memory_allocato.Memlib.{null}
use parallel_memory_allocato.Kheap.Sizes.{page_size, frame, smallest_subpage_size}
use parallel_memory_allocato.Kheap.State.{State, BigFreelist, put_chunk}
use parallel_memory_allocato.Kheap.Heap.{
  Loc, fresh, recycled, sized, head, Use, idle, refs, small, part, View, IsChunks, IsPage, IsHeap,
  live, live_on, room, room_on, npages, Allots,
}
use parallel_memory_allocato.Kheap.Heap.Layout.{frame_within}
use parallel_memory_allocato.Kheap.Heap.Keep.{Changes, IsSubpages-frame}

abbrev pub rechunk : View → (ℕ → Use) → List ℕ → View
rechunk w use_of cs = record w { use_of = use_of; free_chunks = cs }

pub same_head :
    (s s' : State)
    → s'.fresh_refs ≡ s.fresh_refs
    → s'.recycled_refs ≡ s.recycled_refs
    → s'.sizebases ≡ s.sizebases
    → (l : Loc) → head s' l ≡ head s l
same_head s s' f r b fresh = f
same_head s s' f r b recycled = r
same_head s s' f r b (sized t) = rw b refl

pub put_chunk-npages :
    (s : State) (x n a : ℕ)
    → npages (put_chunk s x (record (s.chunks x) { npages = n })) a
      ≡ (if a == x then n else npages s a)
unfolding put_chunk
put_chunk-npages s x n a = pages_if (a == x) _ _
  where
    pages_if :
        (b : Bool) (c d : BigFreelist)
        → (if b then c else d).npages ≡ (if b then c.npages else d.npages)
    pages_if true c d = refl
    pages_if false c d = refl

pub put_chunk-next :
    (s : State) (x n a : ℕ)
    → ((put_chunk s x (record (s.chunks x) { npages = n })).chunks a).next ≡ (s.chunks a).next
unfolding put_chunk
put_chunk-next s x n a = elim (Bool-cases (a == x)) [
  | inl y ↦ let e : a ≡ x = ground arith in rw (y, e) refl
  | inr f ↦ rw f refl
]

-- A change of the chunks, by which some pages with the use `old` become parts of `hdr`.
pub record Rechunks (s s' : State) (w : View) (old : Use) (hdr : ℕ) (use_of : ℕ → Use) (cs : List ℕ)
    : Type 0 where
  pub valid : IsHeap s w
  pub uses : Changes old (part hdr) w.use_of use_of
  pub old_refs : refs ≢ old
  pub old_small : (a : ℕ) → small a ≢ old
  pub refs_eq : s'.refs ≡ s.refs
  pub cells_eq : s'.cells ≡ s.cells
  pub head_eq : (l : Loc) → head s' l ≡ head s l
  pub chunks : IsChunks s' (rechunk w use_of cs)
  pub used : (page : ℕ) → (use_of page ≡ idle) ⊎ IsPage s' page
  pub ended : s'.dseg.dseg_end % page_size ≡ 0

-- The same block, live or not, with the same room if it is live.
abbrev pub KeptBlock : State → View → State → View → ℕ → Type 0
KeptBlock s w s' w' a =
    (live s' w' a ≡ live s w a) × (live s w a ≡ true → room s' w' a ≡ room s w a)

module _ {s s' : State} {w : View} {old : Use} {hdr : ℕ} {use_of : ℕ → Use} {cs : List ℕ}
    (r : Rechunks s s' w old hdr use_of cs) where
  pub Rechunks-IsHeap : IsHeap s' (rechunk w use_of cs)
  Rechunks-IsHeap = record {
    subpages =
        IsSubpages-frame s s' w (rechunk w use_of cs) old (part hdr) r.uses r.old_refs r.old_small
          (λ a z. absurd (cc)) r.refs_eq r.cells_eq r.head_eq refl refl refl r.valid.subpages;
    chunks = r.chunks;
    used = r.used;
    ended = r.ended;
  }

  -- A page that keeps its use keeps its blocks, if its chunk is as before.
  pub Rechunks-KeptBlock :
      (a : ℕ)
      → use_of (frame a) ≡ w.use_of (frame a)
      → (w.use_of (frame a) ≡ part (frame a)
          → has (frame a) w.free_chunks ≡ false
          → npages s' (frame a) ≡ npages s (frame a))
      → (w.use_of (frame a) ≡ part (frame a) → has (frame a) cs ≡ has (frame a) w.free_chunks)
      → KeptBlock s w s' (rechunk w use_of cs) a
  Rechunks-KeptBlock a same pages free = rw same (go (w.use_of (frame a)) refl)
    where
      go :
          (u : Use)
          → w.use_of (frame a) ≡ u
          → (live_on s' (rechunk w use_of cs) (frame a) a u ≡ live_on s w (frame a) a u)
            × (live_on s w (frame a) a u ≡ true → room_on s' (frame a) u ≡ room_on s (frame a) u)
      go idle e = (refl, λ z. refl)
      go refs e = (refl, λ z. refl)
      go (small b) e = (rw r.refs_eq refl, λ z. rw r.refs_eq refl)
      go (part h) e = elim (Bool-cases (frame a == h)) [
        | inl y ↦
            let q : frame a ≡ h = ground arith in
            let own : w.use_of (frame a) ≡ part (frame a) = e ∙ ap part (sym q) in
            let f : has h cs ≡ has h w.free_chunks = rw q at (free own) in
            (
              rw f refl,
              λ z.
                  let out : has (frame a) w.free_chunks ≡ false = rw q (ground arith) in
                  rw (pages own out) refl,
            )
        | inr n ↦ (ground arith, λ z. absurd (ground arith))
      ]

  -- The chunk is handed out.
  pub Rechunks-Allots :
      (size : ℕ)
      → IsPage s' hdr
      → use_of hdr ≡ part hdr
      → has hdr cs ≡ false
      → live s w (hdr + smallest_subpage_size) ≡ false
      → size + smallest_subpage_size ≤ npages s' hdr * page_size
      → ((a : ℕ)
          → (a == hdr + smallest_subpage_size) ≡ false
          → KeptBlock s w s' (rechunk w use_of cs) a)
      → Allots s w size (hdr + smallest_subpage_size, s')
  Rechunks-Allots size (aligned, nn, below) own out dead fits kept = (
    rechunk w use_of cs,
    Rechunks-IsHeap,
    inr (
      λ z. nn (omega (arith, z)),
      dead,
      rw (at, own) (omega (arith, fits)),
      λ a. elim (Bool-cases (a == hdr + smallest_subpage_size)) [
        | inl y ↦
            let e : a ≡ hdr + smallest_subpage_size = ground arith in
            rw y (born a e (ap frame e ∙ at))
        | inr n ↦ rw n (kept a n).0
      ],
    ),
    λ a m. elim (Bool-cases (a == hdr + smallest_subpage_size)) [
      | inl y ↦
          let e : a ≡ hdr + smallest_subpage_size = ground arith in absurd (let z = rw e at m in cc)
      | inr n ↦ (kept a n).1 m
    ],
  )
    where
      at : frame (hdr + smallest_subpage_size) ≡ hdr
      at = frame_within hdr (hdr + smallest_subpage_size) aligned (omega arith) (omega arith)

      born :
          (x : ℕ)
          → x ≡ hdr + smallest_subpage_size
          → frame x ≡ hdr
          → live s' (rechunk w use_of cs) x ≡ true
      born x e f =
          let own_use : use_of (frame x) ≡ part hdr = rw f own in
          let first : (x == frame x + smallest_subpage_size) ≡ true = ground arith in
          let second : (frame x == hdr) ≡ true = ground arith in
          rw (own_use, first, second, out) refl
