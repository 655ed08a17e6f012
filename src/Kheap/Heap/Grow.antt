-- ===== src/Kheap/Heap/Grow.antt =====
-- The heap after `mem_sbrk` granted some pages.
use parallel_memory_allocato.Base.{
  ℕ, ◌+◌, ◌*◌, ◌≤◌, ◌<◌, ◌≡◌, refl, Bool-cases, inl, inr, ◌⊎◌, false, ltb, ◌==◌, ok, arith,
}
use parallel_memory_allocato.Memlib.{null, mem_sbrk}
use parallel_memory_allocato.Kheap.Sizes.{page_size, frame}
use parallel_memory_allocato.Kheap.State.{State}
use parallel_memory_allocato.Kheap.PageRefs.{sbrk}
use parallel_memory_allocato.Kheap.Heap.{
  Loc, Use, idle, refs, small, part, View, IsHeap, live_on, room_on, head, fresh, recycled, sized,
}
use parallel_memory_allocato.Kheap.Heap.Keep.{IsChunks-frame, IsSubpages-frame, SameBlock}

-- The segment with `n` pages more.
unfoldable pub grown : State → ℕ → State
grown s n = record s { dseg = record s.dseg { dseg_end = s.dseg.dseg_end + n * page_size } }

pub sbrk_cases :
    (s : State) (n : ℕ)
    → 0 < n
    → (sbrk (n * page_size) s ≡ ok (null, s))
      ⊎ (sbrk (n * page_size) s ≡ ok (s.dseg.dseg_end, grown s n))
unfolding sbrk mem_sbrk grown
sbrk_cases s n pos =
    let nz : (n * page_size == 0) ≡ false = ground arith in
    elim (Bool-cases
      (ltb (s.dseg.dseg_lo + s.dseg.dseg_size + 1) (s.dseg.dseg_end + n * page_size))) [
        | inl over ↦ inl (rw (nz, over) refl)
        | inr fits ↦ inr (rw (nz, fits) refl)
      ]

pub grown-end : (s : State) (n : ℕ) → (grown s n).dseg.dseg_end ≡ s.dseg.dseg_end + n * page_size
unfolding grown
grown-end s n = refl

pub grown-refs : (s : State) (n : ℕ) → (grown s n).refs ≡ s.refs
unfolding grown
grown-refs s n = refl

module _ (s : State) (w : View) (v : IsHeap s w) where
  pub grown-IsHeap : (n : ℕ) → IsHeap (grown s n) w
  unfolding grown
  grown-IsHeap n = record {
    subpages =
        IsSubpages-frame s (grown s n) w w idle idle (λ q. inl refl) (λ z. absurd (cc))
          (λ a z. absurd (cc)) (λ a z. absurd (cc)) refl refl (λ l. same_head l) refl refl refl
          v.subpages;
    chunks =
        IsChunks-frame s (grown s n) w w idle idle (λ q. inl refl) (λ h z. absurd (cc))
          (λ h z. absurd (cc)) refl refl refl v.chunks;
    used = λ page. elim (v.used page) [
      | inl z ↦ inl z
      | inr (aligned, nn, lt) ↦ inr (aligned, nn, omega arith)
    ];
    ended = let e = v.ended in omega arith;
  }
    where
      same_head : (l : Loc) → head (grown s n) l ≡ head s l
      same_head fresh = refl
      same_head recycled = refl
      same_head (sized t) = refl

  pub grown-SameBlock : (n a : ℕ) → SameBlock s w (grown s n) w a
  unfolding grown
  grown-SameBlock n a = (go (w.use_of (frame a)), go_room (w.use_of (frame a)))
    where
      go : (u : Use) → live_on (grown s n) w (frame a) a u ≡ live_on s w (frame a) a u
      go idle = refl
      go refs = refl
      go (small pr) = refl
      go (part h) = refl

      go_room : (u : Use) → room_on (grown s n) (frame a) u ≡ room_on s (frame a) u
      go_room idle = refl
      go_room refs = refl
      go_room (small pr) = refl
      go_room (part h) = refl

  -- A page at the end of the segment has no use.
  pub end_idle : (page : ℕ) → s.dseg.dseg_end ≤ page → w.use_of page ≡ idle
  end_idle page le = elim (v.used page) [ inl z ↦ z | inr (aligned, nn, lt) ↦ absurd (omega arith) ]
