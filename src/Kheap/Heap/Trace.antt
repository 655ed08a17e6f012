-- ===== src/Kheap/Heap/Trace.antt =====
-- The calls of a client of kheap.c, one after the other, from `mm_init` on.
use parallel_memory_allocato.Base.{
  ℕ, ◌-◌, ◌%◌, ◌^◌, ◌<◌, ◌≡◌, sym, ◌∙◌, inl, inr, some, ok, Returns,
}
use parallel_memory_allocato.Client.Trace.{Allocator, Client, Reach, InOrder, Serves}
use parallel_memory_allocato.Client.Reach.{Reach-InOrder, Reach-Serves, Reach_frees}
use parallel_memory_allocato.Kheap.State.{State}
use parallel_memory_allocato.Kheap.Api.{mm_init, mm_malloc, mm_free}
use parallel_memory_allocato.Kheap.Heap.{View, IsHeap, live, room}
use parallel_memory_allocato.Kheap.Heap.Calls.{
  IsBlank, Starts, empty, mm_init-Starts, mm_malloc-Allots_kheap, mm_free-Frees_kheap,
}
use parallel_memory_allocato.Kheap.Heap.Apart.{live-apart}

-- `mm_init` succeeded, with a page size that is a multiple of 4096.
abbrev pub IsStart : State → Type 0
IsStart s =
    (page_size block : ℕ) × (before : State) × (0 < page_size)
    × (page_size % 4096 ≡ 0)
    × IsBlank before
    × (mm_init page_size block before ≡ some s)

pub start-Starts : (s : State) → IsStart s → Starts s
start-Starts s (page_size, block, before, pos, whole, blank, e) =
    elim (mm_init-Starts page_size block before pos whole blank) [
      | inl (z, fails) ↦ absurd (let q = sym fails ∙ e in cc)
      | inr (s', runs, k) ↦ let q : s' ≡ s = (let y = sym runs ∙ e in cc) in rw (← q) k
    ]

-- The fuel of a call is above the end of the segment.
abbrev pub kheap : Allocator
kheap = record {
  State = State;
  View = View;
  IsHeap = IsHeap;
  live = live;
  room = room;
  HasHint = λ s fuel. s.dseg.dseg_end < fuel;
  limit = 2 ^ 31 - 4103;
  IsStart = IsStart;
  mm_malloc = mm_malloc;
  mm_free = mm_free;
  starts = λ s h. let (v, dead) = start-Starts s h in (empty, v, dead);
  allots = λ s w v fuel size enough lt. mm_malloc-Allots_kheap s w v fuel enough size lt;
  frees = λ s w v fuel ptr enough alive. mm_free-Frees_kheap s w v fuel enough ptr alive;
  apart = live-apart;
}

-- After `mm_init` from the globals as a program starts with them, with a page size that is a multiple
-- of 4096, and any sequence of requests below 2 ^ 31 - 4103 bytes and of frees of blocks that the
-- client holds, the heap is in order, the live blocks are those that the client holds, and each has
-- room for what the client asked for.
pub kheap-InOrder : {c : Client kheap} → Reach kheap c → InOrder kheap c
kheap-InOrder r = Reach-InOrder kheap r

module _ {c : Client kheap} (r : Reach kheap c) (fuel : ℕ)
    (enough : c.state.dseg.dseg_end < fuel) where
  -- After the same calls `mm_malloc` of less than 2 ^ 31 - 4103 bytes returns, with fuel above the end
  -- of the segment. It returns NULL or a block that the client does not hold, and the bytes that the
  -- client asks for overlap none of those that it asked for before and holds.
  pub kheap-Serves :
      (size : ℕ)
      → size < 2 ^ 31 - 4103
      → Returns (Serves kheap c size) (mm_malloc fuel size c.state)
  kheap-Serves size lt = Reach-Serves kheap r fuel size enough lt

  -- After the same calls `mm_free` of a block that the client holds returns, with fuel above the end of
  -- the segment.
  pub kheap_frees :
      (p size : ℕ) → c.held p ≡ some size → (s : State) × (mm_free fuel p c.state ≡ ok s)
  kheap_frees p size held = Reach_frees kheap r fuel p size enough held
