-- ===== src/A2alloc/Heap/Trace.antt =====
-- The calls of a client of a2alloc.c, one after the other, from `mm_init` on.
use parallel_memory_allocato.Base.{ℕ, ◌+◌, ◌%◌, ◌^◌, ◌≤◌, ◌<◌, ◌≡◌, refl, some, arith, ok, Returns}
use parallel_memory_allocato.Client.Trace.{Allocator, Client, Reach, InOrder, Serves}
use parallel_memory_allocato.Client.Reach
use parallel_memory_allocato.A2alloc.State.{State}
use parallel_memory_allocato.A2alloc.Init.{mm_init}
use parallel_memory_allocato.A2alloc.Malloc.{mm_malloc}
use parallel_memory_allocato.A2alloc.Free.{mm_free}
use parallel_memory_allocato.A2alloc.Heap.{View, IsHeap, live, room}
use parallel_memory_allocato.A2alloc.Heap.Malloc.{mm_malloc-Allots}
use parallel_memory_allocato.A2alloc.Heap.Free.{mm_free-Frees}
use parallel_memory_allocato.A2alloc.Heap.Init.{IsBare, mm_init-Starts, empty}
use parallel_memory_allocato.A2alloc.Heap.Apart.{live-apart}
use parallel_memory_allocato.A2alloc.Heap.Inside.{live_bounds}

-- `mm_init` succeeded, with a page size that is a multiple of 4096, in a memory that is NULL past the
-- arrays.
abbrev pub IsStart : State → Type 0
IsStart s =
    (page_size block nprocs : ℕ) × (before : State) × (0 < page_size)
    × (page_size % 4096 ≡ 0)
    × IsBare nprocs before
    × (mm_init page_size block nprocs before ≡ ok (some s))

pub start-IsHeap : (s : State) → IsStart s → IsHeap s empty
start-IsHeap s (page_size, block, nprocs, before, pos, whole, bare, e) =
    let r = mm_init-Starts page_size block nprocs before pos whole bare in rw e at r

-- A request may come from any processor.
abbrev pub a2alloc : Allocator
a2alloc = record {
  State = State;
  View = View;
  IsHeap = IsHeap;
  live = live;
  room = λ s w a. room s a;
  HasHint = λ s cpu. Unit;
  limit = 2 ^ 30;
  IsStart = IsStart;
  mm_malloc = mm_malloc;
  mm_free = λ cpu p s. mm_free p s;
  starts = λ s h. (empty, start-IsHeap s h, λ a. refl);
  allots = λ s w v cpu size any lt. mm_malloc-Allots s w v cpu size lt;
  frees = λ s w v cpu ptr any alive. mm_free-Frees s w v ptr alive;
  apart = live-apart;
}

-- Whatever calls a client has made, the heap is in order, the live blocks are those that it holds,
-- and each of these has room for what the client asked for.
pub Reach-InOrder : {c : Client a2alloc} → Reach a2alloc c → InOrder a2alloc c
Reach-InOrder r = Reach.Reach-InOrder a2alloc r

-- Whatever calls a client has made, `mm_malloc` of less than 2 ^ 30 bytes returns. It returns NULL
-- or a block that the client does not hold, and the bytes that the client asks for overlap none of
-- those that it asked for before and holds.
pub Reach-mm_malloc :
    {c : Client a2alloc}
    → Reach a2alloc c
    → (cpu size : ℕ) → size < 2 ^ 30
    → Returns (Serves a2alloc c size) (mm_malloc cpu size c.state)
Reach-mm_malloc r cpu size lt = Reach.Reach-Serves a2alloc r cpu size tt lt

-- Whatever calls a client has made, `mm_free` of a block that it holds returns.
pub Reach-mm_free :
    {c : Client a2alloc}
    → Reach a2alloc c
    → (p size : ℕ) → c.held p ≡ some size
    → (s : State) × (mm_free p c.state ≡ ok s)
Reach-mm_free r p size held = Reach.Reach_frees a2alloc r 0 p size tt held

-- Whatever calls a client has made, the bytes that it asked for of two blocks that it holds do not
-- overlap: those at the lower address end before the other block.
pub Reach-apart :
    {c : Client a2alloc}
    → Reach a2alloc c
    → (p q m n : ℕ) → p < q
    → c.held p ≡ some m
    → c.held q ≡ some n
    → p + m ≤ q
Reach-apart r p q m n lt hp hq = Reach.Reach_apart a2alloc r p q m n lt hp hq

-- Whatever calls a client has made, the bytes that it asked for of a block that it holds lie in the
-- segment, and the block's address is a multiple of 8.
pub Reach_bounds :
    {c : Client a2alloc}
    → Reach a2alloc c
    → (p n : ℕ) → c.held p ≡ some n
    → (c.state.dseg.dseg_lo ≤ p) × (p + n ≤ c.state.dseg.dseg_end) × (p % 8 ≡ 0)
Reach_bounds {c} r p n h =
    let o = Reach-InOrder r in
    let (alive, fits) = o.held_live p n h in
    let (behind, above, inside, aligned) = live_bounds c.state o.view o.heap p alive in
    (above, omega (arith, fits, inside), aligned)
