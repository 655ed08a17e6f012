-- ===== src/Client/Trace.antt =====
-- The calls of a client, one after the other, from `mm_init` on. The client holds the blocks that
-- `mm_malloc` gave it and that it has not passed to `mm_free`, and frees only those.
use parallel_memory_allocato.Base.{
  ℕ, ◌+◌, ◌≤◌, ◌<◌, ◌≡◌, ◌≢◌, Bool, true, false, ◌⊎◌, ◌==◌, Option, none, some, if◌then◌else◌,
  Outcome, ok, Returns,
}
use parallel_memory_allocato.Memlib.{null}
use parallel_memory_allocato.Client.{Allots, Frees}

-- An allocator, with what a client relies on. `HasHint` says which arguments a call may have beside
-- the size or the block: a processor, or the fuel of the loops.
pub record Allocator : Type 1 where
  pub State : Type 0
  pub View : Type 0
  pub IsHeap : State → View → Type 0
  pub live : State → View → ℕ → Bool
  pub room : State → View → ℕ → ℕ
  pub HasHint : State → ℕ → Type 0
  pub limit : ℕ
  pub IsStart : State → Type 0
  pub mm_malloc : ℕ → ℕ → State → Outcome (ℕ × State)
  pub mm_free : ℕ → ℕ → State → Outcome State
  pub starts : (s : State) → IsStart s → (w : View) × IsHeap s w × ((a : ℕ) → live s w a ≡ false)
  pub allots :
      (s : State) (w : View)
      → IsHeap s w
      → (hint size : ℕ) → HasHint s hint
      → size < limit
      → Returns (Allots IsHeap live room s w size) (mm_malloc hint size s)
  pub frees :
      (s : State) (w : View)
      → IsHeap s w
      → (hint ptr : ℕ) → HasHint s hint
      → live s w ptr ≡ true
      → Returns (Frees IsHeap live room s w ptr) (mm_free hint ptr s)
  pub apart :
      (s : State) (w : View)
      → IsHeap s w
      → (p q : ℕ) → p < q
      → live s w p ≡ true
      → live s w q ≡ true
      → p + room s w p ≤ q

abbrev pub set_held : (ℕ → Option ℕ) → ℕ → Option ℕ → ℕ → Option ℕ
set_held held p o a = if a == p then o else held a

module _ (al : Allocator) where
  -- The allocator's state and the blocks that the client holds, with the sizes that it asked for.
  pub record Client : Type 0 where
    pub state : al.State
    pub held : ℕ → Option ℕ

  pub data Call : Client → Client → Type 0 where
    malloc :
        {c : Client} {s : al.State}
        → (hint size p : ℕ) → al.HasHint c.state hint
        → size < al.limit
        → al.mm_malloc hint size c.state ≡ ok (p, s)
        → p ≢ null
        → Call c (record { state = s; held = set_held c.held p (some size) })
    refused :
        {c : Client} {s : al.State}
        → (hint size : ℕ) → al.HasHint c.state hint
        → size < al.limit
        → al.mm_malloc hint size c.state ≡ ok (null, s)
        → Call c (record { state = s; held = c.held })
    release :
        {c : Client} {s : al.State}
        → (hint p size : ℕ) → al.HasHint c.state hint
        → c.held p ≡ some size
        → al.mm_free hint p c.state ≡ ok s
        → Call c (record { state = s; held = set_held c.held p none })

  pub data Reach : Client → Type 0 where
    start : {s : al.State} → al.IsStart s → Reach (record { state = s; held = λ a. none })
    next : {c c' : Client} → Reach c → Call c c' → Reach c'

  -- The heap is in order, the live blocks are those that the client holds, and each has room for what
  -- the client asked for.
  pub record InOrder (c : Client) : Type 0 where
    pub view : al.View
    pub heap : al.IsHeap c.state view
    pub held_live :
        (a n : ℕ)
        → c.held a ≡ some n
        → (al.live c.state view a ≡ true) × (n ≤ al.room c.state view a)
    pub live_held : (a : ℕ) → c.held a ≡ none → al.live c.state view a ≡ false

  -- What a client gets of a request: NULL, or a block that it does not hold, whose bytes are none of
  -- those that it asked for before and holds.
  abbrev pub Serves : Client → ℕ → ℕ × al.State → Type 0
  Serves c size (p, s) =
      (p ≡ null)
      ⊎ (p ≢ null)
        × (c.held p ≡ none)
        × ((q n : ℕ) → c.held q ≡ some n → (p + size ≤ q) ⊎ (q + n ≤ p))
