-- ===== src/Client.antt =====
-- What a client may rely on in an allocator, and what follows for its calls.
pub mod Trace
pub mod Reach
use parallel_memory_allocato.Base.{
  ℕ, refl, sym, ◌∙◌, inl, inr, ◌+◌, ◌≤◌, ◌<◌, ◌≡◌, ◌≢◌, ◌⊎◌, Bool, true, false, ◌==◌, Option, none,
  some, if◌then◌else◌, Outcome, ok, Returns,
}
use parallel_memory_allocato.Memlib.{null}

-- The blocks that are live in a state, by a view of it, and the bytes that each has.
module _ {S V : Type 0} (IsHeap : S → V → Type 0) (live : S → V → ℕ → Bool)
    (room : S → V → ℕ → ℕ) where
  -- The heap is in order. Either the result is NULL and the same blocks are live, or it was not live
  -- and is now, beside the old ones, with room for `size` bytes. The old ones have the room that they
  -- had.
  abbrev pub Allots : S → V → ℕ → ℕ × S → Type 0
  Allots s w size (p, s') =
      (w' : V) × IsHeap s' w'
      × ((p ≡ null) × ((a : ℕ) → live s' w' a ≡ live s w a)
          ⊎ (p ≢ null)
            × (live s w p ≡ false)
            × (size ≤ room s' w' p)
            × ((a : ℕ) → live s' w' a ≡ (if a == p then true else live s w a)))
      × ((a : ℕ) → live s w a ≡ true → room s' w' a ≡ room s w a)

  -- The heap is in order, and the live blocks are the old ones without `ptr`, with the room that they
  -- had.
  abbrev pub Frees : S → V → ℕ → S → Type 0
  Frees s w ptr s' =
      (w' : V) × IsHeap s' w'
      × ((a : ℕ) → live s' w' a ≡ (if a == ptr then false else live s w a))
      × ((a : ℕ) → live s' w' a ≡ true → room s' w' a ≡ room s w a)

  -- A request after a change that keeps the live blocks and their room.
  pub Allots-after :
      (s s1 : S) (w w1 : V) (size : ℕ) (r : ℕ × S)
      → ((a : ℕ) → live s1 w1 a ≡ live s w a)
      → ((a : ℕ) → live s w a ≡ true → room s1 w1 a ≡ room s w a)
      → Allots s1 w1 size r
      → Allots s w size r
  Allots-after s s1 w w1 size r same rooms (w', v, inl (z, k), kept) =
      (w', v, inl (z, λ a. k a ∙ same a), λ a m. kept a (same a ∙ m) ∙ rooms a m)
  Allots-after s s1 w w1 size r same rooms (w', v, inr (nn, o, fits, k), kept) = (
    w',
    v,
    inr (nn, sym (same r.0) ∙ o, fits, λ a. k a ∙ rw (same a) refl),
    λ a m. kept a (same a ∙ m) ∙ rooms a m,
  )

  -- A request that was refused after such a change.
  pub Allots-none :
      (s s1 : S) (w w1 : V) (size : ℕ)
      → IsHeap s1 w1
      → ((a : ℕ) → live s1 w1 a ≡ live s w a)
      → ((a : ℕ) → live s w a ≡ true → room s1 w1 a ≡ room s w a)
      → Allots s w size (null, s1)
  Allots-none s s1 w w1 size v same rooms = (w1, v, inl (refl, same), rooms)
