-- ===== src/A2alloc/Sizes/Choice.antt =====
-- The size class that `get_block_type` chooses.
use mathlib.Core.Path.{ap, ◌∙◌}
use parallel_memory_allocato.Base.{
  ℕ, zero, suc, ◌+◌, ◌≤◌, ◌<◌, ◌≡◌, refl, List, [], ◌∷◌, ok, stop, Stop, leb, leb→le, false,
  Bool-cases, inl, inr, arith, length, get_or,
}
use parallel_memory_allocato.A2alloc.Sizes.{
  n_sizes, largest_superblock_block_size, sizes, size_of, get_block_type_from, get_block_type,
}

-- Index `k` of `xs` is the first with room for `size`.
abbrev IsFirst : List ℕ → ℕ → ℕ → Type 0
IsFirst xs size k =
    (k < length xs) × (size ≤ get_or xs k 0) × ((u : ℕ) → u < k → get_or xs u 0 < size)

IsFirst-cons :
    (x : ℕ) (xs : List ℕ) (size k : ℕ)
    → leb size x ≡ false
    → IsFirst xs size k
    → IsFirst (x ∷ xs) size (suc k)
IsFirst-cons x xs size k small (lt, room, first) = (omega arith, room, before)
  where
    before : (u : ℕ) → u < suc k → get_or (x ∷ xs) u 0 < size
    before zero h = ground arith
    before (suc u) h = first u (omega arith)

-- If the head is too small, the room is further on.
first_beyond :
    (x : ℕ) (xs : List ℕ) (size j : ℕ)
    → leb size x ≡ false
    → j < length (x ∷ xs)
    → size ≤ get_or (x ∷ xs) j 0
    → (j' : ℕ) × (j' < length xs) × (size ≤ get_or xs j' 0)
first_beyond x xs size zero small h e = absurd (ground arith)
first_beyond x xs size (suc j) small h e = (j, omega arith, e)

get_block_type_from-IsFirst :
    (i : ℕ) (xs : List ℕ) (size j : ℕ)
    → j < length xs
    → size ≤ get_or xs j 0
    → (k : ℕ) × (get_block_type_from i xs size ≡ ok (i + k)) × IsFirst xs size k
unfolding get_block_type_from
get_block_type_from-IsFirst i [] size j h e = elim h [ ]
get_block_type_from-IsFirst i (x ∷ xs) size j h e = elim (Bool-cases (leb size x)) [
  | inl fits ↦
      (0, rw fits (ap ok (omega arith)), (omega arith, leb→le _ _ fits, λ u lt. elim lt [ ]))
  | inr small ↦
      let (j', lt, room) = first_beyond x xs size j small h e in
      let (k, found, first) = get_block_type_from-IsFirst (suc i) xs size j' lt room in
      (suc k, rw small (found ∙ ap ok (omega arith)), IsFirst-cons x xs size k small first)
]

get_block_type_from_none :
    (i : ℕ) (xs : List ℕ) (size : ℕ)
    → ((j : ℕ) → j < length xs → get_or xs j 0 < size)
    → get_block_type_from i xs size ≡ stop Stop.exit_failure
unfolding get_block_type_from
get_block_type_from_none i [] size h = refl
get_block_type_from_none i (x ∷ xs) size h =
    ground (arith, h 0, get_block_type_from_none (suc i) xs size (λ j lt. h (suc j) (omega arith)))

below_largest : (j size : ℕ) → largest_superblock_block_size < size → size_of j < size
below_largest zero size h = omega arith
below_largest (suc zero) size h = omega arith
below_largest (suc (suc zero)) size h = omega arith
below_largest (suc (suc (suc zero))) size h = omega arith
below_largest (suc (suc (suc (suc zero)))) size h = omega arith
below_largest (suc (suc (suc (suc (suc zero))))) size h = omega arith
below_largest (suc (suc (suc (suc (suc (suc zero)))))) size h = omega arith
below_largest (suc (suc (suc (suc (suc (suc (suc zero))))))) size h = omega arith
below_largest (suc (suc (suc (suc (suc (suc (suc (suc zero)))))))) size h = omega arith
below_largest (suc (suc (suc (suc (suc (suc (suc (suc (suc j))))))))) size h = omega arith

-- For a request of at most 2048 bytes `get_block_type` returns the index of a size class that has
-- room for it, and every smaller class is too small; for a larger request it exits.
pub get_block_type_lem :
    (size : ℕ)
    → (size ≤ largest_superblock_block_size
        → (t : ℕ) × (get_block_type size ≡ ok t)
          × (t < n_sizes)
          × (size ≤ size_of t)
          × ((u : ℕ) → u < t → size_of u < size))
      × (largest_superblock_block_size < size → get_block_type size ≡ stop Stop.exit_failure)
unfolding get_block_type
get_block_type_lem size = (
  λ h.
      let (k, found, (lt, room, before)) =
        get_block_type_from-IsFirst 0 sizes size 8 (omega arith) h in
      (k, found ∙ ap ok (omega arith), lt, room, before),
  λ h. get_block_type_from_none 0 sizes size (λ j lt. below_largest j size h),
)
