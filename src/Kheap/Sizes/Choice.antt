-- ===== src/Kheap/Sizes/Choice.antt =====
-- The size class that `blocktype` chooses: kheap.c and a2alloc.c have the same table and loop.
use parallel_memory_allocato.Base.{
  ℕ, suc, ◌≤◌, ◌<◌, ◌≡◌, refl, List, [], ◌∷◌, Bool-cases, inl, inr, leb, ok, stop, Stop,
}
use parallel_memory_allocato.A2alloc.Sizes.{get_block_type_from, get_block_type}
use parallel_memory_allocato.A2alloc.Sizes.Choice.{get_block_type_lem}
use parallel_memory_allocato.Kheap.Sizes.{
  n_sizes, sizes, size_of, largest_subpage_size, blocktype_from, blocktype,
}

blocktype_from-eq :
    (i : ℕ) (xs : List ℕ) (sz : ℕ) → blocktype_from i xs sz ≡ get_block_type_from i xs sz
unfolding blocktype_from get_block_type_from
blocktype_from-eq i [] sz = refl
blocktype_from-eq i (x ∷ xs) sz = elim (Bool-cases (leb sz x)) [
  | inl y ↦ rw y refl
  | inr n ↦ rw n (blocktype_from-eq (suc i) xs sz)
]

blocktype-get_block_type : (sz : ℕ) → blocktype sz ≡ get_block_type sz
unfolding blocktype get_block_type
blocktype-get_block_type sz = blocktype_from-eq 0 sizes sz

-- For a request of at most 2048 bytes `blocktype` returns the index of a size class that has room for
-- it, and every smaller class is too small; for a larger request it exits.
pub blocktype_lem :
    (sz : ℕ)
    → (sz ≤ largest_subpage_size
        → (t : ℕ) × (blocktype sz ≡ ok t)
          × (t < n_sizes)
          × (sz ≤ size_of t)
          × ((u : ℕ) → u < t → size_of u < sz))
      × (largest_subpage_size < sz → blocktype sz ≡ stop Stop.exit_failure)
blocktype_lem sz = rw (blocktype-get_block_type sz) (get_block_type_lem sz)
