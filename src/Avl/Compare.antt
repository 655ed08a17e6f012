-- ===== src/Avl/Compare.antt =====
-- The three outcomes of a comparison of addresses.
use Prim.Native.Nat.{compare}
use Prim.Native.Nat.Ordering.{lt, eq, gt}
use parallel_memory_allocato.Base.{ℕ, ◌<◌, ◌≡◌, ◌⊎◌, arith}

pub compare_cases :
    (a b : ℕ)
    → (compare a b ≡ lt) × (a < b) ⊎ ((compare a b ≡ gt) × (b < a) ⊎ ((compare a b ≡ eq) × (a ≡ b)))
compare_cases a b = ground arith
