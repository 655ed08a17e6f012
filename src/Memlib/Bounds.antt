-- ===== src/Memlib/Bounds.antt =====
-- The bounds of the data segment.
use native.Mathlib.Nat.{div-add-mod', mod-lt, mul-mod_left, mul_assoc}
use parallel_memory_allocato.Base.{
  Bool-cases, ltb, ltb→lt, ◌==◌, false, inl, inr, ℕ, ◌+◌, ◌-◌, ◌*◌, ◌/◌, ◌%◌, ◌≤◌, ◌<◌, ◌≡◌, ◌≢◌,
  some, Outcome, ok, arith, refl, sym, ap, ◌∙◌,
}
use parallel_memory_allocato.Memlib.{
  Dseg, dseg_max, null, page_align_up, mem_request, mem_init, mem_sbrk,
}

-- The segment lies between its ends.
pub record IsSegment (d : Dseg) : Type 0 where
  pub ne_null : d.dseg_lo ≢ null
  pub lo_le_end : d.dseg_lo ≤ d.dseg_end
  pub end_le : d.dseg_end ≤ d.dseg_lo + d.dseg_size + 1

-- What one call of `mem_sbrk` may do to the segment: it hands out the bytes from the old end to
-- the new one, or returns NULL, moves nothing, and the request did not fit.
pub data Sbrk (n : ℕ) (d : Dseg) : Outcome (ℕ × Dseg) → Type 0 where
  granted :
      {d' : Dseg}
      → d.dseg_end ≢ null
      → d' ≡ record d { dseg_end = d.dseg_end + n }
      → IsSegment d'
      → Sbrk n d (ok (d.dseg_end, d'))
  refused : d.dseg_lo + d.dseg_size + 1 < d.dseg_end + n → Sbrk n d (ok (null, d))

-- A positive request on a segment is granted or refused in one of these two ways.
pub mem_sbrk-Sbrk : (n : ℕ) (d : Dseg) → 0 < n → IsSegment d → Sbrk n d (mem_sbrk n d)
unfolding mem_sbrk
mem_sbrk-Sbrk n d h w = elim (Bool-cases (ltb (d.dseg_lo + d.dseg_size + 1) (d.dseg_end + n))) [
  | inl over ↦ rw (positive, over) (refused (ltb→lt _ _ over))
  | inr fits ↦ rw (positive, fits) (granted (ground arith) refl (ground arith))
]
  where
    positive : (n == 0) ≡ false
    positive = ground arith

page_align_up_bounds :
    (page_size p : ℕ)
    → 0 < page_size
    → (p ≤ page_align_up page_size p)
      × (page_align_up page_size p < p + page_size)
      × (page_align_up page_size p % page_size ≡ 0)
unfolding page_align_up
page_align_up_bounds n p h = (
  omega (arith, div-add-mod' (p + n - 1) n, mod-lt (p + n - 1) h),
  omega (arith, div-add-mod' (p + n - 1) n),
  mul-mod_left ((p + n - 1) / n) n,
)

-- After `mem_init` the segment is well formed and page aligned, and every byte that `mem_sbrk` may
-- ever hand out of it lies in the block that `malloc` returned.
pub mem_init-IsSegment :
    (page_size block : ℕ)
    → 0 < page_size
    → block ≢ null
    → (d : Dseg) × (mem_init page_size block ≡ some d)
      × IsSegment d
      × (d.dseg_lo % page_size ≡ 0)
      × (d.dseg_end ≡ d.dseg_lo)
      × (block ≤ d.dseg_lo)
      × (d.dseg_lo + d.dseg_size + 1 ≤ block + mem_request page_size)
unfolding mem_init
mem_init-IsSegment n block h ne =
    let (above, below, aligned) = page_align_up_bounds n block h in
    (
      record {
        dseg_lo = page_align_up n block;
        dseg_end = page_align_up n block;
        dseg_size = dseg_max;
        page_size = n;
      },
      ground arith,
      ground arith,
      aligned,
      refl,
      above,
      omega arith,
    )

-- On an empty segment a request for one byte more than its size is granted: the last byte lies just
-- past the `dseg_size` bytes from `dseg_lo`.
pub mem_sbrk_past_end :
    (d : Dseg)
    → d.dseg_end ≡ d.dseg_lo
    → mem_sbrk (d.dseg_size + 1) d
      ≡ ok (d.dseg_lo, record d { dseg_end = d.dseg_lo + d.dseg_size + 1 })
unfolding mem_sbrk
mem_sbrk_past_end d e = ground arith

pub multiple_aligned : (a n : ℕ) → n % 4096 ≡ 0 → a % n ≡ 0 → a % 4096 ≡ 0
multiple_aligned a n m e =
    let k : n / 4096 * 4096 ≡ n = omega (arith, div-add-mod' n 4096) in
    let q : a / n * n ≡ a = omega (arith, div-add-mod' a n) in
    let z : a / n * (n / 4096) * 4096 ≡ a =
      mul_assoc (a / n) (n / 4096) 4096 ∙ ap (λ (z : ℕ). a / n * z) k ∙ q in
    ap (λ (z : ℕ). z % 4096) (sym z) ∙ mul-mod_left (a / n * (n / 4096)) 4096
