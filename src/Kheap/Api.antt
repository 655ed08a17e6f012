-- ===== src/Kheap/Api.antt =====
-- `mm_init`, `mm_malloc` and `mm_free` of kheap.c, for sizes whose 32 low bits are a number below
-- 2 ^ 31 - 4103, where the arithmetic of `big_kmalloc` on ints does not wrap.
pub mod Wrap
use parallel_memory_allocato.Base.{
  ℕ, ◌+◌, ◌%◌, ◌^◌, ◌&&◌, Option, none, some, Outcome, ok, ◌>>=◌, leb, ◌==◌, if◌then◌else◌,
}
use parallel_memory_allocato.Memlib.{null, mem_init}
use parallel_memory_allocato.Kheap.Sizes.{largest_subpage_size}
use parallel_memory_allocato.Kheap.State.{State}
use parallel_memory_allocato.Kheap.Subpage.{subpage_kmalloc, subpage_kfree}
use parallel_memory_allocato.Kheap.Big.{big_kmalloc, big_kfree}

-- `mm_init`; `none` is its result -1. `dseg_lo` and `dseg_hi` are NULL until `mem_init` sets
-- them, and `dseg_end` is `dseg_hi + 1`.
unfoldable pub mm_init : (page_size block : ℕ) → State → Option State
unfolding mem_init
mm_init page_size block s =
    if s.dseg.dseg_lo == null && s.dseg.dseg_end == null + 1
    then elim (mem_init page_size block) [ none ↦ none | some d ↦ some (record s { dseg = d }) ]
    else some s

-- The call of `big_kmalloc` converts the size to an int.
unfoldable pub mm_malloc : ℕ → ℕ → State → Outcome (ℕ × State)
unfolding subpage_kmalloc big_kmalloc
mm_malloc fuel sz s =
    if leb largest_subpage_size sz
    then big_kmalloc fuel (sz % 2 ^ 32) s
    else subpage_kmalloc fuel sz s

unfoldable pub mm_free : ℕ → ℕ → State → Outcome State
unfolding subpage_kfree big_kfree
mm_free fuel ptr s =
    if ptr == null
    then ok s
    else subpage_kfree fuel ptr s >>= λ r. elim r [ none ↦ ok (big_kfree ptr s) | some s1 ↦ ok s1 ]
