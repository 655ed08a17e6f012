-- ===== src/Memlib.antt =====
-- util/memlib.c, the simulated data segment that the allocators take their pages from, and
-- include/memlib.h. An address is a number; NULL is 0. The C library's `malloc` and `getpagesize`
-- are arguments: `block` is what `malloc (DSEG_MAX + 2*page_size)` returned.
pub mod Bounds
mod Tests
use parallel_memory_allocato.Base.{
  ℕ, ◌+◌, ◌-◌, ◌*◌, ◌/◌, Option, none, some, Outcome, ok, stop, Stop, ltb, ◌==◌, if◌then◌else◌,
}

abbrev pub dseg_max : ℕ
dseg_max = 256 * 1024 * 1024

abbrev pub null : ℕ
null = 0

-- `dseg_end` is the address after `dseg_hi`, that is `dseg_hi + 1`: `dseg_hi` starts as
-- `dseg_lo - 1`, and only `dseg_hi + 1` and comparisons of `dseg_hi` are used.
pub record Dseg : Type 0 where
  pub dseg_lo : ℕ
  pub dseg_end : ℕ
  pub dseg_size : ℕ
  pub page_size : ℕ

-- The macros PAGE_ALIGN and PAGE_ALIGN_UP.
unfoldable pub page_align : ℕ → ℕ → ℕ
page_align page_size p = p / page_size * page_size

unfoldable pub page_align_up : ℕ → ℕ → ℕ
page_align_up page_size p = (p + page_size - 1) / page_size * page_size

-- What `mem_init` asks of `malloc`.
abbrev pub mem_request : ℕ → ℕ
mem_request page_size = dseg_max + 2 * page_size

-- `mem_init`; `none` is its result -1.
unfoldable pub mem_init : ℕ → ℕ → Option Dseg
unfolding page_align_up
mem_init page_size block =
    if block == null
    then none
    else let lo = page_align_up page_size block in
      some (record { dseg_lo = lo; dseg_end = lo; dseg_size = dseg_max; page_size = page_size })

-- `mem_sbrk` for an increment that is not negative. `new_hi > dseg_lo + dseg_size` is
-- `dseg_lo + dseg_size + 1 < new_end`.
unfoldable pub mem_sbrk : ℕ → Dseg → Outcome (ℕ × Dseg)
mem_sbrk increment d =
    if increment == 0
    then stop Stop.assert_failure
    else if ltb (d.dseg_lo + d.dseg_size + 1) (d.dseg_end + increment)
    then ok (null, d)
    else ok (d.dseg_end, record d { dseg_end = d.dseg_end + increment })

-- `mem_pagesize`
unfoldable pub mem_pagesize : Dseg → ℕ
mem_pagesize d = d.page_size

-- `mem_usage` after `mem_init`: `dseg_hi - dseg_lo`, which is -1 on an empty segment; the result
-- is given as the number one greater.
unfoldable pub mem_usage_plus_one : Dseg → ℕ
mem_usage_plus_one d = d.dseg_end - d.dseg_lo
