-- ===== src/Memlib/Tests.antt =====
-- The theorems on the data segment at concrete segments.
use parallel_memory_allocato.Base.{◌+◌, ◌%◌, ◌≤◌, ◌≡◌, some, ok, refl, arith}
use parallel_memory_allocato.Memlib.{Dseg, mem_request, mem_init, mem_sbrk}
use parallel_memory_allocato.Memlib.Bounds.{
  IsSegment, Sbrk, mem_sbrk-Sbrk, mem_init-IsSegment, mem_sbrk_past_end,
}

abbrev segment : Dseg
segment = record { dseg_lo = 8192; dseg_end = 12288; dseg_size = 8192; page_size = 4096 }

segment-IsSegment : IsSegment segment
segment-IsSegment = omega arith

mem_sbrk-Sbrk_example : Sbrk 4096 segment (mem_sbrk 4096 segment)
mem_sbrk-Sbrk_example = mem_sbrk-Sbrk 4096 segment (omega arith) segment-IsSegment

mem_init-IsSegment_example :
    (d : Dseg) × (mem_init 4096 20000 ≡ some d)
    × IsSegment d
    × (d.dseg_lo % 4096 ≡ 0)
    × (d.dseg_end ≡ d.dseg_lo)
    × (20000 ≤ d.dseg_lo)
    × (d.dseg_lo + d.dseg_size + 1 ≤ 20000 + mem_request 4096)
mem_init-IsSegment_example = mem_init-IsSegment 4096 20000 (omega arith) (omega arith)

abbrev fresh : Dseg
fresh = record { dseg_lo = 8192; dseg_end = 8192; dseg_size = 8192; page_size = 4096 }

mem_sbrk_past_end_example :
    mem_sbrk (fresh.dseg_size + 1) fresh
    ≡ ok (fresh.dseg_lo, record fresh { dseg_end = fresh.dseg_lo + fresh.dseg_size + 1 })
mem_sbrk_past_end_example = mem_sbrk_past_end fresh refl
