-- ===== src/Kheap.antt =====
-- allocators/kheap/kheap.c, the allocator with one lock: pages of 4096 bytes of one size class each,
-- and chunks of whole pages for large requests. `mm_malloc` and `mm_free` hold the lock throughout,
-- so every call is one step.
pub mod Sizes
pub mod State
pub mod PageRefs
pub mod Subpage
pub mod Big
pub mod Checks
pub mod Api
pub mod Heap
mod Tests
