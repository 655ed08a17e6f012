-- ===== src/A2alloc.antt =====
-- allocators/a2alloc/a2alloc.c, the parallel allocator: one heap for each processor and a global
-- heap, superblock pages of 8192 bytes cut into blocks of one size class.
pub mod State
pub mod Sizes
pub mod Relocate
pub mod Malloc
pub mod Free
pub mod Init
pub mod Links
pub mod Blocks
pub mod Chop
pub mod Heap
pub mod Tests
