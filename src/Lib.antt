-- ===== src/Lib.antt =====
-- A model of the memory allocators of this repository, and what is proved of it.
--
-- The program is a set of interchangeable implementations of `mm_init`, `mm_malloc` and `mm_free`
-- over a simulated data segment.
--
-- * Memlib models util/memlib.c: the segment that `mem_init` takes from the C library's `malloc` and
--   `mem_sbrk` hands out from its low end. The address that `malloc` returns and the page size are
--   arguments. `Memlib.Dseg` holds `dseg_lo`, `dseg_size` and the address after `dseg_hi`.
-- * A2alloc models allocators/a2alloc/a2alloc.c, the parallel allocator. `A2alloc.State` has the
--   structs, the global variables and the two ways in which the lists of pages are relinked,
--   `A2alloc.Sizes` the size classes, `A2alloc.Relocate` the moves of free pages to the global heap,
--   and `A2alloc.Malloc`, `A2alloc.Free` and `A2alloc.Init` the functions that their names say.
--   `A2alloc.Links` says when the lists of pages are linked, `A2alloc.Blocks` when a page's list of
--   free blocks is, and `A2alloc.Chop` is about the loop that cuts up a freed large block.
--   `A2alloc.Heap` puts these together. A `View` of a state says which list each page is on, which
--   addresses lie inside of a large block and which blocks of each page are free; `IsHeap` says that
--   the headers, lists and words of the state agree with it; and `live` tells from a view the blocks
--   that are handed out, and `room` the bytes of each. Its modules follow the operations, and
--   `A2alloc.Heap.Trace` the calls of a client from `mm_init` on. An index past the array of heaps
--   or past `sizebases` names no list: the memory is taken to be NULL there. Requests are below
--   2 ^ 30 bytes, where no int wraps. Nothing is asked of `n_free_pages`, which the source does not
--   keep right. The page size is a multiple of 4096, as the first page's alignment needs.
--   A function of the source is one function here, and its branches and loops are functions of
--   their own where a proof speaks of them. The locks of the source are not modelled: a function is
--   a run with no other thread in between. `sched_getcpu` and `get_nprocs` are arguments.
-- * Kheap models allocators/kheap/kheap.c, the allocator under one lock, with the page references in
--   `Kheap.PageRefs`, small blocks in `Kheap.Subpage` and chunks of pages in `Kheap.Big`. The checks
--   under SLOW and SLOWER are compiled out in the source: `Kheap.Checks` has them, and the other
--   functions do not call them.
--   `Kheap.Sizes.Choice` is about its size classes, `Kheap.State.Pack` about the word of a page
--   reference, and `Kheap.PageRefs.Remove`, `Kheap.Subpage.Search` and `Kheap.Big.Search` are about
--   its loops over lists. `Kheap.Subpage.Blocks` is about the free blocks of a page.
--   `Kheap.Heap` puts these together, with a `View` of the same kind: the lists of page references,
--   what each page is used for (page references, the blocks of one page reference, or a part of a
--   chunk), the free blocks of each page and the free chunks. `Kheap.Heap.Keep` and
--   `Kheap.Heap.Chunks` say what a change of one page reference or of the chunks keeps, the modules
--   beside them follow the operations, `Kheap.Heap.Calls` has `mm_init`, `mm_malloc` and `mm_free`,
--   and `Kheap.Heap.Trace` the calls of a client.
-- * Client is what a client sees of either allocator: `Client.Allots` and `Client.Frees` say what a
--   request and a free may do to the live blocks, and `Client.Trace.Allocator` is an allocator with
--   these laws. `Client.Trace` has the sequences of calls of a client, and `Client.Reach` what follows
--   for it. `A2alloc.Heap.Trace.a2alloc` and `Kheap.Heap.Trace.kheap` are the two allocators.
-- * Avl models final_report/avl_alloc.c, the AVL tree of page references that the report proposes.
--   A node keeps the address of its page, 0 where it has none. `freenode` is not in the repository:
--   `delete` returns the nodes that it is called on.
-- * Base has the names that all of these share.
--
-- Memory is a map from addresses to the structs and words that the code keeps there, one map for
-- each kind. NULL is 0. A read through NULL where no test excludes it, a failed `assert` and a call
-- of `exit` end in `stop`. A counter or size is a natural number; where the code converts between
-- `size_t` and `int`, the wrap is written out; Kheap is for sizes whose 32 low bits are below 2 ^
-- 31 - 4103, where the int arithmetic of `big_kmalloc` does not overflow (`Kheap.Api.Wrap`). A loop
-- of kheap.c over a list takes the greatest number of rounds as its fuel; in a heap in order no
-- list is longer than the address of the segment's end, so any fuel above it is enough.
--
-- Not modelled: the benchmarks, the timers and thread helpers in util, and the libc wrapper, which
-- only calls the C library.
pub mod Base
pub mod Memlib
pub mod Client
pub mod A2alloc
pub mod Avl
pub mod Kheap
