-- ===== src/A2alloc/Sizes.antt =====
-- The constants and size classes of a2alloc.c, and `get_block_type`.
pub mod Choice
pub mod Layout
use parallel_memory_allocato.Base.{
  ℕ, suc, ◌-◌, ◌/◌, ◌%◌, List, [], ◌∷◌, Outcome, ok, stop, Stop, leb, if◌then◌else◌, get_or,
}

abbrev pub n_sizes : ℕ
n_sizes = 9

abbrev pub global_heap_id : ℕ
global_heap_id = 0

abbrev pub blocktype_free : ℕ
blocktype_free = 10

abbrev pub blocktype_large : ℕ
blocktype_large = 11

abbrev pub free_page_threshold : ℕ
free_page_threshold = 2

-- 2 * 4096
abbrev pub superblock_page_size : ℕ
superblock_page_size = 8192

abbrev pub largest_superblock_block_size : ℕ
largest_superblock_block_size = 2048

-- On a 64-bit machine: three pointers and three ints, padded to a multiple of 8.
abbrev pub sizeof_pageref : ℕ
sizeof_pageref = 40

-- An int padded to 8, 12 pointers, 12 spinlocks of 4 bytes, and 10 ints.
abbrev pub sizeof_heap : ℕ
sizeof_heap = 192

abbrev pub sizes : List ℕ
sizes = 8 ∷ 16 ∷ 32 ∷ 64 ∷ 128 ∷ 256 ∷ 512 ∷ 1024 ∷ 2048 ∷ []

-- `sizes[block_type]`
abbrev pub size_of : ℕ → ℕ
size_of block_type = get_or sizes block_type 0

-- `(SUPERBLOCK_PAGE_SIZE - sizeof(struct pageref)) / sizes[block_type]`
abbrev pub capacity : ℕ → ℕ
capacity block_type = (superblock_page_size - sizeof_pageref) / size_of block_type

-- The loop of `get_block_type` from index `i`, over the sizes that are left.
unfoldable pub get_block_type_from : ℕ → List ℕ → ℕ → Outcome ℕ
get_block_type_from i [] size = stop Stop.exit_failure
get_block_type_from i (s ∷ rest) size =
    let next = get_block_type_from (suc i) rest size in if leb size s then ok i else next

unfoldable pub get_block_type : ℕ → Outcome ℕ
unfolding get_block_type_from
get_block_type size = get_block_type_from 0 sizes size

-- The page of a block: its address rounded down to a multiple of the page size.
unfoldable pub page_of : ℕ → ℕ
page_of ptr = ptr - ptr % superblock_page_size
