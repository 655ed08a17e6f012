-- ===== src/A2alloc/Heap.antt =====
-- The whole heap of a2alloc.c: where each page is, what its header says, and which blocks are free.
pub mod Frame
pub mod Count
pub mod Keep
pub mod Relocate
pub mod Give
pub mod PushBlock
pub mod SmallFree
pub mod Take
pub mod FindPage
pub mod FreshPage
pub mod SmallMalloc
pub mod LargeMalloc
pub mod Malloc
pub mod Chop
pub mod CutUp
pub mod LargeFree
pub mod Free
pub mod Init
pub mod Apart
pub mod Inside
pub mod Trace
mod Tests
use parallel_memory_allocato.Base.{
  ℕ, ◌+◌, ◌-◌, if◌then◌else◌, ◌*◌, ◌%◌, ◌<◌, ◌≡◌, ◌≢◌, Bool, true, false, not, ◌&&◌, Option, none,
  some, List, ◌≤◌, ◌==◌, has, length, IsDistinct,
}
use parallel_memory_allocato.Memlib.{null}
use parallel_memory_allocato.A2alloc.Sizes.{
  n_sizes, blocktype_large, superblock_page_size, sizeof_pageref, page_of, size_of,
}
use parallel_memory_allocato.A2alloc.State.{State, PageRef, Loc, free, complete, large, sized}
use parallel_memory_allocato.A2alloc.Links.{links, IsLinked}
use parallel_memory_allocato.A2alloc.Blocks.{Chain}
use parallel_memory_allocato.A2alloc.Blocks.Carve.{fresh_blocks}

-- The fields of a page's header that are not links between pages.
pub record PageData : Type 0 where
  pub flist : ℕ
  pub block_type : ℕ
  pub count : ℕ
  pub heap_id : ℕ

abbrev pub page_data : PageRef → PageData
page_data r = record {
  flist = r.flist;
  block_type = r.block_type;
  count = r.count;
  heap_id = r.heap_id;
}

-- A view of the state: the pages of each list, the list of each page, the large block that an
-- address of a page lies inside of, and the free blocks of each page.
pub record View : Type 0 where
  pub lists : Loc → List ℕ
  pub place : ℕ → Option Loc
  pub within : ℕ → Option ℕ
  pub free_blocks : ℕ → List ℕ

-- A page of small blocks of the heap `h` whose free blocks are `bs`.
pub record IsClass (cells : ℕ → ℕ) (r : PageData) (bs : List ℕ) (page h : ℕ) : Type 0 where
  pub class : r.block_type < n_sizes
  pub heap : r.heap_id ≡ h
  pub chain : Chain cells r.flist bs
  pub counted : r.count ≡ length bs
  pub distinct : IsDistinct bs
  pub legit : (b : ℕ) → has b bs ≡ true → has b (fresh_blocks page r.block_type) ≡ true

-- What the header of a page on a list says.
abbrev pub Content :
    (cells : ℕ → ℕ) (r : PageData) (within : ℕ → Option ℕ) (bs : List ℕ) (page : ℕ) → Loc → Type 0
Content cells r within bs page (free h) = Unit
Content cells r within bs page (complete h) = IsClass cells r bs page h × (r.count ≡ 0)
Content cells r within bs page (sized h t) =
    IsClass cells r bs page h × (r.block_type ≡ t) × (r.count ≢ 0)
Content cells r within bs page (large h) =
    (r.heap_id ≡ h)
    × (r.block_type ≡ blocktype_large)
    × ((i : ℕ) → 0 < i → i < r.count → within (page + i * superblock_page_size) ≡ some page)

pub record Item (s : State) (w : View) (page : ℕ) (l : Loc) : Type 0 where
  pub aligned : page % superblock_page_size ≡ 0
  pub above : s.dseg.dseg_lo ≤ page
  pub below : page < s.dseg.dseg_end
  pub content : Content s.cells (page_data (s.pages page)) w.within (w.free_blocks page) page l

pub record IsHeap (s : State) (w : View) : Type 0 where
  pub linked : IsLinked (links s) w.lists w.place
  pub item : (page : ℕ) (l : Loc) → w.place page ≡ some l → Item s w page l
  pub inside :
      (a p : ℕ)
      → w.within a ≡ some p
      → (w.place a ≡ none) × (a < s.dseg.dseg_end) × (a % superblock_page_size ≡ 0) × (a ≢ null)
  pub started : s.dseg.dseg_lo ≤ s.dseg.dseg_end
  pub ended : s.dseg.dseg_end % superblock_page_size ≡ 0

-- Whether `a` is a block of the page that the allocator has handed out and not taken back.
abbrev pub live_on : PageData → List ℕ → Option Loc → ℕ → ℕ → Bool
live_on r bs none page a = false
live_on r bs (some (free h)) page a = false
live_on r bs (some (complete h)) page a = has a (fresh_blocks page r.block_type) && not (has a bs)
live_on r bs (some (sized h t)) page a = has a (fresh_blocks page r.block_type) && not (has a bs)
live_on r bs (some (large h)) page a = a == page + sizeof_pageref

abbrev pub live : State → View → ℕ → Bool
live s w a =
    let page = page_of a in
    live_on (page_data (s.pages page)) (w.free_blocks page) (w.place page) page a

-- The bytes from a block of the page to the next block or to the end of its pages.
abbrev pub room_of : PageData → ℕ
room_of r =
    if r.block_type == blocktype_large
    then r.count * superblock_page_size - sizeof_pageref
    else size_of r.block_type

abbrev pub room : State → ℕ → ℕ
room s a = room_of (page_data (s.pages (page_of a)))
