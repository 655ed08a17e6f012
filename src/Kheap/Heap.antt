-- ===== src/Kheap/Heap.antt =====
-- The whole heap of kheap.c: what each page is used for, the lists of page references, the free
-- blocks of each page, and the free chunks.
pub mod Listed
pub mod Layout
pub mod Keep
pub mod Take
pub mod Grow
pub mod Refs
pub mod Carve
pub mod NewPage
pub mod Subpage
pub mod Search
pub mod Owner
pub mod Put
pub mod Recycle
pub mod Kfree
pub mod Chunks
pub mod Kmalloc
pub mod Calls
pub mod Apart
pub mod Trace
pub mod Checked
mod Tests
use parallel_memory_allocato.Base.{
  ℕ, ◌+◌, ◌-◌, ◌*◌, ◌/◌, ◌%◌, ◌<◌, ◌≡◌, ◌≢◌, ◌⊎◌, Bool, true, false, not, ◌&&◌, Option, none, some,
  List, ◌==◌, has, length, IsDistinct, if◌then◌else◌,
}
use parallel_memory_allocato.Memlib.{null}
use parallel_memory_allocato.Client
use parallel_memory_allocato.A2alloc.Blocks.{Chain, blocks_down}
use parallel_memory_allocato.Kheap.Sizes.{page_size, n_sizes, size_of, smallest_subpage_size, frame}
use parallel_memory_allocato.Kheap.State.{State, PageRef}
use parallel_memory_allocato.Kheap.PageRefs.Remove.{next}

-- The lists of page references.
pub data Loc : Type 0 where
  fresh : Loc
  recycled : Loc
  sized : ℕ → Loc

abbrev pub loc_eq : Loc → Loc → Bool
loc_eq fresh fresh = true
loc_eq recycled recycled = true
loc_eq (sized t) (sized u) = t == u
loc_eq _ _ = false

abbrev pub head : State → Loc → ℕ
head s fresh = s.fresh_refs
head s recycled = s.recycled_refs
head s (sized t) = s.sizebases t

-- `lists` has the page references of each list, and `place` the list of each.
pub record IsListed (next : ℕ → ℕ) (head : Loc → ℕ) (lists : Loc → List ℕ) (place : ℕ → Option Loc)
    : Type 0 where
  pub chain : (l : Loc) → Chain next (head l) (lists l)
  pub distinct : (l : Loc) → IsDistinct (lists l)
  pub placed : (l : Loc) (pr : ℕ) → has pr (lists l) ≡ true → place pr ≡ some l
  pub listed : (l : Loc) (pr : ℕ) → place pr ≡ some l → has pr (lists l) ≡ true

-- What a page is used for: page references, the blocks of a page reference, or a part of a chunk.
pub data Use : Type 0 where
  idle : Use
  refs : Use
  small : ℕ → Use
  part : ℕ → Use

-- The fields of a page reference that do not link it.
pub record RefData : Type 0 where
  pub flist : ℕ
  pub word : ℕ
  pub nfree : ℕ

abbrev pub ref_data : PageRef → RefData
ref_data r = record { flist = r.flist; word = r.pageaddr_and_blocktype; nfree = r.nfree }

unfoldable pub page_in : RefData → ℕ
unfolding frame
page_in r = frame r.word

unfoldable pub class_in : RefData → ℕ
class_in r = r.word % page_size

-- The blocks of a page of a size class.
abbrev pub capacity : ℕ → ℕ
capacity t = page_size / size_of t

abbrev pub all_blocks : ℕ → ℕ → List ℕ
all_blocks page t = blocks_down page (size_of t) (capacity t)

-- A view of the state. `use_of` says what each page is used for.
pub record View : Type 0 where
  pub lists : Loc → List ℕ
  pub place : ℕ → Option Loc
  pub use_of : ℕ → Use
  pub free_blocks : ℕ → List ℕ
  pub free_chunks : List ℕ

-- The page reference `pr` has a page of the class `t` with the free blocks `bs`.
pub record IsClass (cells : ℕ → ℕ) (r : RefData) (use_of : ℕ → Use) (bs : List ℕ) (pr t : ℕ)
    : Type 0 where
  pub below : t < n_sizes
  pub class : class_in r ≡ t
  pub owned : use_of (page_in r) ≡ small pr
  pub chain : Chain cells r.flist bs
  pub counted : r.nfree ≡ length bs
  pub distinct : IsDistinct bs
  pub legit : (b : ℕ) → has b bs ≡ true → has b (all_blocks (page_in r) t) ≡ true

-- A page reference that is not in use has no page, or one of its own.
abbrev pub IsSpare : RefData → (ℕ → Use) → ℕ → Type 0
IsSpare r use_of pr = (page_in r ≡ null) ⊎ (use_of (page_in r) ≡ small pr)

abbrev pub Content : (ℕ → ℕ) → RefData → (ℕ → Use) → List ℕ → ℕ → Loc → Type 0
Content cells r use_of bs pr fresh = IsSpare r use_of pr
Content cells r use_of bs pr recycled = IsSpare r use_of pr
Content cells r use_of bs pr (sized t) = IsClass cells r use_of bs pr t

-- The page references and the pages of small blocks.
pub record IsSubpages (s : State) (w : View) : Type 0 where
  pub linked : IsListed (next s) (head s) w.lists w.place
  pub home : (pr : ℕ) (l : Loc) → w.place pr ≡ some l → w.use_of (frame pr) ≡ refs
  pub item :
      (pr : ℕ) (l : Loc)
      → w.place pr ≡ some l
      → Content s.cells (ref_data (s.refs pr)) w.use_of (w.free_blocks pr) pr l
  pub owner :
      (page pr : ℕ)
      → w.use_of page ≡ small pr
      → (page_in (ref_data (s.refs pr)) ≡ page) × (w.use_of (frame pr) ≡ refs)

abbrev pub npages : State → ℕ → ℕ
npages s hdr = (s.chunks hdr).npages

-- The chunks.
pub record IsChunks (s : State) (w : View) : Type 0 where
  pub chain : Chain (λ c. (s.chunks c).next) s.bigchunks w.free_chunks
  pub distinct : IsDistinct w.free_chunks
  pub free : (hdr : ℕ) → has hdr w.free_chunks ≡ true → w.use_of hdr ≡ part hdr
  pub chunk :
      (hdr : ℕ)
      → w.use_of hdr ≡ part hdr
      → (0 < npages s hdr)
        × ((i : ℕ) → i < npages s hdr → w.use_of (hdr + i * page_size) ≡ part hdr)

-- A page of the segment.
abbrev pub IsPage : State → ℕ → Type 0
IsPage s page = (page % page_size ≡ 0) × (page ≢ null) × (page < s.dseg.dseg_end)

pub record IsHeap (s : State) (w : View) : Type 0 where
  pub subpages : IsSubpages s w
  pub chunks : IsChunks s w
  pub used : (page : ℕ) → (w.use_of page ≡ idle) ⊎ IsPage s page
  pub ended : s.dseg.dseg_end % page_size ≡ 0

-- Whether `a` is a block that the allocator has handed out and not taken back.
abbrev pub live_small : RefData → List ℕ → Option Loc → ℕ → ℕ → Bool
live_small r bs (some (sized t)) page a = has a (all_blocks page t) && not (has a bs)
live_small r bs (some fresh) page a = false
live_small r bs (some recycled) page a = false
live_small r bs none page a = false

abbrev pub live_on : State → View → ℕ → ℕ → Use → Bool
live_on s w page a idle = false
live_on s w page a refs = false
live_on s w page a (small pr) =
    live_small (ref_data (s.refs pr)) (w.free_blocks pr) (w.place pr) page a
live_on s w page a (part hdr) =
    a == page + smallest_subpage_size && page == hdr && not (has hdr w.free_chunks)

abbrev pub live : State → View → ℕ → Bool
live s w a = live_on s w (frame a) a (w.use_of (frame a))

-- The bytes from a block to the next one, or to the end of its chunk.
abbrev pub room_on : State → ℕ → Use → ℕ
room_on s page idle = 0
room_on s page refs = 0
room_on s page (small pr) = size_of (class_in (ref_data (s.refs pr)))
room_on s page (part hdr) = npages s page * page_size - smallest_subpage_size

abbrev pub room : State → View → ℕ → ℕ
room s w a = room_on s (frame a) (w.use_of (frame a))

abbrev pub Allots : State → View → ℕ → ℕ × State → Type 0
Allots = Client.Allots IsHeap live room

abbrev pub Frees : State → View → ℕ → State → Type 0
Frees = Client.Frees IsHeap live room
