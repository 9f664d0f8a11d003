-- ===== src/Code/Malloc.antt =====
-- code/my_malloc.c: the earlier allocator. One page for each thread, found by the thread's id, and
-- `reclaim_current_heap`, which clears the page when the thread ends. The metadata has the fields and
-- sizes of tmp2/my_malloc.c, so its type is the one of Malloc; `_malloc` and `_free` are written here as
-- the source has them, branch by branch.
pub mod Same
pub mod Threads
pub mod Reclaim
mod Tests
use osdesignasst.Prelude.{
  ℕ, ◌+◌, ◌-◌, ◌*◌, ◌/◌, ◌%◌, Bool, ◌&&◌, ◌||◌, true, false, Option, none, some, List, ◌==◌, leb,
  ltb, if◌then◌else◌, Outcome, Fault, ok, fault, segv, out_of_bounds, ◌>>=◌, get_elem?, set, length,
  replicate, find_index?,
}
use osdesignasst.Limits.{page_size}
use osdesignasst.Malloc.{Region, Metadata, is_clear, cleared, offset_of}
use osdesignasst.Malloc.Heap.{max_trunks}

-- The `for` loop of a branch of `_malloc`: the first clear slot is marked, and its address is returned.
abbrev pub mark_first : Region → (at width : ℕ) → Option ℕ → Option ℕ × Region
mark_first r at width none = (none, r)
mark_first r at width (some i) =
    (some (at + i * width), record { slots = set r.slots i 1; count = r.count + 1 })

-- `_malloc`. The four branches and the tests on the size, in the order of the source.
unfoldable pub malloc_page : Metadata → (base size : ℕ) → Option ℕ × Metadata
malloc_page m base size =
    if 0 == size
    then (none, m)
    else if leb size 32
    then if leb 32 m.region32.count
      then (none, m)
      else (let (ptr, r) =
            mark_first m.region32 (base + 0) 32 (find_index? is_clear m.region32.slots) in
          (ptr, record m { region32 = r }))
    else if leb size 64
    then if leb 16 m.region64.count
      then (none, m)
      else (let (ptr, r) =
            mark_first m.region64 (base + 0x400) 64 (find_index? is_clear m.region64.slots) in
          (ptr, record m { region64 = r }))
    else if leb size 128
    then if leb 8 m.region128.count
      then (none, m)
      else (let (ptr, r) =
            mark_first m.region128 (base + 0x800) 128 (find_index? is_clear m.region128.slots) in
          (ptr, record m { region128 = r }))
    else if leb size 512
    then if leb 2 m.region512.count
      then (none, m)
      else (let (ptr, r) =
            mark_first m.region512 (base + 0xc00) 512 (find_index? is_clear m.region512.slots) in
          (ptr, record m { region512 = r }))
    else (none, m)

-- A branch of `_free`, on the slot that it reads.
abbrev pub unmark : Region → (slot : ℕ) → Option ℕ → Region
unmark r slot none = r
unmark r slot (some mark) =
    if 1 == mark then record { slots = set r.slots slot 0; count = r.count - 1 } else r

abbrev pub free_in : Region → (slot : ℕ) → Region
free_in r slot = if 0 == r.count then r else unmark r slot (get_elem? r.slots slot)

-- `_free`
unfoldable pub free_page : Metadata → (base ptr : ℕ) → Metadata
free_page m base ptr =
    let offset = offset_of base ptr in
    if leb page_size offset
    then m
    else if (0 == offset / 0x400) && (0 == offset % 32)
    then record m { region32 = free_in m.region32 ((offset - 0) / 32) }
    else if (1 == offset / 0x400) && (0 == offset % 64)
    then record m { region64 = free_in m.region64 ((offset - 0x400) / 64) }
    else if (2 == offset / 0x400) && (0 == offset % 128)
    then record m { region128 = free_in m.region128 ((offset - 0x800) / 128) }
    else if (3 == offset / 0x400) && (0 == offset % 512)
    then record m { region512 = free_in m.region512 ((offset - 0xc00) / 512) }
    else m

-- The tests of the four branches of `_free`.
abbrev pub is_slot : (offset : ℕ) → Bool
is_slot offset =
    ((0 == offset / 0x400) && (0 == offset % 32))
    || ((1 == offset / 0x400) && (0 == offset % 64))
    || ((2 == offset / 0x400) && (0 == offset % 128))
    || ((3 == offset / 0x400) && (0 == offset % 512))

-- The globals: `g_malloc_init`, `g_pages` after a successful `mmap`, the metadata records that fit in its
-- first page, and the pages behind it that threads use. A page is a value of any type.
pub record Pool (Page : Type 0) : Type 0 where
  pub malloc_init : Bool
  pub pages : Option ℕ
  pub metadata : List Metadata
  pub heap : List Page

-- `tid` of both calls: 0 before `my_pthread_init`.
abbrev pub tid_or_0 : (current : Option ℕ) → ℕ
tid_or_0 none = 0
tid_or_0 (some tid) = tid

-- The base of a thread's page, `g_heap_pages + tid * PAGE_SIZE`.
abbrev pub heap_base : (pages tid : ℕ) → ℕ
heap_base pages tid = pages + page_size + tid * page_size

module _ {Page : Type 0} (zeros : Page) where
  -- `my_malloc_init` sets the pool up, if `mmap` gives it an address; else it returns -1.
  unfoldable pub my_malloc_init : (mapped : Option ℕ) → Pool Page → Pool Page
  my_malloc_init none p = p
  my_malloc_init (some addr) p = record p {
    pages = some addr;
    metadata = replicate max_trunks cleared;
    heap = replicate (1024 * 8 - 1) zeros;
  }

  -- The start of `my_malloc`: `g_malloc_init` is set whatever `my_malloc_init` returned.
  abbrev pub ensure_init : (mapped : Option ℕ) → Pool Page → Pool Page
  ensure_init mapped p =
      if p.malloc_init then p else record (my_malloc_init mapped p) { malloc_init = true }

module _ {Page : Type 0} where
  abbrev pub store : Pool Page → (tid : ℕ) → Option ℕ × Metadata → Option ℕ × Pool Page
  store p tid (ptr, m) = (ptr, record p { metadata = set p.metadata tid m })

  -- `_malloc` reads the metadata if the size is none of those that it refuses at once.
  abbrev pub malloc_unmapped : (size : ℕ) → Fault → Pool Page → Outcome (Option ℕ × Pool Page)
  malloc_unmapped size e p = if (0 == size) || ltb 512 size then ok (none, p) else fault e

  abbrev pub malloc_on :
      (size tid : ℕ) → Pool Page → Option ℕ → Option Metadata → Outcome (Option ℕ × Pool Page)
  malloc_on size tid p none m = malloc_unmapped size segv p
  malloc_on size tid p (some pages) none = malloc_unmapped size out_of_bounds p
  malloc_on size tid p (some pages) (some m) =
      ok (store p tid (malloc_page m (heap_base pages tid) size))

  -- `my_malloc`, with what `mmap` answers if the pool is not set up. Without a pool the metadata is at
  -- an address near 0.
  unfoldable pub my_malloc :
      (zeros : Page) (mapped : Option ℕ) (size : ℕ) (current : Option ℕ)
      → Pool Page
      → Outcome (Option ℕ × Pool Page)
  my_malloc zeros mapped size current p =
      let q = ensure_init zeros mapped p in
      malloc_on size (tid_or_0 current) q q.pages (get_elem? q.metadata (tid_or_0 current))

  -- `_free` reads the metadata if the address is that of a slot.
  abbrev pub free_unmapped : (base ptr : ℕ) → Fault → Pool Page → Outcome (Pool Page)
  free_unmapped base ptr e p = if is_slot (offset_of base ptr) then fault e else ok p

  abbrev pub free_on : (ptr tid : ℕ) → Pool Page → Option ℕ → Option Metadata → Outcome (Pool Page)
  free_on ptr tid p none m = free_unmapped (tid * page_size) ptr segv p
  free_on ptr tid p (some pages) none = free_unmapped (heap_base pages tid) ptr out_of_bounds p
  free_on ptr tid p (some pages) (some m) =
      ok (record p { metadata = set p.metadata tid (free_page m (heap_base pages tid) ptr) })

  -- `my_free`, in the page of the running thread, wherever the block is from.
  unfoldable pub my_free : (ptr : ℕ) (current : Option ℕ) → Pool Page → Outcome (Pool Page)
  my_free ptr current p =
      free_on ptr (tid_or_0 current) p p.pages (get_elem? p.metadata (tid_or_0 current))

  abbrev pub reclaim_on : (zeros : Page) (tid : ℕ) → Pool Page → Option ℕ → Outcome (Pool Page)
  reclaim_on zeros tid p none = fault segv
  reclaim_on zeros tid p (some pages) =
      if ltb tid (length p.metadata) && ltb tid (length p.heap)
      then ok (record p { metadata = set p.metadata tid cleared; heap = set p.heap tid zeros })
      else fault out_of_bounds

  -- `reclaim_current_heap`, at the end of the thread `tid`
  unfoldable pub reclaim_current_heap : (zeros : Page) (tid : ℕ) → Pool Page → Outcome (Pool Page)
  reclaim_current_heap zeros tid p = reclaim_on zeros tid p p.pages
