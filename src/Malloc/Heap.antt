-- ===== src/Malloc/Heap.antt =====
-- tmp2/my_malloc.c: `my_malloc` and `my_free` on the trunks of the current thread's heap. Pages come
-- from `mm_allocate_page`, which is a parameter here; the module Virt has the program's own.
pub mod Grow
pub mod Free
pub mod Serve
pub mod Start
pub mod Tests
use osdesignasst.Prelude.{
  ℕ, zero, suc, ◌+◌, ◌-◌, ◌*◌, ◌/◌, ◌%◌, ◌^◌, ◌==◌, ◌||◌, leb, Bool, true, false, Option, none,
  some, List, [], ltb, if◌then◌else◌, Outcome, ok, fault, out_of_bounds, segv, ◌>>=◌, get_elem?,
  set, replicate,
}
use osdesignasst.Limits.{page_size, virtual_heap_start}
use osdesignasst.Malloc.{
  Class, c512, class_of, class_at, offset_of, Metadata, cleared, malloc_trunk, free_trunk,
}

-- `sizeof(heap_metadata_t)`: four `char` arrays and four `int`s, with two bytes of padding.
abbrev pub metadata_size : ℕ
metadata_size = 32 + 4 + (16 + 4) + (8 + 4) + (2 + 2 + 4)

-- How many metadata records the first page holds.
abbrev pub max_trunks : ℕ
max_trunks = page_size / metadata_size

-- `g_heap_pages` after `my_malloc_init`
abbrev pub heap_pages : ℕ
heap_pages = virtual_heap_start + page_size

-- What the allocator keeps of the current thread: `heap_init` and `heap_trunk_count` of its
-- `thread_info_t`, and the metadata records in the first page of its heap, of which there are none
-- before `my_malloc_init`. `past` is what the page holds of the record behind them: all but the region of the
-- largest blocks, which would lie in the first trunk.
pub record Heap : Type 0 where
  pub heap_init : Bool
  pub trunk_count : ℕ
  pub metadata : List Metadata
  pub past : Metadata

abbrev pub fresh : Heap
fresh = record { heap_init = false; trunk_count = 0; metadata = []; past = cleared }

-- `my_malloc_init` after its two pages: the first, which `mm_allocate_page` clears, has the metadata.
abbrev pub first_trunk : Heap
first_trunk = record {
  heap_init = true;
  trunk_count = 1;
  metadata = replicate max_trunks cleared;
  past = cleared;
}

abbrev pub store_metadata : Heap → ℕ → Option ℕ × Metadata → Option ℕ × Heap
store_metadata h i (ptr, m) = (ptr, record h { metadata = set h.metadata i m })

-- Without a class `_malloc` returns before it reads the record. The record at `max_trunks` serves all but
-- the largest class; what lies past the page is out of bounds.
abbrev pub malloc_past : Heap → (size i : ℕ) → Option Class → Outcome (Option ℕ × Heap)
malloc_past h size i none = ok (none, h)
malloc_past h size i (some c512) = fault out_of_bounds
malloc_past h size i (some c) =
    let r = malloc_trunk h.past (heap_pages + i * page_size) size in
    if i == max_trunks then ok (r.0, record h { past = r.1 }) else fault out_of_bounds

abbrev pub malloc_at : Heap → (size i : ℕ) → Option Metadata → Outcome (Option ℕ × Heap)
malloc_at h size i none = malloc_past h size i (class_of size)
malloc_at h size i (some m) =
    ok (store_metadata h i (malloc_trunk m (heap_pages + i * page_size) size))

-- `_malloc(&g_metadata[i], g_heap_pages + i * PAGE_SIZE, size)`
unfoldable pub malloc_in : Heap → (size i : ℕ) → Outcome (Option ℕ × Heap)
malloc_in h size i = malloc_at h size i (get_elem? h.metadata i)

-- The `for` loop over the trunks: `n` rounds from trunk `i`, up to the first that has a block.
unfoldable pub try_trunks : (n i : ℕ) → (size : ℕ) → Heap → Outcome (Option ℕ × Heap)
try_trunks zero i size h = ok (none, h)
try_trunks (suc n) i size h = elim (malloc_in h size i) [
  | fault e ↦ fault e
  | ok (some ptr, h') ↦ ok (some ptr, h')
  | ok (none, h') ↦ try_trunks n (i + 1) size h'
]

module _ {Vm : Type 0} (mm_allocate_page : Vm → Outcome (Option ℕ × Vm)) where
  -- The returned addresses are not looked at.
  unfoldable pub my_malloc_init : Heap → Vm → Outcome (Heap × Vm)
  my_malloc_init h vm = do
    first ← mm_allocate_page vm
    second ← mm_allocate_page first.1
    ok (first_trunk, second.1)

  unfoldable pub ensure_init : Heap → Vm → Outcome (Heap × Vm)
  unfolding my_malloc_init
  ensure_init h vm = if h.heap_init then ok (h, vm) else my_malloc_init h vm

  -- The end of `my_malloc`: a page for a new trunk, and one more try, in that trunk.
  unfoldable pub grow : (size : ℕ) → Heap → Vm → Outcome (Option ℕ × Heap × Vm)
  grow size h vm = do
    page ← mm_allocate_page vm
    got ← malloc_in (record h { trunk_count = h.trunk_count + 1 }) size h.trunk_count
    ok (got.0, got.1, page.1)

  abbrev pub grow_unless : (size : ℕ) → Vm → Option ℕ × Heap → Outcome (Option ℕ × Heap × Vm)
  grow_unless size vm (some ptr, h) = ok (some ptr, h, vm)
  grow_unless size vm (none, h) = grow size h vm

  -- `my_malloc`. `CURRENT` is `none` before `my_pthread_init`: `get_heap_init` reads through it
  -- before the test for `NULL`.
  unfoldable pub my_malloc : (size : ℕ) → Option Heap → Vm → Outcome (Option ℕ × Heap × Vm)
  unfolding ensure_init grow
  my_malloc size none vm = fault segv
  my_malloc size (some heap) vm = do
    ready ← ensure_init heap vm
    got ← try_trunks ready.0.trunk_count 0 size ready.0
    grow_unless size ready.1 got

-- Likewise, `_free` reads the record if the address is that of a slot.
abbrev pub free_past : Heap → (ptr trunk : ℕ) → Option Class → Outcome Heap
free_past h ptr trunk none = ok h
free_past h ptr trunk (some c512) = fault out_of_bounds
free_past h ptr trunk (some c) =
    if trunk == max_trunks
    then ok (record h { past = free_trunk h.past (heap_pages + trunk * page_size) ptr })
    else fault out_of_bounds

abbrev pub free_at : Heap → (ptr trunk : ℕ) → Option Metadata → Outcome Heap
free_at h ptr trunk none =
    free_past h ptr trunk (class_at (offset_of (heap_pages + trunk * page_size) ptr))
free_at h ptr trunk (some m) = ok (record h {
  metadata = set h.metadata trunk (free_trunk m (heap_pages + trunk * page_size) ptr);
})

-- `my_free`: the trunk is found from the address, by the difference as an `int`, which is negative below
-- `g_heap_pages`.
unfoldable pub my_free : (ptr : ℕ) → Heap → Outcome Heap
my_free ptr h =
    let offset = (ptr - heap_pages) % 2 ^ 32 in
    if ltb ptr heap_pages || leb (2 ^ 31) offset
    then ok h
    else let trunk = offset / page_size in free_at h ptr trunk (get_elem? h.metadata trunk)
