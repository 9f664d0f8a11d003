-- ===== src/Malloc.antt =====
-- tmp2/my_malloc.c: the allocator of a thread's heap. A page of the heap (a trunk) is cut into four
-- regions of 1 KB, each with slots of one size; its metadata says which slots are taken.
pub mod Slots
pub mod Classes
pub mod Trunk
pub mod Heap
mod Tests
use osdesignasst.Prelude.{
  ℕ, ◌+◌, ◌-◌, ◌*◌, ◌/◌, ◌%◌, ◌^◌, Bool, ◌&&◌, ◌||◌, Option, none, some, List, ◌==◌, leb, ltb,
  if◌then◌else◌, get_elem?, set, replicate, find_index?,
}
use osdesignasst.Limits.{page_size}

-- The size classes, named by their regions.
pub data Class : Type 0 where
  c32 c64 c128 c512 : Class

-- the bytes of a slot
abbrev pub width : Class → ℕ
width c32 = 32
width c64 = 64
width c128 = 128
width c512 = 512

-- MAX_REGION32_NUM, MAX_REGION64_NUM, MAX_REGION128_NUM and MAX_REGION512_NUM
abbrev pub slots_num : Class → ℕ
slots_num c32 = 32
slots_num c64 = 16
slots_num c128 = 8
slots_num c512 = 2

-- where the region starts in its trunk
abbrev pub start : Class → ℕ
start c32 = 0
start c64 = 0x400
start c128 = 0x800
start c512 = 0xc00

-- `regionN` and `regionN_count`
pub record Region : Type 0 where
  pub slots : List ℕ
  pub count : ℕ

-- `heap_metadata_t`
pub record Metadata : Type 0 where
  pub region32 : Region
  pub region64 : Region
  pub region128 : Region
  pub region512 : Region

abbrev pub region : Class → Metadata → Region
region c32 m = m.region32
region c64 m = m.region64
region c128 m = m.region128
region c512 m = m.region512

abbrev pub with_region : Class → Region → Metadata → Metadata
with_region c32 r m = record m { region32 = r }
with_region c64 r m = record m { region64 = r }
with_region c128 r m = record m { region128 = r }
with_region c512 r m = record m { region512 = r }

-- A region of a page that `memset` has cleared.
abbrev pub cleared_region : Class → Region
cleared_region c = record { slots = replicate (slots_num c) 0; count = 0 }

abbrev pub cleared : Metadata
cleared = record {
  region32 = cleared_region c32;
  region64 = cleared_region c64;
  region128 = cleared_region c128;
  region512 = cleared_region c512;
}

abbrev pub is_clear : ℕ → Bool
is_clear s = 0 == s

abbrev pub is_taken : ℕ → Bool
is_taken s = 1 == s

-- The ladder of `_malloc` on the size: no class for 0 bytes or for more than 512.
unfoldable pub class_of : ℕ → Option Class
class_of size =
    if 0 == size
    then none
    else if leb size 32
    then some c32
    else if leb size 64
    then some c64
    else if leb size 128
    then some c128
    else if leb size 512
    then some c512
    else none

abbrev pub take_slot_at : Region → Option ℕ → Option ℕ × Region
take_slot_at r none = (none, r)
take_slot_at r (some i) = (some i, record { slots = set r.slots i 1; count = r.count + 1 })

-- A branch of `_malloc`: the first clear slot of the region, if the count says that there is one.
unfoldable pub take_slot : Class → Region → Option ℕ × Region
take_slot c r =
    if leb (slots_num c) r.count then (none, r) else take_slot_at r (find_index? is_clear r.slots)

abbrev pub slot_address : Class → (base : ℕ) → Option ℕ → Option ℕ
slot_address c base none = none
slot_address c base (some i) = some (base + start c + i * width c)

abbrev pub malloc_class : Metadata → (base : ℕ) → Option Class → Option ℕ × Metadata
malloc_class m base none = (none, m)
malloc_class m base (some c) =
    let (slot, r) = take_slot c (region c m) in (slot_address c base slot, with_region c r m)

-- `_malloc`; `none` is `NULL`. The new metadata is what it writes through its pointer.
unfoldable pub malloc_trunk : Metadata → (base : ℕ) → (size : ℕ) → Option ℕ × Metadata
unfolding take_slot class_of
malloc_trunk m base size = malloc_class m base (class_of size)

-- The ladder of `_free` on the offset: the region that it lies in, if it is the start of a slot.
unfoldable pub class_at : ℕ → Option Class
class_at offset =
    if (0 == offset / 0x400) && (0 == offset % 32)
    then some c32
    else if (1 == offset / 0x400) && (0 == offset % 64)
    then some c64
    else if (2 == offset / 0x400) && (0 == offset % 128)
    then some c128
    else if (3 == offset / 0x400) && (0 == offset % 512)
    then some c512
    else none

abbrev pub clear_slot_at : Region → (slot : ℕ) → Option ℕ → Region
clear_slot_at r slot none = r
clear_slot_at r slot (some taken) =
    if 1 == taken then record { slots = set r.slots slot 0; count = r.count - 1 } else r

-- A branch of `_free`: an empty region and a slot that is not taken are errors, and change nothing.
unfoldable pub clear_slot : Region → (slot : ℕ) → Region
clear_slot r slot = if 0 == r.count then r else clear_slot_at r slot (get_elem? r.slots slot)

abbrev pub free_class : Metadata → (offset : ℕ) → Option Class → Metadata
free_class m offset none = m
free_class m offset (some c) =
    with_region c (clear_slot (region c m) ((offset - start c) / width c)) m

-- `(int)(ptr - base)` as a bit pattern: the offsets that are negative are those from 2 ^ 31 on.
unfoldable pub offset_of : (base ptr : ℕ) → ℕ
offset_of base ptr = (ptr + 2 ^ 64 - base) % 2 ^ 32

-- `_free`. An offset that is negative or not in the page is an error, and changes nothing.
unfoldable pub free_trunk : Metadata → (base : ℕ) → (ptr : ℕ) → Metadata
unfolding clear_slot class_at
free_trunk m base ptr =
    let offset = offset_of base ptr in
    if leb page_size offset then m else free_class m offset (class_at offset)
