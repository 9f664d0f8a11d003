-- ===== src/Limits.antt =====
-- tmp2/virt.h: the sizes of the emulated memory, as the preprocessor computes them.
use osdesignasst.Prelude.{ℕ, ◌+◌, ◌-◌, ◌*◌, ◌/◌}

-- `MI_ROUND_TO_SIZE`: adding `a - 1` and clearing the low bits, for `a` a power of two, rounds up to
-- a multiple of `a`.
abbrev pub round_to_size : ℕ → ℕ → ℕ
round_to_size n a = (n + (a - 1)) / a * a

abbrev pub page_size : ℕ
page_size = 0x1000

abbrev pub virtual_heap_start : ℕ
virtual_heap_start = 0x60000000

abbrev pub virtual_heap_end : ℕ
virtual_heap_end = 0x607FBFFF

abbrev pub virtual_share_start : ℕ
virtual_share_start = 0x607FC000

abbrev pub virtual_share_end : ℕ
virtual_share_end = 0x607FFFFF

abbrev pub max_virtual_pages : ℕ
max_virtual_pages = round_to_size (virtual_heap_end - virtual_heap_start) page_size / page_size

abbrev pub max_share_pages : ℕ
max_share_pages = round_to_size (virtual_share_end - virtual_share_start) page_size / page_size

abbrev pub max_physical_memory : ℕ
max_physical_memory = 1024 * 1024 * 8

abbrev pub max_physical_pages : ℕ
max_physical_pages = max_physical_memory / page_size
