-- ===== src/Swap.antt =====
-- tmp2/swap.c: the swap file, a table of page slots. The contents of a page are never looked at, so
-- a page is a value of any type. The file is the list of its pages; `opens` says whether `fopen`
-- succeeds, and reads and writes of an open file move a whole page.
pub mod Slots
pub mod Roundtrip
mod Tests
use osdesignasst.Prelude.{
  ℕ, ◌+◌, ◌-◌, ◌*◌, ◌/◌, ◌%◌, Bool, Option, none, some, List, ◌==◌, leb, if◌then◌else◌, Outcome, ok,
  fault, panic, assert_failed, out_of_bounds, get_elem?, set, replicate, find_index?,
}
use osdesignasst.Limits.{page_size}

abbrev pub swap_file_size : ℕ
swap_file_size = 16 * 1024 * 1024

abbrev pub max_swap_slots : ℕ
max_swap_slots = swap_file_size / page_size

-- `g_swap`, `g_swap_count` and the file behind them. The count is an `int` that stays non-negative as
-- long as it is the number of marked slots, which `IsValid` states.
pub record Swap (Page : Type 0) : Type 0 where
  pub slots : List ℕ
  pub count : ℕ
  pub file : List Page
  pub opens : Bool

abbrev pub is_clear : ℕ → Bool
is_clear c = 0 == c

abbrev pub is_marked : ℕ → Bool
is_marked c = 1 == c

module _ {Page : Type 0} where
  -- The table is cleared and the file made anew, at its full size, with zero pages.
  -- `g_swap_count` is left as it is.
  unfoldable pub swap_init : Page → Swap Page → Outcome (Swap Page)
  swap_init zeros s =
      if s.opens
      then ok
          (record s { slots = replicate max_swap_slots 0; file = replicate max_swap_slots zeros })
      else fault panic

  -- The `fwrite` of a page at the offset of slot `i`, after the slot is taken.
  abbrev pub write_slot : Page → Swap Page → ℕ → Outcome (ℕ × Swap Page)
  write_slot page s i =
      if s.opens
      then ok (
        i * page_size,
        record s { slots = set s.slots i 1; count = s.count + 1; file = set s.file i page },
      )
      else fault panic

  -- If no slot is clear, the assertion reads `g_swap[MAX_SWAP_SLOTS]`.
  abbrev pub swap_out_at : Page → Swap Page → Option ℕ → Outcome (ℕ × Swap Page)
  swap_out_at page s none = fault out_of_bounds
  swap_out_at page s (some i) = write_slot page s i

  -- `swap_out`: the page is `*addr`, and the result the offset in the file.
  unfoldable pub swap_out : Page → Swap Page → Outcome (ℕ × Swap Page)
  swap_out page s =
      if leb max_swap_slots s.count
      then fault panic
      else swap_out_at page s (find_index? is_clear s.slots)

  -- The slot is cleared before the file is read.
  abbrev pub read_slot : Swap Page → ℕ → Option Page → Outcome (Page × Swap Page)
  read_slot s i none = fault assert_failed
  read_slot s i (some page) =
      if s.opens
      then ok (page, record s { slots = set s.slots i 0; count = s.count - 1 })
      else fault panic

  abbrev pub swap_in_at : Swap Page → ℕ → Option ℕ → Outcome (Page × Swap Page)
  swap_in_at s i none = fault out_of_bounds
  swap_in_at s i (some c) =
      if 1 == c then read_slot s i (get_elem? s.file i) else fault assert_failed

  -- `swap_in`: the page goes to `*buffer`. A read behind the end of the file is short, which the
  -- last assertion finds.
  unfoldable pub swap_in : ℕ → Swap Page → Outcome (Page × Swap Page)
  swap_in offset s =
      if 0 == offset % page_size
      then swap_in_at s (offset / page_size) (get_elem? s.slots (offset / page_size))
      else fault assert_failed
