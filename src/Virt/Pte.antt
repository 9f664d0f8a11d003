-- ===== src/Virt/Pte.antt =====
-- tmp2/virt.h: a page table entry, `mmpte`, is one number that is read in two ways. The hardware form
-- has the valid bit, the write bit, ten reserved bits and the page frame number; the software form has
-- the valid bit, the swapped-out bit and the position in the swap file.
use osdesignasst.Prelude.{ℕ, ◌+◌, ◌-◌, ◌*◌, ◌/◌, ◌%◌, ◌^◌, ◌<◌, ◌≡◌, ◌≢◌, arith}

unfoldable pub valid : ℕ → ℕ
valid e = e % 2

unfoldable pub pageframenumber : ℕ → ℕ
pageframenumber e = e / 2 ^ 12 % 2 ^ 20

unfoldable pub swapout : ℕ → ℕ
swapout e = e / 2 % 2

unfoldable pub gefilea_pos : ℕ → ℕ
gefilea_pos e = e / 2 ^ 2 % 2 ^ 30

-- A write to a bit field keeps the other bits, and only the low bits of the value.
unfoldable pub with_valid : ℕ → ℕ → ℕ
with_valid v e = e - e % 2 + v % 2

unfoldable pub with_pageframenumber : ℕ → ℕ → ℕ
with_pageframenumber v e = e - e / 2 ^ 12 % 2 ^ 20 * 2 ^ 12 + v % 2 ^ 20 * 2 ^ 12

unfoldable pub with_swapout : ℕ → ℕ → ℕ
with_swapout v e = e - e / 2 % 2 * 2 + v % 2 * 2

unfoldable pub with_gefilea_pos : ℕ → ℕ → ℕ
with_gefilea_pos v e = e - e / 2 ^ 2 % 2 ^ 30 * 2 ^ 2 + v % 2 ^ 30 * 2 ^ 2

-- The entry of a page in frame `pfn`, written over the entry `e`.
unfoldable pub mapped : (pfn e : ℕ) → ℕ
unfolding with_valid with_pageframenumber
mapped pfn e = with_valid 1 (with_pageframenumber pfn e)

-- The entry of a page that has gone to the swap file, written over the entry `e`.
unfoldable pub swapped : (offset e : ℕ) → ℕ
unfolding with_valid with_swapout with_gefilea_pos
swapped offset e = with_gefilea_pos offset (with_swapout 1 (with_valid 0 e))

-- A frame number below 2 ^ 20 is read back from the entry of its page, which is valid.
pub mapped_lem :
    (pfn : ℕ) → pfn < 2 ^ 20 → (valid (mapped pfn 0) ≡ 1) × (pageframenumber (mapped pfn 0) ≡ pfn)
unfolding valid pageframenumber mapped
mapped_lem pfn h = omega arith

-- An offset below 2 ^ 30 is read back from the entry of a swapped-out page, whatever the entry was
-- before; the entry is not valid, is marked as swapped out, and is not the free entry.
pub swapped_lem :
    (offset e : ℕ)
    → offset < 2 ^ 30
    → (valid (swapped offset e) ≡ 0)
      × (swapout (swapped offset e) ≡ 1)
      × (gefilea_pos (swapped offset e) ≡ offset)
      × (swapped offset e ≢ 0)
unfolding valid swapout gefilea_pos swapped
swapped_lem offset e h = omega arith
