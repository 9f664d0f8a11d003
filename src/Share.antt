-- ===== src/Share.antt =====
-- tmp2/shm.c: the pages that all threads share, with a table of marks and a count.
pub mod Prefix
pub mod Defects
mod Tests
use osdesignasst.Prelude.{
  ℕ, zero, suc, ◌+◌, ◌-◌, ◌*◌, ◌/◌, ◌%◌, ◌^◌, Bool, ◌&&◌, ◌||◌, Option, none, some, List, [], ◌∷◌,
  ◌==◌, leb, ltb, not, if◌then◌else◌, Outcome, ok, fault, out_of_bounds, set, drop, replicate,
  find_index?,
}
use osdesignasst.Prelude.Int.{ℤ, pos, pos_part, neg_part, ◌+ℤ◌, ◌-ℤ◌}
use osdesignasst.Limits.{
  page_size, round_to_size, max_share_pages, virtual_share_start, virtual_share_end,
}

-- `g_share` and `g_share_count`
pub record Share : Type 0 where
  pub marks : List ℕ
  pub count : ℤ

unfoldable pub shinit : Share → Share
shinit s = record { marks = replicate max_share_pages 0; count = pos 0 }

-- The number of pages as an `int`, a bit pattern of 32 bits.
abbrev pub pages_of : (size : ℕ) → ℕ
pages_of size = round_to_size size page_size % 2 ^ 64 / page_size % 2 ^ 32

abbrev pub is_negative : ℕ → Bool
is_negative n = leb (2 ^ 31) n

-- `n > MAX_SHARE_PAGES - g_share_count`, for an `n` that is not negative
abbrev pub exceeds : ℕ → ℤ → Bool
exceeds n count = ltb (max_share_pages + neg_part count) (n + pos_part count)

-- The `for` loop from page `i`, over the marks that are left: it counts the clear pages, also when
-- there are marked ones between them, and stops at page `i` with `n` counted, or at the end.
unfoldable pub scan : (n : ℕ) → (rest : List ℕ) → (i cnt : ℕ) → ℕ × ℕ
scan n [] i cnt = (i, cnt)
scan n (mark ∷ rest) i cnt =
    let cnt' = if 0 == mark then cnt + 1 else cnt in
    let more = scan n rest (i + 1) cnt' in if leb n cnt' then (i, cnt') else more

-- `g_share[j] = v` for the `n` pages from page `j`
unfoldable pub fill : (v : ℕ) → (j n : ℕ) → List ℕ → List ℕ
fill v j zero marks = marks
fill v j (suc n) marks = fill v (j + 1) n (set marks j v)

abbrev pub take_pages : Share → (n : ℕ) → ℕ × ℕ → Option ℕ × Share
take_pages s n (i, cnt) = if ltb cnt n then (none, s) else (
  some (virtual_share_start + (i + 1 - cnt) * page_size),
  record { marks = fill 1 (i + 1 - cnt) cnt s.marks; count = s.count +ℤ pos cnt },
)

-- The `while` loop skips the marked pages. With no clear page it reads behind the table.
abbrev pub take_from : Share → (n : ℕ) → Option ℕ → Outcome (Option ℕ × Share)
take_from s n none = fault out_of_bounds
take_from s n (some i) = ok (take_pages s n (scan n (drop i s.marks) i 0))

abbrev pub is_skipped : ℕ → Bool
is_skipped mark = not (1 == mark)

abbrev pub alloc_pages : (n : ℕ) → Share → Outcome (Option ℕ × Share)
alloc_pages n s =
    if (0 == n) || is_negative n || exceeds n s.count
    then ok (none, s)
    else take_from s n (find_index? is_skipped s.marks)

-- `shalloc`; `none` is `NULL`.
unfoldable pub shalloc : (size : ℕ) → Share → Outcome (Option ℕ × Share)
unfolding scan fill ◌+ℤ◌
shalloc size s = alloc_pages (pages_of size) s

-- The loop of `shfree` writes behind the table if the pages go on there.
abbrev pub give_back : (n start : ℕ) → Share → Outcome Share
give_back n start s =
    if ltb max_share_pages (start + n) && not (0 == n)
    then fault out_of_bounds
    else ok (record { marks = fill 0 start n s.marks; count = s.count -ℤ pos n })

-- With a negative number of pages the loop ends at once, and the count grows.
abbrev pub free_from : (n ptr : ℕ) → Share → Outcome Share
free_from n ptr s =
    if not (is_negative n) && exceeds n s.count
    then ok s
    else if ltb ptr virtual_share_start || ltb virtual_share_end ptr
    then ok s
    else if is_negative n
    then ok (record s { count = s.count +ℤ pos (2 ^ 32 - n) })
    else give_back n ((ptr - virtual_share_start) / page_size) s

unfoldable pub shfree : (ptr size : ℕ) → Share → Outcome Share
unfolding fill ◌-ℤ◌
shfree ptr size s = free_from (pages_of size) ptr s
