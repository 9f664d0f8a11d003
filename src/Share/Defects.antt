-- ===== src/Share/Defects.antt =====
-- Inputs on which shm.c does not do what its comments say.
use osdesignasst.Prelude.{ℕ, ◌+◌, ◌*◌, ◌≤◌, ◌≡◌, ok, some, [], ◌∷◌, arith}
use osdesignasst.Prelude.Int.{pos}
use osdesignasst.Limits.{page_size, virtual_share_start}
use osdesignasst.Share.{pages_of, shalloc}

-- With page 0 free, page 1 in use and page 2 free, whatever stands in page 3, and a count of 2 at most: a
-- request of two pages returns page 1, which then has two owners; page 0 stays unmarked.
pub shalloc-overlap :
    (size x c : ℕ)
    → pages_of size ≡ 2
    → c ≤ 2
    → shalloc size (record { marks = 0 ∷ 1 ∷ 0 ∷ x ∷ []; count = pos c })
      ≡ ok (
        some (virtual_share_start + 1 * page_size),
        record { marks = 0 ∷ 1 ∷ 1 ∷ x ∷ []; count = pos (c + 2) },
      )
unfolding shalloc
shalloc-overlap size x c two few = rw two (ground arith)
