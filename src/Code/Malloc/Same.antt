-- ===== src/Code/Malloc/Same.antt =====
-- `_malloc` and `_free` of code/ are those of tmp2/, which Malloc writes by size class.
use osdesignasst.Prelude.{ℕ, ◌≡◌, arith}
use osdesignasst.Malloc.{Metadata, malloc_trunk, free_trunk}
use osdesignasst.Code.Malloc.{malloc_page, free_page}

-- The written-out `_malloc` does what the one by size classes does, for every metadata and request.
pub malloc_page-eq-malloc_trunk :
    (m : Metadata) (base size : ℕ) → malloc_page m base size ≡ malloc_trunk m base size
unfolding malloc_page malloc_trunk
malloc_page-eq-malloc_trunk m base size = ground arith

-- And so does `_free`, for every address.
pub free_page-eq-free_trunk :
    (m : Metadata) (base ptr : ℕ) → free_page m base ptr ≡ free_trunk m base ptr
unfolding free_page free_trunk
free_page-eq-free_trunk m base ptr = ground arith
