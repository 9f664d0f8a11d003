-- ===== src/Code/Malloc/Tests.antt =====
-- Runs of the earlier allocator on a pool at 0x10000000, and the theorems at them. Pages are numbers.
use osdesignasst.Prelude.{
  ℕ, ◌+◌, ◌≤◌, ◌≡◌, ◌≢◌, ◌⊎◌, refl, subst, true, none, some, ok, replicate, get_elem?, set, Returns,
  arith,
}
use osdesignasst.Malloc.{cleared, malloc_trunk}
use osdesignasst.Malloc.Trunk.{IsValid, cleared-IsValid}
use osdesignasst.Malloc.Heap.{max_trunks}
use osdesignasst.Malloc.Heap.Start.{get_elem?-replicate_same}
use osdesignasst.Code.Malloc.{
  Pool, malloc_page, heap_base, my_malloc, my_free, reclaim_current_heap,
}
use osdesignasst.Code.Malloc.Same.{malloc_page-eq-malloc_trunk}
use osdesignasst.Code.Malloc.Threads.{PoolIsValid, my_malloc_own, my_malloc_apart, my_free-other}
use osdesignasst.Code.Malloc.Reclaim.{reclaim-my_malloc}

abbrev pool : Pool ℕ
pool = record {
  malloc_init = true;
  pages = some 0x10000000;
  metadata = replicate max_trunks cleared;
  heap = replicate 40 7;
}

pool-PoolIsValid : PoolIsValid 0x10000000 pool
pool-PoolIsValid = record {
  started = refl;
  mapped = refl;
  size = refl;
  valid =
      λ i m at. subst IsValid (get_elem?-replicate_same max_trunks i cleared at) cleared-IsValid;
}

-- After a request of 40 bytes by thread `t`.
abbrev after : ℕ → Pool ℕ
after t = record pool {
  metadata =
      set (replicate max_trunks cleared) t (malloc_trunk cleared (heap_base 0x10000000 t) 40).1;
}

first_block : my_malloc 0 none 40 (some 1) pool ≡ ok (some 0x10002400, after 1)
unfolding my_malloc malloc_page malloc_trunk
first_block = refl

second_block : my_malloc 0 none 40 (some 2) pool ≡ ok (some 0x10003400, after 2)
unfolding my_malloc malloc_page malloc_trunk
second_block = refl

malloc_page-eq-malloc_trunk_example : malloc_page cleared 0 40 ≡ malloc_trunk cleared 0 40
malloc_page-eq-malloc_trunk_example = malloc_page-eq-malloc_trunk cleared 0 40

my_malloc_apart_example : (0x10002400 + 40 ≤ 0x10003400) ⊎ (0x10003400 + 40 ≤ 0x10002400)
my_malloc_apart_example =
    my_malloc_apart 0 none none 0x10000000 1 2 40 40 pool pool pool-PoolIsValid pool-PoolIsValid
      (omega arith) (omega arith) (omega arith) first_block second_block

after-PoolIsValid : PoolIsValid 0x10000000 (after 1)
after-PoolIsValid =
    (my_malloc_own 0 none 40 1 0x10000000 pool pool-PoolIsValid (omega arith) first_block).0

my_free-other_example : my_free 0x10002400 (some 2) (after 1) ≡ ok (after 1)
my_free-other_example =
    my_free-other 0x10002400 1 2 0x10000000 (after 1) after-PoolIsValid (omega arith) (omega arith)
      (omega arith) (omega arith)

reclaim-my_malloc_example : Returns (reclaim_current_heap 0 1 pool) (λ q.
    (get_elem? q.heap 1 ≡ some 0)
    × Returns (my_malloc 0 none 40 (some 1) q) (λ r. (ptr : ℕ) × (r.0 ≡ some ptr))
    × ((u : ℕ)
        → 1 ≢ u
        → (get_elem? q.metadata u ≡ get_elem? pool.metadata u)
          × (get_elem? q.heap u ≡ get_elem? pool.heap u)))
reclaim-my_malloc_example =
    reclaim-my_malloc 0 1 0x10000000 pool none 40 pool-PoolIsValid (omega arith) (omega arith)
      (omega arith) (omega arith)
