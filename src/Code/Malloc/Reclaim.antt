-- ===== src/Code/Malloc/Reclaim.antt =====
-- `reclaim_current_heap`: all blocks of the thread that ends are given back.
use osdesignasst.Prelude.{
  ℕ, ◌≤◌, ◌<◌, ◌≡◌, ◌≢◌, sym, ap, ◌∙◌, true, none, some, Option, ok, ltb, get_elem?, get_elem?-some,
  get_elem?-set_ne, get_elem?-set_self, set, set-set, length, arith, ok-injective, Returns,
}
use osdesignasst.Malloc.{cleared, malloc_trunk}
use osdesignasst.Malloc.Classes.{class_of_total}
use osdesignasst.Malloc.Heap.{max_trunks}
use osdesignasst.Malloc.Trunk.{
  cleared-IsValid, cleared_room, malloc_trunk_total, malloc_trunk-IsValid,
}
use osdesignasst.Code.Malloc.{Pool, heap_base, my_malloc, reclaim_current_heap}
use osdesignasst.Code.Malloc.Threads.{PoolIsValid, stored-PoolIsValid, my_malloc-eq}

module _ {Page : Type 0} (zeros : Page) (tid pages : ℕ) (p : Pool Page) where
  abbrev pub reclaimed : Pool Page
  reclaimed = record p { metadata = set p.metadata tid cleared; heap = set p.heap tid zeros }

  reclaim-eq :
      PoolIsValid pages p
      → tid < max_trunks
      → tid < length p.heap
      → reclaim_current_heap zeros tid p ≡ ok reclaimed
  unfolding reclaim_current_heap
  reclaim-eq v lt lt' =
      let in_metadata : ltb tid (length p.metadata) ≡ true = ground (arith, v.size) in
      let in_heap : ltb tid (length p.heap) ≡ true = ground arith in
      rw (v.mapped, in_metadata, in_heap)

  reclaimed-PoolIsValid : PoolIsValid pages p → tid < max_trunks → PoolIsValid pages reclaimed
  reclaimed-PoolIsValid v lt =
      let (m, at) = get_elem?-some p.metadata tid (omega (arith, v.size)) in
      let stored = stored-PoolIsValid zeros none 0 tid pages p m cleared v at cleared-IsValid in
      record {
        started = stored.started;
        mapped = stored.mapped;
        size = stored.size;
        valid = stored.valid;
      }

  -- On a valid pool, for a thread that has a record and a page: `reclaim_current_heap` returns, and after it the thread's page is zero, a request of 1 to 512 bytes under its id gets a
  -- block, and the metadata and pages of the other threads are as before.
  pub reclaim-my_malloc :
      (mapped : Option ℕ) (size : ℕ)
      → PoolIsValid pages p
      → tid < max_trunks
      → tid < length p.heap
      → 0 < size
      → size ≤ 512
      → Returns (reclaim_current_heap zeros tid p) (λ q.
        (get_elem? q.heap tid ≡ some zeros)
        × Returns (my_malloc zeros mapped size (some tid) q) (λ r. (ptr : ℕ) × (r.0 ≡ some ptr))
        × ((u : ℕ)
            → tid ≢ u
            → (get_elem? q.metadata u ≡ get_elem? p.metadata u)
              × (get_elem? q.heap u ≡ get_elem? p.heap u)))
  reclaim-my_malloc mapped size v lt lt' pos small =
      let (c, has_class) = class_of_total size pos small in
      let (ptr, call) =
        malloc_trunk_total cleared (heap_base pages tid) size c cleared-IsValid has_class
          (cleared_room c) in
      let at = get_elem?-set_self p.metadata tid cleared (omega (arith, v.size)) in
      (
        reclaimed,
        reclaim-eq v lt lt',
        (
          get_elem?-set_self p.heap tid zeros lt',
          (
            (_, _),
            my_malloc-eq zeros mapped size tid pages reclaimed cleared (reclaimed-PoolIsValid v lt)
                at,
            (ptr, ap (λ r. r.0) call),
          ),
          λ u ne. (get_elem?-set_ne p.metadata cleared ne, get_elem?-set_ne p.heap zeros ne),
        ),
      )

-- On a valid pool, for a thread that has a record and a page: whatever one request of `my_malloc` it made,
-- `reclaim_current_heap` leaves the pool that it leaves without the request.
pub my_malloc-reclaim :
    {Page : Type 0} (zeros : Page) (mapped : Option ℕ) (size tid pages : ℕ) (p : Pool Page)
    {r : Option ℕ} {p' : Pool Page}
    → PoolIsValid pages p
    → tid < max_trunks
    → tid < length p.heap
    → my_malloc zeros mapped size (some tid) p ≡ ok (r, p')
    → reclaim_current_heap zeros tid p' ≡ reclaim_current_heap zeros tid p
my_malloc-reclaim {Page} zeros mapped size tid pages p {r} {p'} v lt lt' runs =
    let (m, at) = get_elem?-some p.metadata tid (omega (arith, v.size)) in
    let m' = (malloc_trunk m (heap_base pages tid) size).1 in
    let q : Pool Page = record p { metadata = set p.metadata tid m' } in
    let e : ◌≡◌ {A = Option ℕ × Pool Page} ((malloc_trunk m (heap_base pages tid) size).0, q)
        (r, p') =
      ok-injective _ _ (sym (my_malloc-eq zeros mapped size tid pages p m v at) ∙ runs) in
    let valid = malloc_trunk-IsValid m (heap_base pages tid) size (v.valid tid m at) in
    ap (λ (s : Option ℕ × Pool Page). reclaim_current_heap zeros tid s.1) (sym e)
    ∙ reclaim-eq zeros tid pages q
        (stored-PoolIsValid zeros mapped size tid pages p m m' v at valid) lt lt'
    ∙ ap (λ md. ok (record p { metadata = md; heap = set p.heap tid zeros }))
        (set-set p.metadata tid m' cleared)
    ∙ sym (reclaim-eq zeros tid pages p v lt lt')
