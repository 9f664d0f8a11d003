-- ===== src/Code/Malloc/Threads.antt =====
-- Each thread has the blocks of its own page: what one thread asks for or gives back does not touch
-- another's.
use osdesignasst.Prelude.{
  ℕ, ◌+◌, ◌≤◌, ◌<◌, ◌≡◌, ◌≢◌, ◌⊎◌, refl, inl, inr, sym, ap, ◌∙◌, subst, true, some, Option, ok,
  get_elem?, get_elem?-some, get_elem?-lt, get_elem?-set_ne, get_elem?-set_self,
  get_elem?-set_cases, set, set_same, length, length-set, arith, ok-injective,
}
use osdesignasst.Limits.{page_size}
use osdesignasst.Malloc.{Class, Metadata, offset_of, malloc_trunk}
use osdesignasst.Malloc.Heap.{max_trunks}
use osdesignasst.Malloc.Trunk.{IsValid, IsBlock, malloc_trunk-IsBlock, malloc_trunk-IsValid}
use osdesignasst.Code.Malloc.{Pool, free_page, heap_base, my_malloc, my_free}
use osdesignasst.Code.Malloc.Same.{malloc_page-eq-malloc_trunk}

-- The pool is set up at `pages`, with valid metadata.
pub record PoolIsValid {Page : Type 0} (pages : ℕ) (p : Pool Page) : Type 0 where
  pub started : p.malloc_init ≡ true
  pub mapped : p.pages ≡ some pages
  pub size : length p.metadata ≡ max_trunks
  pub valid : (i : ℕ) (m : Metadata) → get_elem? p.metadata i ≡ some m → IsValid m

-- The `size` bytes from `ptr` are in the page of thread `tid`.
abbrev pub InPage : (pages tid ptr size : ℕ) → Type 0
InPage pages tid ptr size =
    (heap_base pages tid ≤ ptr) × (ptr + size ≤ heap_base pages tid + page_size)

module _ {Page : Type 0} (zeros : Page) (mapped : Option ℕ) (size tid pages : ℕ)
    (p : Pool Page) where
  pub stored-PoolIsValid :
      (m m' : Metadata)
      → PoolIsValid pages p
      → get_elem? p.metadata tid ≡ some m
      → IsValid m'
      → PoolIsValid pages (record p { metadata = set p.metadata tid m' })
  stored-PoolIsValid m m' v at v' = record {
    started = v.started;
    mapped = v.mapped;
    size = length-set p.metadata tid m' ∙ v.size;
    valid = λ i k e. elim (get_elem?-set_cases p.metadata tid i m' e) [
      | inl (_, same) ↦ subst IsValid (sym same) v'
      | inr (_, old) ↦ v.valid i k old
    ];
  }

  pub my_malloc-eq :
      (m : Metadata)
      → PoolIsValid pages p
      → get_elem? p.metadata tid ≡ some m
      → my_malloc zeros mapped size (some tid) p
        ≡ ok (
          (malloc_trunk m (heap_base pages tid) size).0,
          record p { metadata = set p.metadata tid (malloc_trunk m (heap_base pages tid) size).1 },
        )
  unfolding my_malloc
  my_malloc-eq m v at = rw (v.started, v.mapped, at, malloc_page-eq-malloc_trunk)

  -- A call by thread `tid` answers from the page of that thread: a block in use that has the size, within
  -- the page, if any; and the metadata of the other threads stays.
  pub my_malloc_own :
      {ptr : ℕ} {p' : Pool Page}
      → PoolIsValid pages p
      → tid < max_trunks
      → my_malloc zeros mapped size (some tid) p ≡ ok (some ptr, p')
      → PoolIsValid pages p'
        × InPage pages tid ptr size
        × ((m : Metadata) × (c : Class) × (get_elem? p'.metadata tid ≡ some m)
            × IsBlock m (heap_base pages tid) ptr c)
        × ((u : ℕ) → tid ≢ u → get_elem? p'.metadata u ≡ get_elem? p.metadata u)
  my_malloc_own {ptr} {p'} v lt runs =
      let (m, at) = get_elem?-some p.metadata tid (omega (arith, v.size)) in
      let r = malloc_trunk m (heap_base pages tid) size in
      let e : ◌≡◌ {A = Option ℕ × Pool Page} (r.0, record p { metadata = set p.metadata tid r.1 })
          (some ptr, p') =
        ok-injective _ _ (sym (my_malloc-eq m v at) ∙ runs) in
      let call : r ≡ (some ptr, r.1) = ap (λ (q : Option ℕ × Pool Page). (q.0, r.1)) e in
      let (c, _, _, _, low, high, block) =
        malloc_trunk-IsBlock m (heap_base pages tid) size (v.valid tid m at) call in
      let now = ap (λ (q : Option ℕ × Pool Page). q.1) e in
      (
        subst (PoolIsValid pages) now (
            stored-PoolIsValid m r.1 v at
              (malloc_trunk-IsValid m (heap_base pages tid) size (v.valid tid m at))),
        (low, high),
        (
          r.1,
          c,
          ap (λ (q : Pool Page). get_elem? q.metadata tid) (sym now)
              ∙ get_elem?-set_self p.metadata tid r.1 (get_elem?-lt p.metadata tid at),
          block,
        ),
        λ u ne.
            ap (λ (q : Pool Page). get_elem? q.metadata u) (sym now)
            ∙ get_elem?-set_ne p.metadata r.1 ne,
      )

-- Blocks that `my_malloc` gave to two threads with different ids below 53 do not overlap, whenever they
-- were handed out, from valid pools at one address.
pub my_malloc_apart :
    {Page : Type 0} (zeros : Page) (mapped mapped' : Option ℕ) (pages t u size size' : ℕ)
    (p q : Pool Page) {ptr ptr' : ℕ} {p' q' : Pool Page}
    → PoolIsValid pages p
    → PoolIsValid pages q
    → t < max_trunks
    → u < max_trunks
    → t ≢ u
    → my_malloc zeros mapped size (some t) p ≡ ok (some ptr, p')
    → my_malloc zeros mapped' size' (some u) q ≡ ok (some ptr', q')
    → (ptr + size ≤ ptr') ⊎ (ptr' + size' ≤ ptr)
my_malloc_apart zeros mapped mapped' pages t u size size' p q v w lt lt' ne runs runs' =
    let (_, (low, high), _, _) = my_malloc_own zeros mapped size t pages p v lt runs in
    let (_, (low', high'), _, _) = my_malloc_own zeros mapped' size' u pages q w lt' runs' in
    omega arith

free_page_out :
    (m : Metadata) (base ptr : ℕ) → page_size ≤ offset_of base ptr → free_page m base ptr ≡ m
unfolding free_page
free_page_out m base ptr out = ground arith

module _ {Page : Type 0} (ptr tid u pages : ℕ) (p : Pool Page) where
  offset_of_other :
      tid ≢ u
      → tid < max_trunks
      → u < max_trunks
      → InPage pages tid ptr 1
      → page_size ≤ offset_of (heap_base pages u) ptr
  unfolding offset_of
  offset_of_other ne lt lt' inside = omega arith

  -- On a valid pool, an address in the page of thread `tid` that another thread `u` passes to `my_free` is
  -- not given back: nothing changes. Both ids are below 53.
  pub my_free-other :
      PoolIsValid pages p
      → tid ≢ u
      → tid < max_trunks
      → u < max_trunks
      → InPage pages tid ptr 1
      → my_free ptr (some u) p ≡ ok p
  unfolding my_free
  my_free-other v ne lt lt' inside =
      let (m, at) = get_elem?-some p.metadata u (omega (arith, v.size)) in
      let out = offset_of_other ne lt lt' inside in
      rw (v.mapped, at, free_page_out m (heap_base pages u) ptr out, set_same p.metadata u at) refl
