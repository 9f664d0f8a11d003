-- ===== src/Malloc/Heap/Serve.antt =====
-- `my_malloc` on a valid heap, which serves every request that has a size class.
use osdesignasst.Prelude.{
  get_elem?, ℕ, ◌+◌, ◌≤◌, ◌<◌, ◌≡◌, ◌⊎◌, refl, ap, true, some, none, inl, inr, Option, Outcome, ok,
  fault, out_of_bounds, get_elem?-none, Returns, arith,
}
use osdesignasst.Malloc.{c512, slots_num, region, cleared, malloc_trunk, class_of, Metadata}
use osdesignasst.Malloc.Classes.{class_of_total, class_of-none}
use osdesignasst.Malloc.Trunk.{
  malloc_trunk_total, malloc_trunk-no_class, malloc_trunk_full, cleared-IsValid, cleared_room,
}
use osdesignasst.Malloc.Heap.{
  Heap, max_trunks, malloc_in, malloc_at, ensure_init, try_trunks, grow, my_malloc,
}
use osdesignasst.Malloc.Heap.Grow.{
  HeapIsValid, trunk_base, Served, Placed, malloc_in-some, malloc_in-none, try_trunks_lem,
  try_trunks-none, Served-Placed, Served-HeapIsValid,
}

-- The heap with one more trunk, which a cleared record stands for.
abbrev pub grown : Heap → Heap
grown h = record h { trunk_count = h.trunk_count + 1 }

pub grown-HeapIsValid :
    (h : Heap) → HeapIsValid h → h.trunk_count < max_trunks → HeapIsValid (grown h)
grown-HeapIsValid h v room = record {
  started = v.started;
  in_page = omega arith;
  size = v.size;
  trunks = v.trunks;
  behind = λ i low high. v.behind i (omega arith) high;
}

-- The first block of a new trunk.
grown-Served :
    (size : ℕ) (h : Heap)
    → HeapIsValid h
    → h.trunk_count < max_trunks
    → 0 < size
    → size ≤ 512
    → (ptr : ℕ) × (h' : Heap) × (malloc_in (grown h) size h.trunk_count ≡ ok (some ptr, h'))
      × Served (grown h) size ptr h'
grown-Served size h v room pos small =
    let at = v.behind h.trunk_count (omega arith) room in
    let (c, has_class) = class_of_total size pos small in
    let (ptr, call) =
      malloc_trunk_total cleared (trunk_base h.trunk_count) size c cleared-IsValid has_class
        (cleared_room c) in
    (
      ptr,
      _,
      malloc_in-some size (grown h) h.trunk_count cleared at call,
      record {
        trunk = h.trunk_count;
        before = cleared;
        after = (malloc_trunk cleared (trunk_base h.trunk_count) size).1;
        at = at;
        call = call;
        in_range = omega arith;
        now = refl;
      },
    )

module _ {Vm : Type 0} (mm_allocate_page : Vm → Outcome (Option ℕ × Vm)) where
  ensure_init-on :
      (h : Heap) (vm : Vm) → h.heap_init ≡ true → ensure_init mm_allocate_page h vm ≡ ok (h, vm)
  unfolding ensure_init
  ensure_init-on h vm on = ground arith

  my_malloc-found :
      (size : ℕ) (h h' : Heap) (vm : Vm) (ptr : ℕ)
      → h.heap_init ≡ true
      → try_trunks h.trunk_count 0 size h ≡ ok (some ptr, h')
      → my_malloc mm_allocate_page size (some h) vm ≡ ok (some ptr, h', vm)
  unfolding my_malloc
  my_malloc-found size h h' vm ptr on got = rw (ensure_init-on h vm on, got)

  my_malloc-grown :
      (size : ℕ) (h h' : Heap) (vm vm' : Vm) (page : Option ℕ) (ptr : ℕ)
      → h.heap_init ≡ true
      → try_trunks h.trunk_count 0 size h ≡ ok (none, h)
      → mm_allocate_page vm ≡ ok (page, vm')
      → malloc_in (grown h) size h.trunk_count ≡ ok (some ptr, h')
      → my_malloc mm_allocate_page size (some h) vm ≡ ok (some ptr, h', vm')
  unfolding my_malloc grow
  my_malloc-grown size h h' vm vm' page ptr on none_left new_page got =
      rw (ensure_init-on h vm on, none_left, new_page, got)

  -- A request with a size class is served from a trunk of the heap, or from a new one.
  pub my_malloc-Served :
      (size : ℕ) (h : Heap) (vm : Vm) {page : Option ℕ} {vm' : Vm}
      → HeapIsValid h
      → h.trunk_count < max_trunks
      → 0 < size
      → size ≤ 512
      → mm_allocate_page vm ≡ ok (page, vm')
      → Returns (my_malloc mm_allocate_page size (some h) vm) (λ r.
        (ptr : ℕ) × (r.0 ≡ some ptr) × (Served h size ptr r.1 ⊎ Served (grown h) size ptr r.1))
  my_malloc-Served size h vm {page} {vm'} v room pos small new_page =
      elim (try_trunks_lem size h h.trunk_count 0 (omega arith) v) [
        | inl (ptr, h', got, s) ↦
            ((some ptr, h', vm), my_malloc-found size h h' vm ptr v.started got, (ptr, refl, inl s))
        | inr none_left ↦
            let (ptr, h', got, s) = grown-Served size h v room pos small in
            (
              (some ptr, h', vm'),
              my_malloc-grown size h h' vm vm' page ptr v.started none_left new_page got,
              (ptr, refl, inr s),
            )
      ]

  -- On a valid heap with a record left for another trunk, and where `mm_allocate_page` returns, a
  -- request of 1 to 512 bytes is served: the block is in use, of the size asked for, in a trunk of
  -- the heap, and the heap is valid after it.
  pub my_malloc_lem :
      (size : ℕ) (h : Heap) (vm : Vm) {page : Option ℕ} {vm' : Vm}
      → HeapIsValid h
      → h.trunk_count < max_trunks
      → 0 < size
      → size ≤ 512
      → mm_allocate_page vm ≡ ok (page, vm')
      → Returns
          (my_malloc mm_allocate_page size (some h) vm)
          (λ r. (ptr : ℕ) × (r.0 ≡ some ptr) × Placed size r.1 ptr × HeapIsValid r.1)
  my_malloc_lem size h vm v room pos small new_page =
      let (r, runs, (ptr, got, s)) = my_malloc-Served size h vm v room pos small new_page in
      let v' = grown-HeapIsValid h v room in
      let after : Placed size r.1 ptr × HeapIsValid r.1 = elim s [
        | inl there ↦ (Served-Placed size h v there, Served-HeapIsValid size h v there)
        | inr new ↦ (Served-Placed size (grown h) v' new, Served-HeapIsValid size (grown h) v' new)
      ] in
      (r, runs, (ptr, got, after.0, after.1))

  my_malloc-full :
      (size : ℕ) (h h' : Heap) (vm vm' : Vm) (page : Option ℕ)
      → h.heap_init ≡ true
      → try_trunks h.trunk_count 0 size h ≡ ok (none, h)
      → mm_allocate_page vm ≡ ok (page, vm')
      → malloc_in (grown h) size h.trunk_count ≡ ok (none, h')
      → my_malloc mm_allocate_page size (some h) vm ≡ ok (none, h', vm')
  unfolding my_malloc grow
  my_malloc-full size h h' vm vm' page on none_left new_page got =
      rw (ensure_init-on h vm on, none_left, new_page, got)

  -- A request of no bytes, or of more than 512, gets `NULL`, and the heap has one trunk more after it,
  -- which nothing is in.
  pub my_malloc-no_class :
      (size : ℕ) (h : Heap) (vm : Vm) {page : Option ℕ} {vm' : Vm}
      → HeapIsValid h
      → h.trunk_count < max_trunks
      → (size ≡ 0) ⊎ (512 < size)
      → mm_allocate_page vm ≡ ok (page, vm')
      → my_malloc mm_allocate_page size (some h) vm ≡ ok (none, grown h, vm')
  my_malloc-no_class size h vm {page} {vm'} v room odd new_page =
      my_malloc-full size h (grown h) vm vm' page v.started
        (try_trunks-none size h h.trunk_count 0 (omega arith) v (λ i m at. null m (trunk_base i)))
        new_page
        (malloc_in-none size (grown h) h.trunk_count cleared
          (v.behind h.trunk_count (omega arith) room) (null cleared (trunk_base h.trunk_count)))
    where
      null : (m : Metadata) (base : ℕ) → (malloc_trunk m base size).0 ≡ none
      null m base = ap (λ r. r.0) (malloc_trunk-no_class m base size (class_of-none size odd))

  -- With all metadata records taken and the regions of the largest blocks full in all trunks, a request of
  -- 129 to 512 bytes reads past the page of the records.
  pub my_malloc-max_trunks :
      (size : ℕ) (h : Heap) (vm : Vm) {page : Option ℕ} {vm' : Vm}
      → HeapIsValid h
      → h.trunk_count ≡ max_trunks
      → class_of size ≡ some c512
      → ((i : ℕ) (m : Metadata)
          → get_elem? h.metadata i ≡ some m
          → slots_num c512 ≤ (region c512 m).count)
      → mm_allocate_page vm ≡ ok (page, vm')
      → my_malloc mm_allocate_page size (some h) vm ≡ fault out_of_bounds
  unfolding my_malloc grow malloc_in
  my_malloc-max_trunks size h vm v all has_class full new_page = rw (
    ensure_init-on h vm v.started,
    try_trunks-none size h h.trunk_count 0 (omega arith) v
        (λ i m at. malloc_trunk_full m (trunk_base i) size c512 has_class (full i m at)),
    new_page,
    get_elem?-none h.metadata h.trunk_count (omega (arith, all, v.size)),
    malloc_at,
    has_class,
  )
