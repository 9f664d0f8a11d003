-- ===== src/Malloc/Heap/Grow.antt =====
-- `my_malloc` over the trunks of a heap: it finds a block or grows the heap by a trunk.
use osdesignasst.Prelude.{
  ℕ, zero, suc, ◌+◌, ◌*◌, ◌≤◌, ◌<◌, ◌≡◌, ◌⊎◌, refl, sym, ap, ◌∙◌, subst, true, some, none, inl, inr,
  Option-cases, ok, get_elem?, get_elem?-lt, get_elem?-some, get_elem?-set_self, get_elem?-set_ne,
  get_elem?-set_cases, length-set, set, set_same, length, arith,
}
use osdesignasst.Limits.{page_size}
use osdesignasst.Malloc.{Class, Metadata, cleared, malloc_trunk}
use osdesignasst.Malloc.Trunk.{
  malloc_trunk-IsValid, IsBlock, IsValid, malloc_trunk-null, malloc_trunk-IsBlock,
}
use osdesignasst.Malloc.Heap.{Heap, max_trunks, heap_pages, malloc_in, try_trunks}

-- A heap after its start: its metadata fills the first page, its trunks are valid, and the records
-- behind them are those of a cleared page.
pub record HeapIsValid (h : Heap) : Type 0 where
  pub started : h.heap_init ≡ true
  pub in_page : h.trunk_count ≤ max_trunks
  pub size : length h.metadata ≡ max_trunks
  pub trunks : (i : ℕ) (m : Metadata) → get_elem? h.metadata i ≡ some m → IsValid m
  pub behind : (i : ℕ) → h.trunk_count ≤ i → i < max_trunks → get_elem? h.metadata i ≡ some cleared

abbrev pub trunk_base : ℕ → ℕ
trunk_base k = heap_pages + k * page_size

-- Trunk `k` of `h` had a block at `ptr`, and `h'` is the heap after it was handed out.
pub record Served (h : Heap) (size : ℕ) (ptr : ℕ) (h' : Heap) : Type 0 where
  pub trunk : ℕ
  pub before : Metadata
  pub after : Metadata
  pub at : get_elem? h.metadata trunk ≡ some before
  pub call : malloc_trunk before (trunk_base trunk) size ≡ (some ptr, after)
  pub in_range : trunk < h.trunk_count
  pub now : h' ≡ record h { metadata = set h.metadata trunk after }

module _ (size : ℕ) where
  pub malloc_in-some :
      (h : Heap) (i : ℕ) (m : Metadata) {ptr : ℕ} {m' : Metadata}
      → get_elem? h.metadata i ≡ some m
      → malloc_trunk m (trunk_base i) size ≡ (some ptr, m')
      → malloc_in h size i ≡ ok (some ptr, record h { metadata = set h.metadata i m' })
  unfolding malloc_in
  malloc_in-some h i m at call = rw (at, call)

  pub malloc_in-none :
      (h : Heap) (i : ℕ) (m : Metadata)
      → get_elem? h.metadata i ≡ some m
      → (malloc_trunk m (trunk_base i) size).0 ≡ none
      → malloc_in h size i ≡ ok (none, h)
  unfolding malloc_in
  malloc_in-none h i m at full =
      rw (at, malloc_trunk-null m (trunk_base i) size full, set_same h.metadata i at)

  -- The loop over the trunks serves the request from one of them, or leaves the heap as it is.
  pub try_trunks_lem :
      (h : Heap) (n i : ℕ)
      → i + n ≡ h.trunk_count
      → HeapIsValid h
      → ((ptr : ℕ) × (h' : Heap) × (try_trunks n i size h ≡ ok (some ptr, h'))
          × Served h size ptr h')
        ⊎ (try_trunks n i size h ≡ ok (none, h))
  unfolding try_trunks
  try_trunks_lem h zero i e v = inr refl
  try_trunks_lem h (suc n) i e v =
      let (m, at) = get_elem?-some h.metadata i (omega (arith, e, v.in_page, v.size)) in
      elim (Option-cases (malloc_trunk m (trunk_base i) size).0) [
        | inl full ↦
            rw (try_trunks, malloc_in-none h i m at full)
              (try_trunks_lem h n (i + 1) (omega arith) v)
        | inr (ptr, got) ↦
            let call = pair m got in
            inl (
              ptr,
              _,
              rw (try_trunks, malloc_in-some h i m at call),
              record {
                trunk = i;
                before = m;
                after = (malloc_trunk m (trunk_base i) size).1;
                at = at;
                call = call;
                in_range = omega arith;
                now = refl;
              },
            )
      ]
    where
      pair :
          (m : Metadata) {ptr : ℕ}
          → (malloc_trunk m (trunk_base i) size).0 ≡ some ptr
          → malloc_trunk m (trunk_base i) size ≡ (some ptr, (malloc_trunk m (trunk_base i) size).1)
      pair m got = ap (λ o. (o, (malloc_trunk m (trunk_base i) size).1)) got

  -- No trunk has a block for the request.
  abbrev pub NoneServes : Heap → Type 0
  NoneServes h =
      (i : ℕ) (m : Metadata)
      → get_elem? h.metadata i ≡ some m
      → (malloc_trunk m (trunk_base i) size).0 ≡ none

  pub try_trunks-none :
      (h : Heap) (n i : ℕ)
      → i + n ≡ h.trunk_count
      → HeapIsValid h
      → NoneServes h
      → try_trunks n i size h ≡ ok (none, h)
  unfolding try_trunks
  try_trunks-none h zero i e v none_serves = refl
  try_trunks-none h (suc n) i e v none_serves =
      let (m, at) = get_elem?-some h.metadata i (omega (arith, e, v.in_page, v.size)) in
      rw (try_trunks, malloc_in-none h i m at (none_serves i m at))
        (try_trunks-none h n (i + 1) (omega arith) v none_serves)

  -- The block at `ptr` is one of trunk `trunk` of the heap, in use, and within the trunk's page.
  pub record Placed (h : Heap) (ptr : ℕ) : Type 0 where
    pub trunk : ℕ
    pub record_of : Metadata
    pub class : Class
    pub at : get_elem? h.metadata trunk ≡ some record_of
    pub in_range : trunk < h.trunk_count
    pub block : IsBlock record_of (trunk_base trunk) ptr class
    pub above : trunk_base trunk ≤ ptr
    pub below : ptr + size ≤ trunk_base trunk + page_size

  pub Served-Placed :
      (h : Heap) {ptr : ℕ} {h' : Heap} → HeapIsValid h → Served h size ptr h' → Placed h' ptr
  Served-Placed h {ptr} v s =
      let (c, _, _, _, above, below, block) =
        malloc_trunk-IsBlock s.before (trunk_base s.trunk) size (v.trunks s.trunk s.before s.at)
          s.call in
      subst (λ k. Placed k ptr) (sym s.now)
        (record {
          trunk = s.trunk;
          record_of = s.after;
          class = c;
          at = get_elem?-set_self h.metadata s.trunk s.after (get_elem?-lt h.metadata s.trunk s.at);
          in_range = s.in_range;
          block = block;
          above = above;
          below = below;
        })

  pub Served-HeapIsValid :
      (h : Heap) {ptr : ℕ} {h' : Heap} → HeapIsValid h → Served h size ptr h' → HeapIsValid h'
  Served-HeapIsValid h v s = subst HeapIsValid (sym s.now) (record {
    started = v.started;
    in_page = v.in_page;
    size = length-set h.metadata s.trunk s.after ∙ v.size;
    trunks = λ i m at. elim (get_elem?-set_cases h.metadata s.trunk i s.after at) [
      | inl (_, e) ↦ subst IsValid (sym e) (
          subst IsValid (ap (λ r. r.1) s.call) (
            malloc_trunk-IsValid s.before (trunk_base s.trunk) size
              (v.trunks s.trunk s.before s.at)))
      | inr (_, old) ↦ v.trunks i m old
    ];
    behind = λ i low high.
        get_elem?-set_ne h.metadata s.after (omega (arith, low, s.in_range)) ∙ v.behind i low high;
  })
