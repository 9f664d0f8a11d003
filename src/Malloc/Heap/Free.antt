-- ===== src/Malloc/Heap/Free.antt =====
-- `my_free` of a block that `my_malloc` returned.
use osdesignasst.Prelude.{
  ℕ, ◌+◌, ◌-◌, ◌/◌, ◌%◌, ◌^◌, ◌||◌, leb, ◌≤◌, ◌<◌, ◌≡◌, ◌⊎◌, refl, ap, ◌∙◌, false, some, inl, inr,
  Option, Outcome, ok, Returns, ltb, arith, get_elem?, get_elem?-lt, get_elem?-set_self, set,
  set-set_back,
}
use osdesignasst.Limits.{page_size}
use osdesignasst.Malloc.{Metadata, free_trunk}
use osdesignasst.Malloc.Trunk.{malloc_trunk-IsBlock}
use osdesignasst.Malloc.Trunk.Free.{free_trunk-malloc_trunk}
use osdesignasst.Malloc.Heap.{Heap, heap_pages, max_trunks, my_malloc, my_free, free_at}
use osdesignasst.Malloc.Heap.Grow.{HeapIsValid, trunk_base, Served}
use osdesignasst.Malloc.Heap.Serve.{grown, grown-HeapIsValid, my_malloc-Served}

-- The trunk of an address within a trunk's page.
trunk_of :
    (ptr k : ℕ)
    → trunk_base k ≤ ptr
    → ptr < trunk_base k + page_size
    → k < max_trunks
    → ((ltb ptr heap_pages || leb (2 ^ 31) ((ptr - heap_pages) % 2 ^ 32)) ≡ false)
      × ((ptr - heap_pages) % 2 ^ 32 / page_size ≡ k)
trunk_of ptr k above below small =
    let low : (ptr - heap_pages) % 2 ^ 32 ≡ ptr - heap_pages = omega arith in
    (ground arith, omega arith)

free_at-Served :
    (h : Heap) (ptr k : ℕ) (m m' : Metadata)
    → get_elem? h.metadata k ≡ some m
    → free_trunk m' (trunk_base k) ptr ≡ m
    → (let md = set h.metadata k m' in free_at (record h { metadata = md }) ptr k (get_elem? md k))
      ≡ ok h
free_at-Served h ptr k m m' at back =
    rw
      (
        get_elem?-set_self h.metadata k m' (get_elem?-lt h.metadata k at),
        back,
        set-set_back h.metadata k m' at,
      )
      refl

my_free-in :
    (h : Heap) (ptr k : ℕ)
    → trunk_base k ≤ ptr
    → ptr < trunk_base k + page_size
    → k < max_trunks
    → my_free ptr h ≡ free_at h ptr k (get_elem? h.metadata k)
unfolding my_free
my_free-in h ptr k above below small =
    let (high, at) = trunk_of ptr k above below small in rw (high, at)

-- A block that was handed out is taken back.
my_free-Served :
    (size : ℕ) (h : Heap) (ptr : ℕ) (h' : Heap)
    → HeapIsValid h
    → Served h size ptr h'
    → my_free ptr h' ≡ ok h
my_free-Served size h ptr h' v s =
    let valid_trunk = v.trunks s.trunk s.before s.at in
    let (c, _, pos, _, above, below, _) =
      malloc_trunk-IsBlock s.before (trunk_base s.trunk) size valid_trunk s.call in
    ap (my_free ptr) s.now
    ∙ my_free-in (record h { metadata = set h.metadata s.trunk s.after }) ptr s.trunk above
        (omega arith) (let r = s.in_range in let t = v.in_page in omega arith)
    ∙ free_at-Served h ptr s.trunk s.before s.after s.at
        (free_trunk-malloc_trunk s.before (trunk_base s.trunk) size valid_trunk s.call)

-- On a valid heap with a metadata record left, where `mm_allocate_page` returns, `my_free` of the block
-- that a request of 1 to 512 bytes gets makes the heap what it was, or what it was with one more trunk.
pub my_free-my_malloc :
    {Vm : Type 0} (mm_allocate_page : Vm → Outcome (Option ℕ × Vm)) (size : ℕ) (h : Heap) (vm : Vm)
    {page : Option ℕ} {vm' : Vm}
    → HeapIsValid h
    → h.trunk_count < max_trunks
    → 0 < size
    → size ≤ 512
    → mm_allocate_page vm ≡ ok (page, vm')
    → Returns (my_malloc mm_allocate_page size (some h) vm) (λ r.
      (ptr : ℕ) × (r.0 ≡ some ptr) × ((my_free ptr r.1 ≡ ok h) ⊎ (my_free ptr r.1 ≡ ok (grown h))))
my_free-my_malloc mm size h vm v room pos small new_page =
    let (r, runs, (ptr, got, s)) = my_malloc-Served mm size h vm v room pos small new_page in
    (
      r,
      runs,
      (
        ptr,
        got,
        elim s [
          | inl there ↦ inl (my_free-Served size h ptr r.1 v there)
          | inr new ↦ inr (my_free-Served size (grown h) ptr r.1 (grown-HeapIsValid h v room) new)
        ],
      ),
    )
