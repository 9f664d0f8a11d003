-- ===== src/Virt/Owners/Entry.antt =====
-- A page table entry for the frame that `allocate_physical_page` gave: frames and page tables agree
-- again after `mm_allocate_page` and after a page fault.
use osdesignasst.Prelude.{
  ℕ, ◌+◌, ◌<◌, ◌^◌, ◌≡◌, ◌≢◌, ◌⊎◌, refl, ap, ◌∙◌, subst, true, false, ◌&&◌, inl, inr, Option, some,
  none, ok, >>=-eq-ok, if-eq-ok, ◌==◌, leb, ltb, if◌then◌else◌, get_elem?, get_elem?-lt, get_or,
  get_or_of_get_elem?, length, length-set, find_index?, find_index?-some, count, count-set, ones,
  arith, eq_or_ne, Option-cases, ok-injective,
}
use osdesignasst.Limits.{
  max_physical_pages, max_virtual_pages, virtual_heap_start, virtual_heap_end,
}
use osdesignasst.Swap.{swap_in}
use osdesignasst.Virt.Pte.{valid, swapout, gefilea_pos, mapped, mapped_lem}
use osdesignasst.Virt.State.{Vm}
use osdesignasst.Virt.Frames.{maps, allocate_physical_page}
use osdesignasst.Virt.Frames.Evict.{write_table_self, write_table_ne}
use osdesignasst.Virt.Pages.{
  is_free_entry, write_entry, open_page, load_page, fault_on, allocate_at, map_page,
  mm_allocate_page, mi_getpteindex, fetch, pagefault_handler,
}
use osdesignasst.Virt.Owners.{held, IsOwned}
use osdesignasst.Virt.Owners.Reserve.{Reserved}
use osdesignasst.Virt.Owners.Allocate.{allocate_physical_page-Reserved}

maps-mapped : (k p : ℕ) → p < 2 ^ 20 → ones (maps k) (mapped p 0) ≡ (if k == p then 1 else 0)
unfolding maps
maps-mapped k p small = let (v, f) = mapped_lem p small in rw (v, f) (ground arith)

maps_invalid : (k e : ℕ) → valid e ≡ 0 → ones (maps k) e ≡ 0
unfolding maps
maps_invalid k e h = rw h refl

pub zero_off : valid 0 ≡ 0
unfolding valid
zero_off = refl

module _ {Page : Type 0} where
  -- Only the page tables, the frames and the physical pages matter.
  pub tables-IsOwned :
      {vm vm' : Vm Page} {q : ℕ}
      → IsOwned vm q
      → vm'.tables ≡ vm.tables
      → vm'.pfns ≡ vm.pfns
      → vm'.pfn_count ≡ vm.pfn_count
      → length vm'.physical ≡ length vm.physical
      → IsOwned vm' q
  tables-IsOwned {q} v tables pfns pfn_count physical = record {
    frames = rw pfns v.frames;
    pages = physical ∙ v.pages;
    flags = rw pfns v.flags;
    counted = rw (pfn_count, pfns) v.counted;
    size = λ t. rw tables (v.size t);
    owned = λ t i. rw (tables, pfns) (v.owned t i);
  }

module _ {Page : Type 0} (c j p : ℕ) (vm : Vm Page) where
  count-write_entry :
      (k t : ℕ) {e : ℕ}
      → get_elem? (vm.tables c) j ≡ some e
      → valid e ≡ 0
      → p < 2 ^ 20
      → count (maps k) ((write_entry c j (mapped p 0) vm).tables t)
        ≡ count (maps k) (vm.tables t) + (if c == t then if k == p then 1 else 0 else 0)
  count-write_entry k t {e} at off small =
      let after = count-set (maps k) (vm.tables c) j (mapped p 0) at in
      let once = maps-mapped k p small in
      let none_before = maps_invalid k e off in
      elim (eq_or_ne t c) [
        | inl same ↦
            let self : (c == c) ≡ true = ground arith in
            rw (same, self) (omega (arith, after, once, none_before))
        | inr other ↦ let ne : (c == t) ≡ false = ground arith in rw ne (omega arith)
      ]

  -- The entry that names the spare frame settles it.
  pub write_entry-IsOwned :
      {e : ℕ}
      → IsOwned vm p
      → get_elem? vm.pfns p ≡ some (record { used = 1; thread = c })
      → get_elem? (vm.tables c) j ≡ some e
      → valid e ≡ 0
      → IsOwned (write_entry c j (mapped p 0) vm) max_physical_pages
  write_entry-IsOwned {e} v mine at off = record {
    frames = v.frames;
    pages = v.pages;
    flags = v.flags;
    counted = v.counted;
    size = λ t. size_after t (eq_or_ne t c);
    owned = λ t i. owned_after t i (eq_or_ne i p);
  }
    where
      lt : p < max_physical_pages
      lt = omega (arith, get_elem?-lt vm.pfns p mine, v.frames)

      size_after :
          (t : ℕ)
          → (t ≡ c) ⊎ (t ≢ c)
          → length ((write_entry c j (mapped p 0) vm).tables t) ≡ max_virtual_pages
      size_after t (inl same) =
          rw same
            (ap length (write_table_self vm.tables c _) ∙ length-set (vm.tables c) j _ ∙ v.size c)
      size_after t (inr ne) = ap length (write_table_ne vm.tables c t _ ne) ∙ v.size t

      new_count :
          (t i : ℕ)
          → count (maps i) ((write_entry c j (mapped p 0) vm).tables t)
            ≡ held p t i (get_elem? vm.pfns i) + (if c == t then if i == p then 1 else 0 else 0)
      new_count t i =
          count-write_entry i t at off (omega (arith, lt))
          ∙ ap (λ (n : ℕ). n + (if c == t then if i == p then 1 else 0 else 0)) (v.owned t i)

      owned_after :
          (t i : ℕ)
          → (i ≡ p) ⊎ (i ≢ p)
          → count (maps i) ((write_entry c j (mapped p 0) vm).tables t)
            ≡ held max_physical_pages t i (get_elem? vm.pfns i)
      owned_after t i (inl e) = new_count t i ∙ rw (e, mine) (ground (arith, lt))
      owned_after t i (inr ne) = new_count t i ∙ elim (Option-cases (get_elem? vm.pfns i)) [
        | inl out ↦ rw out (ground arith)
        | inr (f, at_i) ↦
            let below = get_elem?-lt vm.pfns i at_i in rw at_i (ground (arith, below, v.frames))
      ]

module _ {Page : Type 0} (c : ℕ) (vm : Vm Page) where
  fault_on-fetch :
      (j : ℕ) (o : Option ℕ) {vm' : Vm Page}
      → fault_on c j vm o ≡ ok vm'
      → (entry : ℕ) × (o ≡ some entry) × (valid entry ≡ 0) × (fetch c j entry vm ≡ ok vm')
  fault_on-fetch j none runs = cc
  fault_on-fetch j (some entry) runs =
      let (off, inner) = if-eq-ok (0 == valid entry) _ _ runs in
      let (_, fetched) = if-eq-ok (1 == swapout entry) _ _ inner in
      (entry, refl, ground arith, fetched)

  -- A page fault that returns has fetched a page.
  pagefault_handler-fetch :
      (addr : ℕ) {vm' : Vm Page}
      → pagefault_handler addr c vm ≡ ok vm'
      → (entry : ℕ) × (get_elem? (vm.tables c) (mi_getpteindex addr) ≡ some entry)
        × (valid entry ≡ 0)
        × (fetch c (mi_getpteindex addr) entry vm ≡ ok vm')
  unfolding pagefault_handler
  pagefault_handler-fetch addr runs =
      let (_, inside) =
        if-eq-ok (leb virtual_heap_start addr && ltb addr virtual_heap_end) _ _ runs in
      fault_on-fetch (mi_getpteindex addr) (get_elem? (vm.tables c) (mi_getpteindex addr)) inside

  map_page-IsOwned :
      (zeros : Page) (j p : ℕ) (vm₁ : Vm Page)
      → find_index? is_free_entry (vm.tables c) ≡ some j
      → Reserved c vm p vm₁
      → IsOwned (map_page zeros c j (p, vm₁)).1 max_physical_pages
  map_page-IsOwned zeros j p vm₁ free r =
      let (e, at, is_free) = find_index?-some is_free_entry (vm.tables c) j free in
      let at₁ = ap (λ es. get_elem? es j) r.same ∙ at in
      let no_entry : e ≡ 0 = ground arith in
      let here : get_or (vm₁.tables c) j 0 ≡ 0 =
        get_or_of_get_elem? (vm₁.tables c) j 0 at₁ ∙ no_entry in
      let written = write_entry-IsOwned c j p vm₁ r.owned r.mine at₁ (off e no_entry) in
      tables-IsOwned written (ap (λ k. (write_entry c j (mapped p k) vm₁).tables) here) refl refl
        refl
    where
      off : (e : ℕ) → e ≡ 0 → valid e ≡ 0
      off e h = rw h zero_off

  allocate_at-IsOwned :
      (zeros : Page) (o : Option ℕ) {r : Option ℕ × Vm Page}
      → IsOwned vm max_physical_pages
      → find_index? is_free_entry (vm.tables c) ≡ o
      → allocate_at zeros c vm o ≡ ok r
      → IsOwned r.1 max_physical_pages
  allocate_at-IsOwned zeros none v free runs =
      subst (λ s. IsOwned s.1 max_physical_pages) (ok-injective _ _ runs) v
  allocate_at-IsOwned zeros (some j) v free runs =
      let ((p, vm₁), frame, is_r) = >>=-eq-ok (allocate_physical_page c vm) _ runs in
      subst (λ s. IsOwned s.1 max_physical_pages) (ok-injective _ _ is_r)
        (map_page-IsOwned zeros j p vm₁ free (allocate_physical_page-Reserved c vm v frame))

  -- `mm_allocate_page` keeps frames and page tables in agreement.
  pub mm_allocate_page-IsOwned :
      (zeros : Page) {r : Option ℕ × Vm Page}
      → IsOwned vm max_physical_pages
      → mm_allocate_page zeros c vm ≡ ok r
      → IsOwned r.1 max_physical_pages
  unfolding mm_allocate_page
  mm_allocate_page-IsOwned zeros v runs = allocate_at-IsOwned zeros _ v refl runs

  fetch-IsOwned :
      (j entry : ℕ) {vm' : Vm Page}
      → IsOwned vm max_physical_pages
      → get_elem? (vm.tables c) j ≡ some entry
      → valid entry ≡ 0
      → fetch c j entry vm ≡ ok vm'
      → IsOwned vm' max_physical_pages
  fetch-IsOwned j entry v at off runs =
      let ((p, vm₁), frame, rest) = >>=-eq-ok (allocate_physical_page c vm) _ runs in
      let (got, _, is_r) = >>=-eq-ok (swap_in (gefilea_pos entry) vm₁.swap) _ rest in
      let r = allocate_physical_page-Reserved c vm v frame in
      let written =
        write_entry-IsOwned c j p vm₁ r.owned r.mine (ap (λ es. get_elem? es j) r.same ∙ at) off in
      subst (λ s. IsOwned s max_physical_pages) (ok-injective _ _ is_r)
        (tables-IsOwned {vm' = load_page j (open_page j (write_entry c j (mapped p 0) vm₁)) got}
          written refl refl refl refl)

  -- A page fault keeps frames and page tables in agreement, whatever the address.
  pub pagefault_handler-IsOwned :
      (addr : ℕ) {vm' : Vm Page}
      → IsOwned vm max_physical_pages
      → pagefault_handler addr c vm ≡ ok vm'
      → IsOwned vm' max_physical_pages
  pagefault_handler-IsOwned addr v runs =
      let (entry, at, off, fetched) = pagefault_handler-fetch addr runs in
      fetch-IsOwned (mi_getpteindex addr) entry v at off fetched
