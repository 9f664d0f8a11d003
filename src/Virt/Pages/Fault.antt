-- ===== src/Virt/Pages/Fault.antt =====
-- A page fault brings a page back from the swap file.
use osdesignasst.Prelude.{
  ℕ, ◌+◌, ◌-◌, ◌/◌, ◌<◌, ◌≤◌, ◌≡◌, ap, ◌∙◌, true, some, ok, get_elem?, get_elem?-lt,
  get_elem?-set_self, set, length, find_index?, Returns, arith, leb, ltb,
}
use osdesignasst.Limits.{page_size, max_physical_pages, virtual_heap_start, virtual_heap_end}
use osdesignasst.Swap.{swap_in}
use osdesignasst.Swap.Roundtrip.{swap_in-Holds}
use osdesignasst.Virt.Pte.{valid, pageframenumber, swapout, gefilea_pos, mapped, mapped_lem}
use osdesignasst.Virt.State.{Vm}
use osdesignasst.Virt.Frames.{write_table, is_unused, allocate_physical_page}
use osdesignasst.Virt.Frames.Evict.{IsOut, write_table_self}
use osdesignasst.Virt.Pages.{mi_getpteindex, fetch, pagefault_handler}

module _ {Page : Type 0} (c : ℕ) (vm : Vm Page) where
  -- The state after `allocate_physical_page` has taken the unused frame `p`.
  abbrev pub framed : ℕ → Vm Page
  framed p = record vm {
    pfns = set vm.pfns p (record { used = 1; thread = c });
    pfn_count = vm.pfn_count + 1;
  }

  pub allocate_physical_page-unused :
      (p : ℕ)
      → vm.pfn_count < max_physical_pages
      → find_index? is_unused vm.pfns ≡ some p
      → allocate_physical_page c vm ≡ ok (p, framed p)
  unfolding allocate_physical_page
  allocate_physical_page-unused p room found = ground arith

  -- The state after `page` has come back from the slot at `offset` to entry `j`.
  abbrev pub fetched : (p j offset : ℕ) → Page → Vm Page
  fetched p j offset page = record (framed p) {
    tables = write_table vm.tables c (set (vm.tables c) j (mapped p 0));
    access = set vm.access j true;
    virtual = set vm.virtual j page;
    swap = record vm.swap {
      slots = set vm.swap.slots (offset / page_size) 0;
      count = vm.swap.count - 1;
    };
  }

  fetch-eq :
      (p j entry : ℕ) {page : Page}
      → allocate_physical_page c vm ≡ ok (p, framed p)
      → swap_in (gefilea_pos entry) vm.swap
        ≡ ok (
          page,
          record vm.swap {
            slots = set vm.swap.slots (gefilea_pos entry / page_size) 0;
            count = vm.swap.count - 1;
          },
        )
      → fetch c j entry vm ≡ ok (fetched p j (gefilea_pos entry) page)
  fetch-eq p j entry alloc back = rw (alloc, back)

  handler-fetch :
      (addr entry : ℕ)
      → virtual_heap_start ≤ addr
      → addr < virtual_heap_end
      → get_elem? (vm.tables c) (mi_getpteindex addr) ≡ some entry
      → valid entry ≡ 0
      → swapout entry ≡ 1
      → pagefault_handler addr c vm ≡ fetch c (mi_getpteindex addr) entry vm
  unfolding pagefault_handler
  handler-fetch addr entry low high at not_valid is_out =
      let above : leb virtual_heap_start addr ≡ true = ground arith in
      let below : ltb addr virtual_heap_end ≡ true = ground arith in
      rw (above, below, at, not_valid, is_out)

  -- The page at `addr` is out, and a frame `p` is unused: the handler makes the page readable again,
  -- with the content that went out, in frame `p`, and the frame belongs to the thread.
  pub pagefault_handler_lem :
      (addr p : ℕ) {page : Page}
      → virtual_heap_start ≤ addr
      → addr < virtual_heap_end
      → IsOut vm c (mi_getpteindex addr) page
      → vm.swap.opens ≡ true
      → vm.pfn_count < max_physical_pages
      → find_index? is_unused vm.pfns ≡ some p
      → p < length vm.pfns
      → length vm.pfns ≡ max_physical_pages
      → mi_getpteindex addr < length vm.virtual
      → mi_getpteindex addr < length vm.access
      → Returns (pagefault_handler addr c vm) (λ vm'.
        (get_elem? vm'.virtual (mi_getpteindex addr) ≡ some page)
        × (get_elem? vm'.access (mi_getpteindex addr) ≡ some true)
        × (get_elem? (vm'.tables c) (mi_getpteindex addr) ≡ some (mapped p 0))
        × (valid (mapped p 0) ≡ 1)
        × (pageframenumber (mapped p 0) ≡ p)
        × (get_elem? vm'.pfns p ≡ some (record { used = 1; thread = c })))
  pagefault_handler_lem addr p {page} low high o opens room found in_pfns size in_virtual
        in_access =
      let j : ℕ = mi_getpteindex addr in
      let alloc = allocate_physical_page-unused p room found in
      let back = swap_in-Holds (gefilea_pos o.pte) vm.swap opens o.aligned o.held in
      let (v, f) = mapped_lem p (omega arith) in
      (
        fetched p j (gefilea_pos o.pte) page,
        handler-fetch addr o.pte low high o.at o.not_valid o.is_out ∙ fetch-eq p j o.pte alloc back,
        (
          get_elem?-set_self vm.virtual j page in_virtual,
          get_elem?-set_self vm.access j true in_access,
          ap (λ q. get_elem? q j) (write_table_self vm.tables c _)
              ∙ get_elem?-set_self (vm.tables c) j _ (get_elem?-lt (vm.tables c) j o.at),
          v,
          f,
          get_elem?-set_self vm.pfns p _ in_pfns,
        ),
      )
