-- ===== src/Virt/Pages/Allocate.antt =====
-- A new page for the running thread.
use osdesignasst.Prelude.{
  ℕ, ◌+◌, ◌*◌, ◌<◌, ◌≡◌, ◌≢◌, refl, ap, ◌∙◌, true, some, ok, get_elem?, get_elem?-lt,
  get_elem?-set_self, get_elem?-set_ne, get_or, get_or_of_get_elem?, set, length, find_index?,
  find_index?-some, Returns, arith,
}
use osdesignasst.Limits.{page_size, max_physical_pages, virtual_heap_start}
use osdesignasst.Virt.Pte.{valid, pageframenumber, mapped, mapped_lem}
use osdesignasst.Virt.State.{Vm}
use osdesignasst.Virt.Frames.{is_unused}
use osdesignasst.Virt.Frames.Evict.{write_table_self}
use osdesignasst.Virt.Pages.{is_free_entry, map_page, mm_allocate_page}
use osdesignasst.Virt.Pages.Fault.{framed, allocate_physical_page-unused}

module _ {Page : Type 0} (zeros : Page) (c : ℕ) (vm : Vm Page) where
  pub mm_allocate_page-eq :
      (j p : ℕ)
      → find_index? is_free_entry (vm.tables c) ≡ some j
      → vm.pfn_count < max_physical_pages
      → find_index? is_unused vm.pfns ≡ some p
      → mm_allocate_page zeros c vm ≡ ok (map_page zeros c j (p, framed c vm p))
  unfolding mm_allocate_page
  mm_allocate_page-eq j p free room found =
      rw (free, allocate_physical_page-unused c vm p room found)

  -- With a free entry `j`, the first in the table, and an unused frame `p`, the call returns the address
  -- of page `j`, which is then readable and full of zeros, and valid in frame `p`. No other page of the
  -- virtual heap and no other entry of the thread changes.
  pub mm_allocate_page_lem :
      (j p : ℕ)
      → find_index? is_free_entry (vm.tables c) ≡ some j
      → vm.pfn_count < max_physical_pages
      → find_index? is_unused vm.pfns ≡ some p
      → p < length vm.pfns
      → length vm.pfns ≡ max_physical_pages
      → j < length vm.virtual
      → j < length vm.access
      → Returns (mm_allocate_page zeros c vm) (λ r.
        (r.0 ≡ some (virtual_heap_start + j * page_size))
        × (get_elem? r.1.virtual j ≡ some zeros)
        × (get_elem? r.1.access j ≡ some true)
        × (get_elem? (r.1.tables c) j ≡ some (mapped p 0))
        × (valid (mapped p 0) ≡ 1)
        × (pageframenumber (mapped p 0) ≡ p)
        × (get_elem? r.1.pfns p ≡ some (record { used = 1; thread = c }))
        × ((k : ℕ) → j ≢ k → get_elem? (r.1.tables c) k ≡ get_elem? (vm.tables c) k)
        × ((k : ℕ) → j ≢ k → get_elem? r.1.virtual k ≡ get_elem? vm.virtual k))
  mm_allocate_page_lem j p free room found in_pfns size in_virtual in_access =
      let (e, at_j, is_free) = find_index?-some is_free_entry (vm.tables c) j free in
      let (v, f) = mapped_lem p (omega arith) in
      let zero_entry : get_or (vm.tables c) j 0 ≡ 0 =
        get_or_of_get_elem? (vm.tables c) j 0 at_j ∙ ground arith in
      let table =
        write_table_self vm.tables c (set (vm.tables c) j (mapped p (get_or (vm.tables c) j 0))) in
      (
        map_page zeros c j (p, framed c vm p),
        mm_allocate_page-eq j p free room found,
        (
          refl,
          get_elem?-set_self vm.virtual j zeros in_virtual,
          get_elem?-set_self vm.access j true in_access,
          ap (λ q. get_elem? q j) table
              ∙ get_elem?-set_self (vm.tables c) j _ (get_elem?-lt (vm.tables c) j at_j)
              ∙ ap (λ k. some (mapped p k)) zero_entry,
          v,
          f,
          get_elem?-set_self vm.pfns p _ in_pfns,
          λ k ne. ap (λ q. get_elem? q k) table ∙ get_elem?-set_ne (vm.tables c) _ ne,
          λ k ne. get_elem?-set_ne vm.virtual zeros ne,
        ),
      )
