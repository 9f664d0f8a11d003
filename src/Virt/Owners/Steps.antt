-- ===== src/Virt/Owners/Steps.antt =====
-- Runs of the paged memory, in any order: what the threads' calls, faults, switches and ends do to it.
use osdesignasst.Prelude.{
  ℕ, ◌≡◌, refl, ◌∙◌, inl, inr, Option, List, [], ◌∷◌, ok, set, length, length-set, Bool-cases,
}
use osdesignasst.Limits.{max_physical_pages}
use osdesignasst.Virt.Pte.{pageframenumber}
use osdesignasst.Virt.State.{Vm}
use osdesignasst.Virt.Pages.{mm_allocate_page, pagefault_handler, free_thread_pages}
use osdesignasst.Virt.Switch.{
  is_valid, store_pages, mm_store_virtual_pages_back, mm_switch_virtual_pages,
}
use osdesignasst.Virt.Owners.{IsOwned}
use osdesignasst.Virt.Owners.Entry.{
  tables-IsOwned, mm_allocate_page-IsOwned, pagefault_handler-IsOwned,
}
use osdesignasst.Virt.Owners.Release.{free_thread_pages-IsOwned}

-- One step: a call of `mm_allocate_page` by thread `c`, a page fault of `c`, a write of the running
-- thread to its pages, a switch from `t` to `u`, or the end of `t`.
pub data Step {Page : Type 0} (zeros : Page) (vm : Vm Page) : Vm Page → Type 0 where
  allocate :
      {r : Option ℕ × Vm Page} {vm' : Vm Page} (c : ℕ)
      → mm_allocate_page zeros c vm ≡ ok r
      → vm' ≡ r.1
      → Step zeros vm vm'
  page_fault :
      {vm' : Vm Page} (addr c : ℕ) → pagefault_handler addr c vm ≡ ok vm' → Step zeros vm vm'
  write :
      {vm' : Vm Page} (pages : List Page) → vm' ≡ record vm { virtual = pages } → Step zeros vm vm'
  switch :
      {vm' : Vm Page} (t u : ℕ)
      → vm' ≡ mm_switch_virtual_pages u (mm_store_virtual_pages_back t vm)
      → Step zeros vm vm'
  end : {vm' : Vm Page} (t : ℕ) → vm' ≡ free_thread_pages t vm → Step zeros vm vm'

pub data Reach {Page : Type 0} (zeros : Page) (vm : Vm Page) : Vm Page → Type 0 where
  here : Reach zeros vm vm
  next : {vm' vm'' : Vm Page} → Reach zeros vm vm' → Step zeros vm' vm'' → Reach zeros vm vm''

module _ {Page : Type 0} where
  length-store_pages : (es : List ℕ) (vs ps : List Page) → length (store_pages es vs ps) ≡ length ps
  unfolding store_pages
  length-store_pages [] vs ps = refl
  length-store_pages (e ∷ es) [] ps = refl
  length-store_pages (e ∷ es) (v ∷ vs) ps = elim (Bool-cases (is_valid e)) [
    | inl on ↦ rw on (
        length-store_pages es vs (set ps (pageframenumber e) v)
        ∙ length-set ps (pageframenumber e) v)
    | inr off ↦ rw off (length-store_pages es vs ps)
  ]

  switch-IsOwned :
      (t u : ℕ) (vm : Vm Page)
      → IsOwned vm max_physical_pages
      → IsOwned (mm_switch_virtual_pages u (mm_store_virtual_pages_back t vm)) max_physical_pages
  unfolding mm_switch_virtual_pages mm_store_virtual_pages_back
  switch-IsOwned t u vm v =
      tables-IsOwned v refl refl refl (length-store_pages (vm.tables t) vm.virtual vm.physical)

  Step-IsOwned :
      (zeros : Page) {vm vm' : Vm Page}
      → Step zeros vm vm'
      → IsOwned vm max_physical_pages
      → IsOwned vm' max_physical_pages
  Step-IsOwned zeros {vm} (allocate c runs e) v = rw e (mm_allocate_page-IsOwned c vm zeros v runs)
  Step-IsOwned zeros {vm} (page_fault addr c runs) v = pagefault_handler-IsOwned c vm addr v runs
  Step-IsOwned zeros {vm} (write pages e) v =
      rw e (tables-IsOwned {vm' = record vm { virtual = pages }} v refl refl refl refl)
  Step-IsOwned zeros {vm} (switch t u e) v = rw e (switch-IsOwned t u vm v)
  Step-IsOwned zeros {vm} (end t e) v = rw e (free_thread_pages-IsOwned t vm v)

  -- From a state in which frames and page tables agree, every sequence of allocations, faults, writes,
  -- switches and ends of threads leads to one in which they agree: a frame in use is named by exactly one
  -- entry, its owner's, another frame by none, and `g_pfn_count` counts the frames in use.
  pub Reach-IsOwned :
      (zeros : Page) {vm vm' : Vm Page}
      → IsOwned vm max_physical_pages
      → Reach zeros vm vm'
      → IsOwned vm' max_physical_pages
  Reach-IsOwned zeros v here = v
  Reach-IsOwned zeros v (next r s) = Step-IsOwned zeros s (Reach-IsOwned zeros v r)
