-- ===== src/Virt/Switch.antt =====
-- tmp2/virt.c: the copies at a switch between threads. The loops run over the page table and the pages
-- of the virtual heap side by side. A frame number out of range copies nothing here.
pub mod Roundtrip
use osdesignasst.Prelude.{
  ℕ, Bool, true, false, List, [], ◌∷◌, ◌==◌, if◌then◌else◌, get_or, set, not, map,
}
use osdesignasst.Virt.Pte.{valid, pageframenumber}
use osdesignasst.Virt.State.{Vm}

-- The test of the valid bit in both loops.
abbrev pub is_valid : ℕ → Bool
is_valid entry = not (0 == valid entry)

module _ {Page : Type 0} where
  unfoldable pub store_pages :
      (entries : List ℕ) → (virtual : List Page) → (physical : List Page) → List Page
  store_pages [] vs ps = ps
  store_pages (e ∷ es) [] ps = ps
  store_pages (e ∷ es) (v ∷ vs) ps =
      store_pages es vs (if is_valid e then set ps (pageframenumber e) v else ps)

  unfoldable pub mm_store_virtual_pages_back : (c : ℕ) → Vm Page → Vm Page
  unfolding store_pages
  mm_store_virtual_pages_back c vm = record vm {
    physical = store_pages (vm.tables c) vm.virtual vm.physical;
  }

  unfoldable pub load_pages :
      (entries : List ℕ) → (physical : List Page) → (virtual : List Page) → List Page
  load_pages [] ps vs = vs
  load_pages (e ∷ es) ps [] = []
  load_pages (e ∷ es) ps (v ∷ vs) =
      (if is_valid e then get_or ps (pageframenumber e) v else v) ∷ load_pages es ps vs

  unfoldable pub mm_switch_virtual_pages : (c : ℕ) → Vm Page → Vm Page
  unfolding load_pages
  mm_switch_virtual_pages c vm = record vm {
    virtual = load_pages (vm.tables c) vm.physical vm.virtual;
    access = map is_valid (vm.tables c);
  }
