-- ===== src/Virt/State.antt =====
-- tmp2/virt.c: the state of the paged memory. A page is a value of any type.
use osdesignasst.Prelude.{ℕ, Bool, List}
use osdesignasst.Swap.{Swap}

-- `pfn_t`; `thread` is read only where `used` is 1.
pub record Pfn : Type 0 where
  pub used : ℕ
  pub thread : ℕ

-- `g_pfn`, `g_pfn_count`, the page tables of the threads, the physical pages, the pages of the virtual
-- heap with their access rights, and the swap file.
pub record Vm (Page : Type 0) : Type 0 where
  pub tables : ℕ → List ℕ
  pub pfns : List Pfn
  pub pfn_count : ℕ
  pub physical : List Page
  pub virtual : List Page
  pub access : List Bool
  pub swap : Swap Page
