-- ===== src/Virt/Frames.antt =====
-- tmp2/virt.c: the physical pages: allocation, eviction to the swap file, and release.
pub mod Evict
use osdesignasst.Prelude.{
  ℕ, ◌+◌, ◌-◌, Bool, ◌&&◌, not, Option, none, some, List, ◌==◌, leb, if◌then◌else◌, Outcome, ok,
  fault, panic, out_of_bounds, ◌>>=◌, get_elem?, get_or, set, find_index?,
}
use osdesignasst.Limits.{max_physical_pages}
use osdesignasst.Swap.{Swap, swap_out}
use osdesignasst.Virt.Pte.{valid, pageframenumber, swapped}
use osdesignasst.Virt.State.{Pfn, Vm}

-- A write to the page table of thread `t`.
abbrev pub write_table : (ℕ → List ℕ) → ℕ → List ℕ → ℕ → List ℕ
write_table f t table u = if t == u then table else f u

-- The entry is valid and names frame `i`.
unfoldable pub maps : (i : ℕ) → (entry : ℕ) → Bool
unfolding valid pageframenumber
maps i entry = (1 == valid entry) && (pageframenumber entry == i)

-- The frame is in use by another thread than `c`.
abbrev pub is_victim : (c : ℕ) → Pfn → Bool
is_victim c f = (1 == f.used) && not (f.thread == c)

abbrev pub is_unused : Pfn → Bool
is_unused f = 0 == f.used

module _ {Page : Type 0} where
  -- The loop over the owner's page table, with the index it finds: its entry goes to the software form,
  -- and the frame to thread `c`. With no such entry nothing changes.
  unfoldable pub evict_entry : (c i owner offset : ℕ) → Vm Page → Option ℕ → Vm Page
  evict_entry c i owner offset vm none = vm
  evict_entry c i owner offset vm (some j) =
      let table = vm.tables owner in
      record vm {
        tables = write_table vm.tables owner (set table j (swapped offset (get_or table j 0)));
        pfns = set vm.pfns i (record { used = 1; thread = c });
      }

  abbrev pub evict_to : (c i owner : ℕ) → Vm Page → ℕ × Swap Page → Vm Page
  evict_to c i owner vm (offset, swap) =
      evict_entry c i owner offset (record vm { swap = swap })
        (find_index? (maps i) (vm.tables owner))

  abbrev pub evict_page_of : (c i : ℕ) → Vm Page → Option Pfn → Option Page → Outcome (ℕ × Vm Page)
  evict_page_of c i vm (some f) (some page) = do
    out ← swap_out page vm.swap
    ok (i, evict_to c i f.thread vm out)
  evict_page_of c i vm none page = fault out_of_bounds
  evict_page_of c i vm (some f) none = fault out_of_bounds

  abbrev pub evict_at : (c : ℕ) → Vm Page → Option ℕ → Outcome (ℕ × Vm Page)
  evict_at c vm none = ok (max_physical_pages, vm)
  evict_at c vm (some i) = evict_page_of c i vm (get_elem? vm.pfns i) (get_elem? vm.physical i)

  -- `evict_page`: the first frame of another thread than `c` goes to the swap file. If there is none,
  -- the result is the end of the loop, MAX_PHYSICAL_PAGES, which is no frame.
  unfoldable pub evict_page : (c : ℕ) → Vm Page → Outcome (ℕ × Vm Page)
  unfolding evict_entry
  evict_page c vm = evict_at c vm (find_index? (is_victim c) vm.pfns)

  abbrev pub take_frame : (c : ℕ) → Vm Page → Option ℕ → Outcome (ℕ × Vm Page)
  take_frame c vm none = fault panic
  take_frame c vm (some i) = ok (
    i,
    record vm {
      pfns = set vm.pfns i (record { used = 1; thread = c });
      pfn_count = vm.pfn_count + 1;
    },
  )

  -- `allocate_physical_page`, for the thread `c`
  unfoldable pub allocate_physical_page : (c : ℕ) → Vm Page → Outcome (ℕ × Vm Page)
  allocate_physical_page c vm =
      if leb max_physical_pages vm.pfn_count
      then evict_page c vm
      else take_frame c vm (find_index? is_unused vm.pfns)

  abbrev pub free_frame : (pfn : ℕ) → Vm Page → Option Pfn → Vm Page
  free_frame pfn vm none = vm
  free_frame pfn vm (some f) = if 0 == f.used then vm else record vm {
    pfns = set vm.pfns pfn (record f { used = 0 });
    pfn_count = vm.pfn_count - 1;
  }

  -- `free_physical_page`. The table has MAX_PHYSICAL_PAGES frames.
  unfoldable pub free_physical_page : (pfn : ℕ) → Vm Page → Vm Page
  free_physical_page pfn vm =
      if leb max_physical_pages pfn then vm else free_frame pfn vm (get_elem? vm.pfns pfn)
