-- ===== src/Virt/Init.antt =====
-- tmp2/virt.c: the start of the paged memory. Whether each `mmap` succeeds is an argument, and so is a
-- page of zeros. The shared pages are those of shm.c, and the signal handler is Pages.pagefault_handler.
use osdesignasst.Prelude.{
  Bool, true, Option, none, some, if◌then◌else◌, Outcome, ok, fault, panic, ◌>>=◌, replicate,
}
use osdesignasst.Limits.{max_physical_pages, max_virtual_pages}
use osdesignasst.Swap.{swap_init}
use osdesignasst.Virt.State.{Vm}

module _ {Page : Type 0} (zeros : Page) where
  -- The physical pages are cleared, and no frame is in use; `g_pfn_count` is left as it is.
  abbrev pub clear_physical : Vm Page → Vm Page
  clear_physical vm = record vm {
    physical = replicate max_physical_pages zeros;
    pfns = replicate max_physical_pages (record { used = 0; thread = 0 });
  }

  -- The virtual heap is cleared, and open to read and write.
  abbrev pub clear_virtual : Vm Page → Vm Page
  clear_virtual vm = record vm {
    virtual = replicate max_virtual_pages zeros;
    access = replicate max_virtual_pages true;
  }

  abbrev pub start_swap : Vm Page → Outcome (Option (Vm Page))
  start_swap vm = do swap ← swap_init zeros vm.swap; ok (some (record vm { swap = swap }))

  -- `mm_init`; `none` is -1.
  unfoldable pub mm_init :
      (physical_ok heap_ok share_ok : Bool) → Vm Page → Outcome (Option (Vm Page))
  mm_init physical_ok heap_ok share_ok vm =
      if physical_ok
      then if heap_ok
        then if share_ok then start_swap (clear_virtual (clear_physical vm)) else fault panic
        else fault panic
      else ok none
