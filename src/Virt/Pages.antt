-- ===== src/Virt/Pages.antt =====
-- tmp2/virt.c: the pages of a thread: allocation, page faults, and release at its end. `c` is CURRENT.
pub mod Fault
pub mod Allocate
use osdesignasst.Prelude.{
  ℕ, ◌+◌, ◌-◌, ◌*◌, ◌/◌, ◌^◌, Bool, ◌&&◌, true, Option, none, some, List, [], ◌∷◌, ◌==◌, ltb, leb,
  if◌then◌else◌, Outcome, ok, fault, panic, segv, out_of_bounds, ◌>>=◌, get_elem?, get_or, set,
  find_index?,
}
use osdesignasst.Limits.{page_size, virtual_heap_start, virtual_heap_end}
use osdesignasst.Swap.{Swap, swap_in}
use osdesignasst.Virt.Pte.{valid, pageframenumber, swapout, gefilea_pos, mapped}
use osdesignasst.Virt.State.{Vm}
use osdesignasst.Virt.Frames.{write_table, allocate_physical_page, free_physical_page}

abbrev pub is_free_entry : ℕ → Bool
is_free_entry e = 0 == e

-- `mi_getpteindex`
abbrev pub mi_getpteindex : ℕ → ℕ
mi_getpteindex va = (va - virtual_heap_start) / 2 ^ 12

-- An entry after the loop of `free_thread_pages`.
abbrev pub freed : (entry : ℕ) → ℕ
freed entry = if 1 == valid entry then 0 else entry

module _ {Page : Type 0} where
  abbrev pub write_entry : (c j entry : ℕ) → Vm Page → Vm Page
  write_entry c j entry vm = record vm {
    tables = write_table vm.tables c (set (vm.tables c) j entry);
  }

  -- `mprotect` of page `j` to read and write
  abbrev pub open_page : (j : ℕ) → Vm Page → Vm Page
  open_page j vm = record vm { access = set vm.access j true }

  abbrev pub map_page : (zeros : Page) → (c j : ℕ) → ℕ × Vm Page → Option ℕ × Vm Page
  map_page zeros c j (pfn, vm) =
      let at = open_page j (write_entry c j (mapped pfn (get_or (vm.tables c) j 0)) vm) in
      (some (virtual_heap_start + j * page_size), record at { virtual = set at.virtual j zeros })

  abbrev pub allocate_at :
      (zeros : Page) → (c : ℕ) → Vm Page → Option ℕ → Outcome (Option ℕ × Vm Page)
  allocate_at zeros c vm none = ok (none, vm)
  allocate_at zeros c vm (some j) = do
    frame ← allocate_physical_page c vm
    ok (map_page zeros c j frame)

  -- `mm_allocate_page`; `none` is `NULL`, and `zeros` a page of zeros.
  unfoldable pub mm_allocate_page :
      (zeros : Page) → (c : ℕ) → Vm Page → Outcome (Option ℕ × Vm Page)
  unfolding allocate_physical_page
  mm_allocate_page zeros c vm = allocate_at zeros c vm (find_index? is_free_entry (vm.tables c))

  abbrev pub load_page : (j : ℕ) → Vm Page → Page × Swap Page → Vm Page
  load_page j vm (page, swap) = record vm { virtual = set vm.virtual j page; swap = swap }

  -- A fault on a page of the swap file. The frame number is never -1.
  abbrev pub fetch : (c j entry : ℕ) → Vm Page → Outcome (Vm Page)
  fetch c j entry vm = do
    frame ← allocate_physical_page c vm
    let at = open_page j (write_entry c j (mapped frame.0 0) frame.1)
    got ← swap_in (gefilea_pos entry) at.swap
    ok (load_page j at got)

  abbrev pub fault_on : (c j : ℕ) → Vm Page → Option ℕ → Outcome (Vm Page)
  fault_on c j vm none = fault out_of_bounds
  fault_on c j vm (some entry) =
      if 0 == valid entry
      then if 1 == swapout entry then fetch c j entry vm else fault segv
      else fault panic

  -- `pagefault_handler` at address `addr`
  unfoldable pub pagefault_handler : (addr c : ℕ) → Vm Page → Outcome (Vm Page)
  pagefault_handler addr c vm =
      if leb virtual_heap_start addr && ltb addr virtual_heap_end
      then fault_on c (mi_getpteindex addr) vm (get_elem? (vm.tables c) (mi_getpteindex addr))
      else fault segv

  abbrev pub free_entry : (entry : ℕ) → Vm Page → Vm Page
  free_entry entry vm =
      if 1 == valid entry then free_physical_page (pageframenumber entry) vm else vm

  -- The loop of `free_thread_pages` over the entries: the frames are given back; entries of swapped-out
  -- pages stay, and so do their slots.
  unfoldable pub free_entries : List ℕ → Vm Page → List ℕ × Vm Page
  free_entries [] vm = ([], vm)
  free_entries (e ∷ es) vm =
      let (rest, vm') = free_entries es (free_entry e vm) in (freed e ∷ rest, vm')

  unfoldable pub free_thread_pages : (t : ℕ) → Vm Page → Vm Page
  free_thread_pages t vm =
      let (table, vm') = free_entries (vm.tables t) vm in
      record vm' { tables = write_table vm'.tables t table }
