-- ===== src/Virt/Owners/Tests.antt =====
-- A run from `mm_init`: thread 101 allocates a page and writes to it; and the theorems at it.
use osdesignasst.Prelude.{
  ℕ, ◌<◌, ◌≡◌, refl, true, some, ok, replicate, set, get_elem?, count, Returns, arith,
}
use osdesignasst.Limits.{max_physical_pages, max_virtual_pages}
use osdesignasst.Swap.{Swap, max_swap_slots, swap_init}
use osdesignasst.Swap.Slots.{swap_init-IsValid}
use osdesignasst.Virt.Pte.{valid, mapped}
use osdesignasst.Virt.State.{Vm}
use osdesignasst.Virt.Frames.{maps, allocate_physical_page}
use osdesignasst.Virt.Pages.{mm_allocate_page, map_page}
use osdesignasst.Virt.Pages.Fault.{framed}
use osdesignasst.Virt.Pages.Allocate.{mm_allocate_page-eq}
use osdesignasst.Virt.Switch.Roundtrip.{away_and_back}
use osdesignasst.Virt.Init.{mm_init}
use osdesignasst.Virt.Owners.Steps.{Reach, Step, Reach-IsOwned}
use osdesignasst.Virt.Owners.Start.{IsFresh, mm_init-IsOwned}
use osdesignasst.Virt.Owners.{IsOwned}
use osdesignasst.Virt.Owners.Runs.{reached_page_survives, reached_allocate}

abbrev no_swap : Swap ℕ
no_swap = record {
  slots = replicate max_swap_slots 0;
  count = 0;
  file = replicate max_swap_slots 0;
  opens = true;
}

abbrev before : Vm ℕ
before = record {
  tables = λ t. replicate max_virtual_pages 0;
  pfns = replicate max_physical_pages (record { used = 0; thread = 0 });
  pfn_count = 0;
  physical = replicate max_physical_pages 0;
  virtual = replicate max_virtual_pages 0;
  access = replicate max_virtual_pages true;
  swap = no_swap;
}

before-IsFresh : IsFresh before
before-IsFresh = record { tables = λ t. refl; count_zero = refl }

started : mm_init 0 true true true before ≡ ok (some before)
unfolding mm_init swap_init
started = refl

abbrev one_page : Vm ℕ
one_page = (map_page 0 101 0 (0, framed 101 before 0)).1

allocated : mm_allocate_page 0 101 before ≡ ok (some 0x60000000, one_page)
allocated = mm_allocate_page-eq 0 101 before 0 0 refl (omega arith) refl

abbrev written : Vm ℕ
written = record one_page { virtual = set (replicate max_virtual_pages 0) 0 5 }

run : Reach 0 before written
run =
    Reach.next (Reach.next Reach.here (Step.allocate 101 allocated refl))
      (Step.write (set (replicate max_virtual_pages 0) 0 5) refl)

reached_page_survives_example :
    get_elem? (away_and_back 101 100 (replicate max_virtual_pages 9) written).virtual 0 ≡ some 5
unfolding valid mapped
reached_page_survives_example =
    reached_page_survives 0 true true true before 101 100 (replicate max_virtual_pages 9) 0
      before-IsFresh started run (omega arith) refl refl refl refl

reached_allocate_example : Returns (allocate_physical_page 100 written) (λ r.
    (r.0 < max_physical_pages)
    × (get_elem? r.1.pfns r.0 ≡ some (record { used = 1; thread = 100 }))
    × ((t : ℕ) → count (maps r.0) (r.1.tables t) ≡ 0))
unfolding swap_init
reached_allocate_example =
    reached_allocate 0 true true true before 100 before-IsFresh started run
      (swap_init-IsValid 0 no_swap refl refl).0 (omega arith) refl

Reach-IsOwned_example : IsOwned written max_physical_pages
Reach-IsOwned_example =
    Reach-IsOwned 0 (mm_init-IsOwned 0 true true true before before-IsFresh started) run
