-- ===== src/Virt/Tests.antt =====
-- Runs of the paged memory, and the theorems at them. Pages are numbers; thread 100 runs, and thread
-- 101 has page 0 in frame 0.
use osdesignasst.Prelude.{
  ℕ, ◌≡◌, ◌≢◌, refl, true, false, some, [], ◌∷◌, replicate, get_elem?, Returns, arith,
  if◌then◌else◌, ◌==◌,
}
use osdesignasst.Swap.{Swap, max_swap_slots, swap_init}
use osdesignasst.Swap.Slots.{IsValid, swap_init-IsValid}
use osdesignasst.Virt.Pte.{valid, swapout, gefilea_pos, pageframenumber, mapped}
use osdesignasst.Virt.State.{Vm}
use osdesignasst.Virt.Frames.{evict_page, maps}
use osdesignasst.Virt.Frames.Evict.{Victim, IsOut, evict_page_lem}
use osdesignasst.Virt.Pages.{mm_allocate_page, pagefault_handler}
use osdesignasst.Virt.Pages.Fault.{pagefault_handler_lem}
use osdesignasst.Virt.Pages.Allocate.{mm_allocate_page_lem}

abbrev empty_swap : Swap ℕ
empty_swap = record {
  slots = replicate max_swap_slots 0;
  count = 0;
  file = replicate max_swap_slots 0;
  opens = true;
}

empty_swap-IsValid : IsValid empty_swap
unfolding swap_init
empty_swap-IsValid = (swap_init-IsValid 0 empty_swap refl refl).0

-- The entry of a page in frame 0.
abbrev in_frame_0 : ℕ
in_frame_0 = 1

abbrev machine : Vm ℕ
machine = record {
  tables = λ t. if t == 101 then in_frame_0 ∷ 0 ∷ [] else 0 ∷ 0 ∷ [];
  pfns = record { used = 1; thread = 101 } ∷ replicate 2047 (record { used = 0; thread = 0 });
  pfn_count = 1;
  physical = 77 ∷ replicate 2047 0;
  virtual = 5 ∷ 6 ∷ [];
  access = false ∷ false ∷ [];
  swap = empty_swap;
}

victim : Victim 100 machine 0 0 101 77
unfolding maps
victim = record { first = refl; owned = refl; entry = refl; stored = refl }

evict_page_lem_example : Returns (evict_page 100 machine) (λ r.
    (r.0 ≡ 0)
    × (get_elem? r.1.pfns 0 ≡ some (record { used = 1; thread = 100 }))
    × IsOut r.1 101 0 77)
evict_page_lem_example = evict_page_lem 100 machine victim empty_swap-IsValid (omega arith) refl

mm_allocate_page_lem_example : Returns (mm_allocate_page 0 100 machine) (λ r.
    (r.0 ≡ some 0x60000000)
    × (get_elem? r.1.virtual 0 ≡ some 0)
    × (get_elem? r.1.access 0 ≡ some true)
    × (get_elem? (r.1.tables 100) 0 ≡ some (mapped 1 0))
    × (valid (mapped 1 0) ≡ 1)
    × (pageframenumber (mapped 1 0) ≡ 1)
    × (get_elem? r.1.pfns 1 ≡ some (record { used = 1; thread = 100 }))
    × ((k : ℕ) → 0 ≢ k → get_elem? (r.1.tables 100) k ≡ get_elem? (machine.tables 100) k)
    × ((k : ℕ) → 0 ≢ k → get_elem? r.1.virtual k ≡ get_elem? machine.virtual k))
mm_allocate_page_lem_example =
    mm_allocate_page_lem 0 100 machine 0 1 refl (omega arith) refl (omega arith) refl (omega arith)
      (omega arith)

-- Page 0 of thread 101 has gone to slot 0.
abbrev paged_out : Vm ℕ
paged_out = record machine {
  tables = λ t. if t == 101 then 2 ∷ 0 ∷ [] else 0 ∷ 0 ∷ [];
  swap = record {
    slots = 1 ∷ replicate 4095 0;
    count = 1;
    file = 77 ∷ replicate 4095 0;
    opens = true;
  };
}

page_0-IsOut : IsOut paged_out 101 0 77
unfolding valid swapout gefilea_pos
page_0-IsOut = record {
  pte = 2;
  at = refl;
  not_valid = refl;
  is_out = refl;
  aligned = refl;
  held = record { marked = refl; stored = refl };
}

pagefault_handler_lem_example : Returns (pagefault_handler 0x60000123 101 paged_out) (λ vm.
    (get_elem? vm.virtual 0 ≡ some 77)
    × (get_elem? vm.access 0 ≡ some true)
    × (get_elem? (vm.tables 101) 0 ≡ some (mapped 1 0))
    × (valid (mapped 1 0) ≡ 1)
    × (pageframenumber (mapped 1 0) ≡ 1)
    × (get_elem? vm.pfns 1 ≡ some (record { used = 1; thread = 101 })))
pagefault_handler_lem_example =
    pagefault_handler_lem 101 paged_out 0x60000123 1 (omega arith) (omega arith) page_0-IsOut refl
      (omega arith) refl (omega arith) refl (omega arith) (omega arith)
