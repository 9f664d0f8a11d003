-- ===== src/Swap/Tests.antt =====
-- Runs of the swap file, and the theorems at them.
use osdesignasst.Prelude.{ℕ, ◌≡◌, true, refl, ok, [], replicate, set}
use osdesignasst.Swap.{Swap, max_swap_slots, swap_init, swap_out, swap_in}
use osdesignasst.Swap.Slots.{IsValid, swap_init-IsValid}
use osdesignasst.Swap.Roundtrip.{swap_in-swap_out}

-- Pages are numbers here, and the zero page is 0.
abbrev pub unused : Swap ℕ
unused = record { slots = []; count = 0; file = []; opens = true }

abbrev pub empty : Swap ℕ
empty = record {
  slots = replicate max_swap_slots 0;
  count = 0;
  file = replicate max_swap_slots 0;
  opens = true;
}

swap_init_run : swap_init 0 unused ≡ ok empty
unfolding swap_init
swap_init_run = refl

abbrev one_out : Swap ℕ
one_out = record {
  slots = set (replicate max_swap_slots 0) 0 1;
  count = 1;
  file = set (replicate max_swap_slots 0) 0 77;
  opens = true;
}

swap_out_run : swap_out 77 empty ≡ ok (0, one_out)
unfolding swap_out
swap_out_run = refl

pub empty-IsValid : IsValid empty
empty-IsValid = (swap_init-IsValid 0 unused refl swap_init_run).0

swap_in-swap_out_example :
    (s : Swap ℕ) × (swap_in 0 one_out ≡ ok (77, s)) × (s.slots ≡ empty.slots) × (s.count ≡ 0)
swap_in-swap_out_example = swap_in-swap_out 77 empty empty-IsValid refl swap_out_run
